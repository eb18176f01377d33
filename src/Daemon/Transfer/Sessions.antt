-- ===== src/Daemon/Transfer/Sessions.antt =====
-- A transfer that breaks off and goes on: the daemon sends the manifest on each connection, then
-- the records from the client's next offset, and at last the end.
use mathlib.Core.List.{append_assoc, append-nil}
use symnav.Prelude.{
  ◌≡◌, refl, sym, ap, subst, ◌∙◌, ◌⊎◌, inl, inr, ℕ, suc, ◌+◌, true, false, none, some, List, [],
  ◌∷◌, ◌++◌, arith, text_eq_refl, length, ok, ◌>>=◌,
}
use symnav.Daemon.Transfer.{
  DaemonOutputStream, DaemonSequencedOutputRecord, CompletionSpoolManifest, DaemonOutputCapture,
  DaemonResultTransferReceiver, receiver, begin_connection, accept_manifest, accept_chunk,
  accept_end,
}
use symnav.Daemon.Transfer.Resume.{Arrival, arrive, receive}
use symnav.Daemon.Transfer.Connections.{
  Output, records, chunk_at, chunks, connection, connections, total, joined, end_frame,
  records-append, manifests_match_refl, records_at, length-joined, bind_assoc,
}

-- What a capture is relied on for: it holds a list of records, and takes one more where that is
-- allowed, which is so of every front of a list for which it is so.
pub record IsCapture {O R : Type 0} (capture : DaemonOutputCapture O R)
    (Holds : List DaemonSequencedOutputRecord → O → Type 0)
    (IsAllowed : List DaemonSequencedOutputRecord → Type 0) : Type 0 where
  pub takes :
      (rs : List DaemonSequencedOutputRecord) (x : DaemonSequencedOutputRecord) (o : O)
      → Holds rs o
      → IsAllowed (rs ++ x ∷ [])
      → (o' : O) × (capture.append x o ≡ ok o') × Holds (rs ++ x ∷ []) o'
  pub fronts : (rs xs : List DaemonSequencedOutputRecord) → IsAllowed (rs ++ xs) → IsAllowed rs

module _ {O R : Type 0} (capture : DaemonOutputCapture O R)
    (Holds : List DaemonSequencedOutputRecord → O → Type 0)
    (IsAllowed : List DaemonSequencedOutputRecord → Type 0)
    (is_capture : IsCapture capture Holds IsAllowed) where
  -- A receiver for the transfer `m` that has the records before `n`.
  record Has (m : CompletionSpoolManifest) (n : ℕ) (rs : List DaemonSequencedOutputRecord)
      (r : DaemonResultTransferReceiver O) : Type 0 where
    own : r.request_id ≡ m.request_id
    expects : (r.expected_manifest ≡ none) ⊎ (r.expected_manifest ≡ some m)
    next : r.next_record_offset ≡ n
    holds : Holds rs r.output

  -- The same within a connection.
  record Receives (m : CompletionSpoolManifest) (n : ℕ) (rs : List DaemonSequencedOutputRecord)
      (r : DaemonResultTransferReceiver O) : Type 0 where
    own : r.request_id ≡ m.request_id
    expects : r.expected_manifest ≡ some m
    next : r.next_record_offset ≡ n
    holds : Holds rs r.output
    opened : r.manifest_received ≡ true
    going : r.terminal_received ≡ false

  connects-Receives :
      (m : CompletionSpoolManifest) (n : ℕ) (rs : List DaemonSequencedOutputRecord)
      (r : DaemonResultTransferReceiver O)
      → Has m n rs r
      → (r' : DaemonResultTransferReceiver O) × (accept_manifest capture
            (record { instance_id = m.instance_id; request_id = m.request_id; manifest = m })
            (begin_connection capture r)
          ≡ ok r')
        × Receives m n rs r'
  unfolding accept_manifest begin_connection
  connects-Receives m n rs r h = (
    record r { expected_manifest = some m; manifest_received = true; terminal_received = false },
    ground (arith, manifests_match_refl m, text_eq_refl m.request_id, text_eq_refl m.instance_id),
    ground arith,
  )

  chunk-Receives :
      (m : CompletionSpoolManifest) (n : ℕ) (rs : List DaemonSequencedOutputRecord)
      (s : DaemonOutputStream) (b : List ℕ) (r : DaemonResultTransferReceiver O)
      → Receives m n rs r
      → IsAllowed (rs ++ record { sequence = n; stream = s; bytes = b } ∷ [])
      → (r' : DaemonResultTransferReceiver O) × (accept_chunk capture (chunk_at m n s b) r ≡ ok r')
        × Receives m (suc n) (rs ++ record { sequence = n; stream = s; bytes = b } ∷ []) r'
  unfolding accept_chunk
  chunk-Receives m n rs s b r h allowed =
      let x : DaemonSequencedOutputRecord = record { sequence = n; stream = s; bytes = b } in
      let (o, e, held) = is_capture.takes rs x r.output h.holds allowed in
      (
        record r { output = o; next_record_offset = r.next_record_offset + 1 },
        ground (arith, e, text_eq_refl m.request_id, text_eq_refl m.transfer_id),
        record {
          own = h.own;
          expects = h.expects;
          next = omega (arith, h.next);
          holds = held;
          opened = h.opened;
          going = h.going;
        },
      )

  receive-append :
      (front rest : List Arrival) (r : DaemonResultTransferReceiver O)
      → receive capture (front ++ rest) r ≡ (receive capture front r >>= receive capture rest)
  unfolding receive
  receive-append [] rest r = refl
  receive-append (a ∷ front) rest r =
      bind_assoc (arrive capture a r) (receive capture front) (receive capture rest)
        (receive-append front rest)

  chunks-Receives :
      (m : CompletionSpoolManifest) (n : ℕ) (rs : List DaemonSequencedOutputRecord)
      (os : List Output) (r : DaemonResultTransferReceiver O)
      → Receives m n rs r
      → IsAllowed (rs ++ records n os)
      → (r' : DaemonResultTransferReceiver O) × (receive capture (chunks m n os) r ≡ ok r')
        × Receives m (n + length os) (rs ++ records n os) r'
  unfolding receive arrive
  chunks-Receives m n rs [] r h allowed = (
    r,
    refl,
    rw (append-nil rs) (record {
      own = h.own;
      expects = h.expects;
      next = omega (arith, h.next);
      holds = h.holds;
      opened = h.opened;
      going = h.going;
    }),
  )
  chunks-Receives m n rs ((s, b) ∷ os) r h allowed =
      let x : DaemonSequencedOutputRecord = record { sequence = n; stream = s; bytes = b } in
      let whole : IsAllowed ((rs ++ x ∷ []) ++ records (suc n) os) =
        subst IsAllowed (sym (append_assoc rs (x ∷ []) (records (suc n) os))) allowed in
      let (r₁, p, k) =
        chunk-Receives m n rs s b r h
          (is_capture.fronts (rs ++ x ∷ []) (records (suc n) os) whole) in
      let (r', q, k') = chunks-Receives m (suc n) (rs ++ x ∷ []) os r₁ k whole in
      (
        r',
        rw p q,
        record {
          own = k'.own;
          expects = k'.expects;
          next = omega (arith, k'.next);
          holds =
              subst (λ l. Holds l r'.output) (append_assoc rs (x ∷ []) (records (suc n) os))
                k'.holds;
          opened = k'.opened;
          going = k'.going;
        },
      )

  connection-Receives :
      (m : CompletionSpoolManifest) (n : ℕ) (rs : List DaemonSequencedOutputRecord)
      (os : List Output) (r : DaemonResultTransferReceiver O)
      → Has m n rs r
      → IsAllowed (rs ++ records n os)
      → (r' : DaemonResultTransferReceiver O) × (receive capture (connection m n os) r ≡ ok r')
        × Receives m (n + length os) (rs ++ records n os) r'
  unfolding receive arrive
  connection-Receives m n rs os r h allowed =
      let (r₁, p, k) = connects-Receives m n rs r h in
      let (r₂, q, k') = chunks-Receives m n rs os r₁ k allowed in (r₂, rw p q, k')

  connections-Has :
      (m : CompletionSpoolManifest) (n : ℕ) (rs : List DaemonSequencedOutputRecord)
      (parts : List (List Output)) (r : DaemonResultTransferReceiver O)
      → Has m n rs r
      → IsAllowed (rs ++ records n (joined parts))
      → (r' : DaemonResultTransferReceiver O) × (receive capture (connections m n parts) r ≡ ok r')
        × Has m (n + total parts) (rs ++ records n (joined parts)) r'
  connections-Has m n rs [] r h allowed = (
    r,
    unfold receive in refl,
    rw (append-nil rs) (record {
      own = h.own;
      expects = h.expects;
      next = omega (arith, h.next);
      holds = h.holds;
    }),
  )
  connections-Has m n rs (os ∷ parts) r h allowed =
      let together =
        ap (λ x. rs ++ x) (records-append n os (joined parts))
        ∙ sym (append_assoc rs (records n os) (records (n + length os) (joined parts))) in
      let whole = subst IsAllowed together allowed in
      let (r₁, p, k) =
        connection-Receives m n rs os r h
          (is_capture.fronts (rs ++ records n os) (records (n + length os) (joined parts)) whole) in
      let (r₂, q, k') =
        connections-Has m (n + length os) (rs ++ records n os) parts r₁
          (record { own = k.own; expects = inr k.expects; next = k.next; holds = k.holds }) whole in
      (
        r₂,
        rw (receive-append, p) q,
        record {
          own = k'.own;
          expects = k'.expects;
          next = omega (arith, k'.next);
          holds = subst (λ l. Holds l r₂.output) (sym together) k'.holds;
        },
      )

  ended :
      (m : CompletionSpoolManifest) (r : DaemonResultTransferReceiver O)
      → r.request_id ≡ m.request_id
      → r.expected_manifest ≡ some m
      → r.manifest_received ≡ true
      → r.terminal_received ≡ false
      → r.next_record_offset ≡ m.summary.record_count
      → receive capture (end_frame m ∷ []) r ≡ ok (record r { terminal_received = true })
  unfolding receive arrive accept_end
  ended m r own expects opened going count = ground (
    arith,
    text_eq_refl m.instance_id,
    text_eq_refl m.request_id,
    text_eq_refl m.transfer_id,
    text_eq_refl m.summary.sha256,
  )

  pub transferred :
      (m : CompletionSpoolManifest) (parts : List (List Output)) (rest : List Output) (o : O)
      → m.summary.record_count ≡ total parts + length rest
      → Holds [] o
      → IsAllowed (records 0 (joined parts ++ rest))
      → (r : DaemonResultTransferReceiver O) × (receive capture
            (connections m 0 parts ++ (connection m (total parts) rest ++ end_frame m ∷ []))
            (receiver capture m.request_id o)
          ≡ ok r)
        × Holds (records 0 (joined parts ++ rest)) r.output
        × (r.terminal_received ≡ true)
        × (r.expected_manifest ≡ some m)
  transferred m parts rest o count empty allowed =
      let together = records_at 0 (joined parts) rest (omega (arith, length-joined parts)) in
      let whole = subst IsAllowed together allowed in
      let (r₁, p, k) =
        connections-Has m 0 [] parts (receiver capture m.request_id o)
          (unfold receiver in record { own = refl; expects = inl refl; next = refl; holds = empty })
          (is_capture.fronts (records 0 (joined parts)) (records (total parts) rest) whole) in
      let (r₂, q, k') =
        connection-Receives m (total parts) (records 0 (joined parts)) rest r₁
          (record {
            own = k.own;
            expects = k.expects;
            next = omega (arith, k.next);
            holds = k.holds;
          })
          whole in
      (
        record r₂ { terminal_received = true },
        rw (receive-append, p)
            (rw (receive-append, q)
              (ended m r₂ k'.own k'.expects k'.opened k'.going (omega (arith, count, k'.next)))),
        subst (λ l. Holds l r₂.output) (sym together) k'.holds,
        refl,
        k'.expects,
      )
