-- ===== src/Daemon/Transfer/Resume.antt =====
-- What a transfer over several connections leaves in the capture.
use symnav.Prelude.{
  ◌≡◌, refl, ℕ, suc, ◌+◌, Bool, true, false, inl, inr, Option-cases, Option, none, some, List, [],
  ◌∷◌, ◌++◌, arith, Text, length, length-append, Result, ok, err, ◌>>=◌, >>=-eq-ok, ok-injective,
  ◌==◌,
}
use symnav.Daemon.Transfer.{
  DaemonSequencedOutputRecord, DaemonCapturedOutputSummary, CompletionSpoolManifest,
  ResultManifestFrame, DaemonResultChunk, ResultEndFrame, DaemonOutputCapture,
  DaemonResultTransferReceiver, TransferError, summaries_match, begin_connection, accept_manifest,
  accept_chunk, accept_end, finish, Finished,
}

-- What reaches the receiver: a new connection, or a frame.
pub data Arrival : Type 0 where
  connects : Arrival
  manifest : ResultManifestFrame → Arrival
  chunk : DaemonResultChunk → Arrival
  ends : ResultEndFrame → Arrival

-- The sequence numbers of the records are `n`, `n + 1`, and so on.
abbrev pub IsNumbered : ℕ → List DaemonSequencedOutputRecord → Type 0
IsNumbered n [] = Unit
IsNumbered n (r ∷ rs) = (r.sequence ≡ n) × IsNumbered (suc n) rs

IsNumbered-append :
    (n : ℕ) (rs : List DaemonSequencedOutputRecord) (r : DaemonSequencedOutputRecord)
    → IsNumbered n rs
    → r.sequence ≡ n + length rs
    → IsNumbered n (rs ++ r ∷ [])
IsNumbered-append n [] r h e = ground arith
IsNumbered-append n (x ∷ rs) r h e = (h.0, IsNumbered-append (suc n) rs r h.1 (omega arith))

abbrev settled : Option CompletionSpoolManifest → ℕ → Bool
settled none n = false
settled (some m) n = n == m.summary.record_count

module _ {O R : Type 0} (capture : DaemonOutputCapture O R) where
  unfoldable pub arrive :
      Arrival
      → DaemonResultTransferReceiver O
      → Result TransferError (DaemonResultTransferReceiver O)
  arrive connects r = ok (begin_connection capture r)
  arrive (manifest f) r = accept_manifest capture f r
  arrive (chunk c) r = accept_chunk capture c r
  arrive (ends f) r = accept_end capture f r

  -- Arrivals up to the first that the receiver refuses.
  unfoldable pub receive :
      List Arrival
      → DaemonResultTransferReceiver O
      → Result TransferError (DaemonResultTransferReceiver O)
  receive [] r = ok r
  receive (a ∷ rest) r = arrive a r >>= receive rest

module _ {O R : Type 0} (capture : DaemonOutputCapture O R)
    (captured : O → List DaemonSequencedOutputRecord)
    (appends : (x : DaemonSequencedOutputRecord) (o o' : O)
      → capture.append x o ≡ ok o'
      → captured o' ≡ captured o ++ x ∷ []) where
  -- The capture holds the records `0` up to the next offset, and a transfer that has ended has as
  -- many as its manifest says.
  pub record IsValid (r : DaemonResultTransferReceiver O) : Type 0 where
    pub numbered : IsNumbered 0 (captured r.output)
    pub counted : length (captured r.output) ≡ r.next_record_offset
    pub ended : r.terminal_received ≡ true → settled r.expected_manifest r.next_record_offset ≡ true

  connects-IsValid :
      (r : DaemonResultTransferReceiver O) → IsValid r → IsValid (begin_connection capture r)
  unfolding begin_connection
  connects-IsValid r v = ground arith

  manifest-IsValid :
      (f : ResultManifestFrame) (r r' : DaemonResultTransferReceiver O)
      → accept_manifest capture f r ≡ ok r'
      → IsValid r
      → IsValid r'
  unfolding accept_manifest
  manifest-IsValid f r r' h v = ground arith

  accept_chunk-ok :
      (c : DaemonResultChunk) (r r' : DaemonResultTransferReceiver O)
      → accept_chunk capture c r ≡ ok r'
      → (o : O) × (capture.append
            (record { sequence = c.sequence; stream = c.stream; bytes = c.bytes })
            r.output
          ≡ ok o)
        × (c.sequence ≡ r.next_record_offset)
        × (r' ≡ record r { output = o; next_record_offset = r.next_record_offset + 1 })
        × (r.terminal_received ≡ false)
  unfolding accept_chunk
  accept_chunk-ok c r r' h = ground arith

  chunk-IsValid :
      (c : DaemonResultChunk) (r r' : DaemonResultTransferReceiver O)
      → accept_chunk capture c r ≡ ok r'
      → IsValid r
      → IsValid r'
  chunk-IsValid c r r' h v =
      let x : DaemonSequencedOutputRecord = record {
        sequence = c.sequence;
        stream = c.stream;
        bytes = c.bytes;
      } in
      let (o, p, q, e, t) = accept_chunk-ok c r r' h in
      ground (
        arith,
        appends x r.output o p,
        length-append (captured r.output) (x ∷ []),
        IsNumbered-append 0 (captured r.output) x v.numbered (omega (arith, q, v.counted)),
      )

  ends-IsValid :
      (f : ResultEndFrame) (r r' : DaemonResultTransferReceiver O)
      → accept_end capture f r ≡ ok r'
      → IsValid r
      → IsValid r'
  unfolding accept_end
  ends-IsValid f r r' h v = ground arith

  arrive-IsValid :
      (a : Arrival) (r r' : DaemonResultTransferReceiver O)
      → arrive capture a r ≡ ok r'
      → IsValid r
      → IsValid r'
  unfolding arrive
  arrive-IsValid connects r r' h v = rw (← ok-injective h) (connects-IsValid r v)
  arrive-IsValid (manifest f) r r' h v = manifest-IsValid f r r' h v
  arrive-IsValid (chunk c) r r' h v = chunk-IsValid c r r' h v
  arrive-IsValid (ends f) r r' h v = ends-IsValid f r r' h v

  -- For a capture that adds what it takes at its end: whatever a valid receiver takes, in whatever
  -- order and over however many connections, it stays valid, that is, the capture holds the
  -- records `0` up to the next offset, in order, and a transfer that ended has the count of its
  -- manifest.
  pub receive-IsValid :
      (arrivals : List Arrival) (r r' : DaemonResultTransferReceiver O)
      → receive capture arrivals r ≡ ok r'
      → IsValid r
      → IsValid r'
  unfolding receive
  receive-IsValid [] r r' h v = rw (← ok-injective h) v
  receive-IsValid (a ∷ rest) r r' h v =
      let (m, p, q) = >>=-eq-ok (arrive capture a r) (receive capture rest) h in
      receive-IsValid rest m r' q (arrive-IsValid a r m p v)

  -- What is known of a result that `finish` gives.
  pub record IsComplete (r : DaemonResultTransferReceiver O) (f : Finished capture)
      (m : CompletionSpoolManifest) (s : DaemonCapturedOutputSummary) : Type 0 where
    pub expected : r.expected_manifest ≡ some m
    pub numbered : IsNumbered 0 (captured r.output)
    pub counted : length (captured r.output) ≡ m.summary.record_count
    pub finished : capture.finish m.exit_code r.output ≡ ok (f.result, s)
    pub summarised : summaries_match s m.summary ≡ true
    pub failure : f.state_write_failure ≡ m.state_write_failure

  -- A result that `finish` gives of a valid receiver is that of a capture which holds exactly the records that the
  -- manifest counts, numbered from 0, and whose summary is the manifest's.
  pub finish-IsComplete :
      (r : DaemonResultTransferReceiver O) (f : Finished capture)
      → IsValid r
      → (finish capture r).1 ≡ ok f
      → (m : CompletionSpoolManifest) × (s : DaemonCapturedOutputSummary) × IsComplete r f m s
  unfolding finish
  finish-IsComplete r f v h = elim (Option-cases r.expected_manifest) [
    | inl e ↦ absurd (ground arith)
    | inr (m, e) ↦ by_capture m e (capture.finish m.exit_code r.output) refl
  ]
    where
      by_capture :
          (m : CompletionSpoolManifest)
          → r.expected_manifest ≡ some m
          → (x : Result Text (R × DaemonCapturedOutputSummary))
          → capture.finish m.exit_code r.output ≡ x
          → (m : CompletionSpoolManifest) × (s : DaemonCapturedOutputSummary) × IsComplete r f m s
      by_capture m e (err c) p = absurd (ground arith)
      by_capture m e (ok (result, s)) p = (m, s, ground arith)
