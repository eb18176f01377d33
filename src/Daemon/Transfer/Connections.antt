-- ===== src/Daemon/Transfer/Connections.antt =====
-- What arrives of a result over connections that break off: on each the manifest, and the records from
-- the next offset of the client.
use symnav.Prelude.{
  ◌≡◌, refl, ap, ◌∙◌, ℕ, suc, ◌+◌, true, Option, none, some, List, [], ◌∷◌, ◌++◌, arith, Text,
  text_eq_refl, length, length-append, Result, ok, err, ◌>>=◌,
}
use symnav.Daemon.Transfer.{
  DaemonOutputStream, DaemonSequencedOutputRecord, CompletionSpoolManifest, DaemonResultChunk,
  optional_eq, path_of, os_code_of, manifests_match,
}
use symnav.Daemon.Transfer.Resume.{Arrival, connects, manifest, chunk, ends}

-- What a record of the result holds beside its number.
abbrev pub Output : Type 0
Output = DaemonOutputStream × List ℕ

abbrev pub records : ℕ → List Output → List DaemonSequencedOutputRecord
records n [] = []
records n ((s, b) ∷ os) = record { sequence = n; stream = s; bytes = b } ∷ records (suc n) os

abbrev pub chunk_at : CompletionSpoolManifest → ℕ → DaemonOutputStream → List ℕ → DaemonResultChunk
chunk_at m n s b = record {
  transfer_id = m.transfer_id;
  request_id = m.request_id;
  offset = n;
  sequence = n;
  stream = s;
  bytes = b;
}

abbrev pub chunks : CompletionSpoolManifest → ℕ → List Output → List Arrival
chunks m n [] = []
chunks m n ((s, b) ∷ os) = chunk (chunk_at m n s b) ∷ chunks m (suc n) os

-- One connection that starts at record `n`.
abbrev pub connection : CompletionSpoolManifest → ℕ → List Output → List Arrival
connection m n os =
    connects
    ∷ manifest (record { instance_id = m.instance_id; request_id = m.request_id; manifest = m })
    ∷ chunks m n os

-- Connections that broke off after the records that each list holds.
abbrev pub connections : CompletionSpoolManifest → ℕ → List (List Output) → List Arrival
connections m n [] = []
connections m n (os ∷ more) = connection m n os ++ connections m (n + length os) more

abbrev pub total : List (List Output) → ℕ
total [] = 0
total (os ∷ more) = length os + total more

abbrev pub joined : List (List Output) → List Output
joined [] = []
joined (os ∷ more) = os ++ joined more

abbrev pub end_frame : CompletionSpoolManifest → Arrival
end_frame m = ends (record {
  instance_id = m.instance_id;
  request_id = m.request_id;
  transfer_id = m.transfer_id;
  summary = m.summary;
})

pub records-append :
    (n : ℕ) (os ps : List Output)
    → records n (os ++ ps) ≡ records n os ++ records (n + length os) ps
records-append n [] ps = ap (λ k. records k ps) (omega arith)
records-append n ((s, b) ∷ os) ps =
    ap (λ r. record { sequence = n; stream = s; bytes = b } ∷ r)
      (records-append (suc n) os ps ∙ ap (λ k. records (suc n) os ++ records k ps) (omega arith))

pub optional_eq_refl : (o : Option Text) → optional_eq o o ≡ true
optional_eq_refl none = refl
optional_eq_refl (some t) = text_eq_refl t

pub manifests_match_refl : (m : CompletionSpoolManifest) → manifests_match m m ≡ true
unfolding manifests_match
manifests_match_refl m = ground (
  arith,
  text_eq_refl m.transfer_id,
  text_eq_refl m.request_id,
  text_eq_refl m.instance_id,
  text_eq_refl m.summary.sha256,
  optional_eq_refl (path_of m.state_write_failure),
  optional_eq_refl (os_code_of m.state_write_failure),
)

pub records_at :
    (n : ℕ) (os ps : List Output) {k : ℕ}
    → n + length os ≡ k
    → records n (os ++ ps) ≡ records n os ++ records k ps
records_at n os ps e = rw (← e) (records-append n os ps)

pub length-joined : (parts : List (List Output)) → length (joined parts) ≡ total parts
length-joined [] = refl
length-joined (os ∷ parts) = omega (arith, length-append os (joined parts), length-joined parts)

pub bind_assoc :
    {E A B C : Type 0} (m : Result E A) (f : A → Result E B) (g : B → Result E C)
    {h : A → Result E C}
    → ((a : A) → h a ≡ (f a >>= g))
    → (m >>= h) ≡ (m >>= f >>= g)
bind_assoc (ok a) f g e = e a
bind_assoc (err x) f g e = refl
