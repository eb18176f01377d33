-- ===== src/Daemon/Transfer/Delivered.antt =====
-- A result that is transferred over connections that break off, up to the stored result.
use symnav.Prelude.{
  Text, Option, ◌≡◌, refl, sym, ap, subst, ◌∙◌, ◌⊎◌, inl, inr, ℕ, suc, ◌+◌, ◌≤◌, true, none, some,
  List, [], ◌∷◌, ◌++◌, arith, text_eq_refl, length, length-append, map, is_some, All, ok,
}
use symnav.Daemon.Transfer.{
  DaemonSequencedOutputRecord, DaemonCapturedOutputSummary, CompletionSpoolManifest,
  DaemonOutputCapture, DaemonResultTransferReceiver, receiver, summaries_match, finish,
}
use symnav.Daemon.Transfer.Resume.{IsNumbered, receive}
use symnav.Daemon.Transfer.Sessions.{transferred}
use symnav.Daemon.Transfer.Connections.{
  Output, records, connection, connections, total, joined, end_frame, length-joined,
}
use symnav.Daemon.Transfer.Capture.{
  CapturePlatform, DaemonClientResultCaptureOptions, DaemonClientResultCapture,
  DaemonStoredExecutorOutput, new_capture, finish_capture, client_capture,
}
use symnav.Daemon.Transfer.Captured.{client-IsCapture}
use symnav.Daemon.Transfer.Keeping.{HasRoom, bytes_of, encodings, digested, Fits, Keeps, IsInPlace}
use symnav.Daemon.Transfer.Stored.{
  records_from, without_sequence, without_sequences, decode_records, stored_records,
}
use symnav.Daemon.Transfer.Stored.Reading.{decode_records-encodings}

records-IsNumbered : (n : ℕ) (os : List Output) → IsNumbered n (records n os)
records-IsNumbered n [] = tt
records-IsNumbered n ((s, b) ∷ os) = (refl, records-IsNumbered (suc n) os)

length-records : (n : ℕ) (os : List Output) → length (records n os) ≡ length os
length-records n [] = refl
length-records n ((s, b) ∷ os) = ap suc (length-records (suc n) os)

-- The summary of records.
abbrev pub summary_of :
    CapturePlatform → List DaemonSequencedOutputRecord → DaemonCapturedOutputSummary
summary_of platform rs = record {
  raw_bytes = bytes_of rs;
  record_count = length rs;
  sha256 = platform.sha256 (digested rs);
}

-- The stored output has the records: in memory, or in the file of its path, of which `written` are the bytes.
abbrev pub Stores : List DaemonSequencedOutputRecord → List ℕ → DaemonStoredExecutorOutput → Type 0
Stores rs written output =
    ((output.inline_records ≡ rs) × (output.file_path ≡ none))
    ⊎ ((output.inline_records ≡ []) × (written ≡ encodings rs) × (is_some output.file_path ≡ true))

summaries_match_refl : (s : DaemonCapturedOutputSummary) → summaries_match s s ≡ true
unfolding summaries_match
summaries_match_refl s = ground (arith, text_eq_refl s.sha256)

-- A receiver whose transfer ended, and whose capture gives a result with the summary of the manifest, finishes.
finish-ok :
    {O R : Type 0} (capture : DaemonOutputCapture O R) (r : DaemonResultTransferReceiver O)
    (m : CompletionSpoolManifest) (result : R) (s : DaemonCapturedOutputSummary)
    → r.terminal_received ≡ true
    → r.expected_manifest ≡ some m
    → capture.finish m.exit_code r.output ≡ ok (result, s)
    → summaries_match s m.summary ≡ true
    → (finish capture r).1
      ≡ ok (record { result = result; state_write_failure = m.state_write_failure })
unfolding finish
finish-ok capture r m result s ended expects gives same = ground arith

finish-Stores :
    (platform : CapturePlatform) (options : DaemonClientResultCaptureOptions)
    (rs : List DaemonSequencedOutputRecord) (c : DaemonClientResultCapture) (exit_code : ℕ)
    → HasRoom platform
    → Keeps options rs c
    → (output : DaemonStoredExecutorOutput) × (output.maximum_record_bytes
        ≡ options.maximum_chunk_raw_bytes)
      × ((client_capture platform).finish exit_code c
          ≡ ok ((exit_code, output), summary_of platform rs))
      × Stores rs c.written output
finish-Stores platform options rs c exit_code room k =
    (output, ap (λ o. o.maximum_chunk_raw_bytes) k.own, gives k.place, stores k.place)
  where
    output : DaemonStoredExecutorOutput
    output = record {
      inline_records = c.inline_records;
      file_path = c.file_path;
      maximum_record_bytes = c.options.maximum_chunk_raw_bytes;
    }

    same_summary :
        record {
          raw_bytes = c.raw_bytes;
          record_count = c.record_count;
          sha256 = platform.sha256 c.hashed;
        }
        ≡ summary_of platform rs
    same_summary = rw (k.size, k.number, k.digest) refl

    gives :
        IsInPlace rs c
        → (client_capture platform).finish exit_code c
          ≡ ok ((exit_code, output), summary_of platform rs)
    gives (inl (is_closed, held, no_path)) =
        unfold finish_capture in
        rw (k.going, k.sound, is_closed) (ap (λ s. ok ((exit_code, output), s)) same_summary)
    gives (inr (is_open, none_held, bytes, path)) =
        unfold finish_capture in
        rw (k.going, k.sound, is_open, room.closes)
          (ap (λ s. ok ((exit_code, output), s)) same_summary)

    stores : IsInPlace rs c → Stores rs c.written output
    stores (inl (is_closed, held, no_path)) = inl (held, no_path)
    stores (inr (is_open, none_held, bytes, path)) = inr (none_held, bytes, path)

fresh-Keeps : (options : DaemonClientResultCaptureOptions) → Keeps options [] (new_capture options)
unfolding new_capture
fresh-Keeps options = record {
  own = refl;
  going = refl;
  sound = refl;
  number = refl;
  size = refl;
  digest = refl;
  place = inl (refl, refl, refl);
}

map-records : (n : ℕ) (os : List Output) → map without_sequence (records n os) ≡ os
map-records n [] = refl
map-records n ((s, b) ∷ os) = ap (λ os. (s, b) ∷ os) (map-records (suc n) os)

-- What is stored is read again, from memory or from the bytes that were written.
stored_records-Stores :
    (options : DaemonClientResultCaptureOptions) (rs : List DaemonSequencedOutputRecord)
    (written : List ℕ) (output : DaemonStoredExecutorOutput)
    → Stores rs written output
    → output.maximum_record_bytes ≡ options.maximum_chunk_raw_bytes
    → IsNumbered 0 rs
    → All (Fits options) rs
    → stored_records (λ path. ok written) output ≡ (map without_sequence rs, ok tt)
unfolding stored_records
stored_records-Stores options rs written output (inl (held, no_path)) capacity numbered fit =
    rw (no_path, held) refl
stored_records-Stores options rs written output (inr (none_held, bytes, path)) capacity numbered
      fit =
    from_path output.file_path path
  where
    from_path :
        (o : Option Text)
        → is_some o ≡ true
        → without_sequences (records_from (λ path. ok written) output o)
          ≡ (map without_sequence rs, ok tt)
    from_path none h = absurd (ground arith)
    from_path (some p) h = ap without_sequences (
        ap (λ maximum. decode_records (length written) maximum 0 written) capacity
        ∙ ap (λ w. decode_records (length w) options.maximum_chunk_raw_bytes 0 w) bytes
        ∙ decode_records-encodings options (length (encodings rs)) 0 rs numbered fit (omega arith))

-- On a file system with room, a result of which `parts` come over connections that break off, and `rest`
-- over the last one with the end, is received without an error by the client's own capture, when its
-- records fit the policy and the manifest has their summary. Then `finish` gives the exit code and the
-- failure of the manifest with a stored output; and the records that are read of it, from memory or from the bytes
-- that were written to its file, are those of the result, every one once and in order, without an error.
pub resumed_transfer :
    (platform : CapturePlatform) (options : DaemonClientResultCaptureOptions)
    (m : CompletionSpoolManifest) (parts : List (List Output)) (rest : List Output)
    → HasRoom platform
    → All (Fits options) (records 0 (joined parts ++ rest))
    → bytes_of (records 0 (joined parts ++ rest)) ≤ options.maximum_result_raw_bytes
    → m.summary ≡ summary_of platform (records 0 (joined parts ++ rest))
    → (r : DaemonResultTransferReceiver DaemonClientResultCapture) × (receive
          (client_capture platform)
          (connections m 0 parts ++ (connection m (total parts) rest ++ end_frame m ∷ []))
          (receiver (client_capture platform) m.request_id (new_capture options))
        ≡ ok r)
      × (output : DaemonStoredExecutorOutput) × ((finish (client_capture platform) r).1
          ≡ ok (record {
            result = (m.exit_code, output);
            state_write_failure = m.state_write_failure;
          }))
      × (stored_records (λ path. ok r.output.written) output ≡ (joined parts ++ rest, ok tt))
resumed_transfer platform options m parts rest room fit small summary =
    let rs = records 0 (joined parts ++ rest) in
    let (r, p, keeps, ended, expects) =
      transferred (client_capture platform) (Keeps options) _
        (client-IsCapture platform room options) m parts rest (new_capture options)
        (ap (λ s. s.record_count) summary
          ∙ length-records 0 (joined parts ++ rest)
          ∙ length-append (joined parts) rest
          ∙ ap (λ n. n + length rest) (length-joined parts))
        (fresh-Keeps options) (records-IsNumbered 0 (joined parts ++ rest), fit, small) in
    let (output, capacity, gives, stores) =
      finish-Stores platform options rs r.output m.exit_code room keeps in
    (
      r,
      p,
      output,
      finish-ok (client_capture platform) r m (m.exit_code, output) (summary_of platform rs) ended
          expects gives
          (subst (λ s. summaries_match (summary_of platform rs) s ≡ true) (sym summary)
            (summaries_match_refl (summary_of platform rs))),
      stored_records-Stores options rs r.output.written output stores capacity
            (records-IsNumbered 0 (joined parts ++ rest)) fit
          ∙ ap (λ os. (os, ok tt)) (map-records 0 (joined parts ++ rest)),
    )
