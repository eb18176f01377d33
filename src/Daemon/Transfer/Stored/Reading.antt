-- ===== src/Daemon/Transfer/Stored/Reading.antt =====
-- The records that were encoded into a file are decoded from it.
use symnav.Prelude.{
  ◌≡◌, refl, sym, ap, subst, ◌∙◌, ℕ, zero, suc, ◌+◌, ◌≤◌, List, [], ◌∷◌, ◌++◌, arith, length,
  length-append, drop, take_front, drop_front, drop-plus, All, ok,
}
use symnav.Daemon.Wire.{uint32_bytes, read_uint32}
use symnav.Daemon.Wire.Rounds.{read_uint32-uint32_bytes}
use symnav.Daemon.Transfer.{DaemonOutputStream, stdout, stderr, DaemonSequencedOutputRecord}
use symnav.Daemon.Transfer.Resume.{IsNumbered}
use symnav.Daemon.Transfer.Capture.{DaemonClientResultCaptureOptions, encoded, stream_byte}
use symnav.Daemon.Transfer.Keeping.{encodings, Fits}
use symnav.Daemon.Transfer.Stored.{
  record_header_bytes, stream_of, stream_byte_in, check_encoded, decoded, given, decode_records,
}

-- What stands at the beginning of bytes: the record `x`, and then `more`.
record Begins (bytes : List ℕ) (x : DaemonSequencedOutputRecord) (more : List ℕ) : Type 0 where
  sequence : read_uint32 bytes ≡ x.sequence
  stream : stream_byte_in bytes ≡ stream_byte x.stream
  size : read_uint32 (drop 5 bytes) ≡ length x.bytes
  rest : drop record_header_bytes bytes ≡ x.bytes ++ more
  long : length bytes ≡ record_header_bytes + length (x.bytes ++ more)

encoded-Begins :
    (options : DaemonClientResultCaptureOptions) (x : DaemonSequencedOutputRecord) (more : List ℕ)
    → Fits options x
    → Begins (encoded x ++ more) x more
unfolding encoded uint32_bytes
encoded-Begins options x more h = record {
  sequence =
      read_uint32-uint32_bytes x.sequence
        (stream_byte x.stream ∷ uint32_bytes (length x.bytes) ++ (x.bytes ++ more)) h.2;
  stream = refl;
  size = read_uint32-uint32_bytes (length x.bytes) (x.bytes ++ more) h.1;
  rest = refl;
  long = omega arith;
}

stream_of-stream_byte : (s : DaemonOutputStream) → stream_of (stream_byte s) ≡ s
stream_of-stream_byte stdout = refl
stream_of-stream_byte stderr = refl

stream_byte_bound : (s : DaemonOutputStream) → stream_byte s ≤ 1
stream_byte_bound stdout = omega arith
stream_byte_bound stderr = omega arith

check_encoded-ok :
    (options : DaemonClientResultCaptureOptions) (n : ℕ) (x : DaemonSequencedOutputRecord)
    (bytes more : List ℕ)
    → x.sequence ≡ n
    → Fits options x
    → Begins bytes x more
    → check_encoded options.maximum_chunk_raw_bytes n bytes ≡ ok tt
unfolding check_encoded
check_encoded-ok options n x bytes more e h b = ground (
  arith,
  b.sequence,
  b.stream,
  b.size,
  ap length b.rest,
  b.long,
  length-append x.bytes more,
  stream_byte_bound x.stream,
)

decoded-x :
    (x : DaemonSequencedOutputRecord) (bytes more : List ℕ)
    → Begins bytes x more
    → decoded bytes ≡ x
decoded-x x bytes more b =
    rw
      (
        b.sequence,
        b.stream,
        b.size,
        b.rest,
        stream_of-stream_byte x.stream,
        take_front x.bytes more,
      )
      refl

after_record :
    (x : DaemonSequencedOutputRecord) (bytes more : List ℕ)
    → Begins bytes x more
    → drop (record_header_bytes + read_uint32 (drop 5 bytes)) bytes ≡ more
after_record x bytes more b =
    sym (drop-plus record_header_bytes (read_uint32 (drop 5 bytes)) bytes)
    ∙ rw (b.size, b.rest) (drop_front x.bytes more)

decode_step :
    (rounds maximum n byte : ℕ) (bytes : List ℕ) (x : DaemonSequencedOutputRecord) (more : List ℕ)
    → check_encoded maximum n (byte ∷ bytes) ≡ ok tt
    → decoded (byte ∷ bytes) ≡ x
    → drop (record_header_bytes + read_uint32 (drop 5 (byte ∷ bytes))) (byte ∷ bytes) ≡ more
    → decode_records (suc rounds) maximum n (byte ∷ bytes)
      ≡ given (ok tt) x (decode_records rounds maximum (n + 1) more)
unfolding decode_records
decode_step rounds maximum n byte bytes x more c d e =
    ap
      (λ r. given r (decoded (byte ∷ bytes)) (
        decode_records rounds maximum (n + 1)
          (drop (record_header_bytes + read_uint32 (drop 5 (byte ∷ bytes))) (byte ∷ bytes))))
      c
    ∙ ap
        (λ y. given (ok tt) y (
          decode_records rounds maximum (n + 1)
            (drop (record_header_bytes + read_uint32 (drop 5 (byte ∷ bytes))) (byte ∷ bytes))))
        d
    ∙ ap (λ m. given (ok tt) x (decode_records rounds maximum (n + 1) m)) e

module _ (options : DaemonClientResultCaptureOptions) where
  decode_one :
      (rounds n : ℕ) (bytes : List ℕ) (x : DaemonSequencedOutputRecord) (more : List ℕ)
      → x.sequence ≡ n
      → Fits options x
      → Begins bytes x more
      → decode_records (suc rounds) options.maximum_chunk_raw_bytes n bytes
        ≡ given (ok tt) x (decode_records rounds options.maximum_chunk_raw_bytes (n + 1) more)
  decode_one rounds n [] x more e h b = absurd (omega (arith, b.long))
  decode_one rounds n (byte ∷ bytes) x more e h b =
      decode_step rounds options.maximum_chunk_raw_bytes n byte bytes x more
        (check_encoded-ok options n x (byte ∷ bytes) more e h b) (decoded-x x (byte ∷ bytes) more b)
        (after_record x (byte ∷ bytes) more b)

  pub decode_records-encodings :
      (rounds n : ℕ) (rs : List DaemonSequencedOutputRecord)
      → IsNumbered n rs
      → All (Fits options) rs
      → length (encodings rs) ≤ rounds
      → decode_records rounds options.maximum_chunk_raw_bytes n (encodings rs) ≡ (rs, ok tt)
  decode_records-encodings zero n [] numbered fit enough = unfold decode_records in refl
  decode_records-encodings (suc rounds) n [] numbered fit enough = unfold decode_records in refl
  decode_records-encodings zero n (x ∷ rs) numbered fit enough =
      absurd (omega (arith, enough, (encoded-Begins options x (encodings rs) fit.0).long))
  decode_records-encodings (suc rounds) n (x ∷ rs) numbered fit enough =
      let b = encoded-Begins options x (encodings rs) fit.0 in
      decode_one rounds n (encoded x ++ encodings rs) x (encodings rs) numbered.0 fit.0 b
      ∙ ap (given (ok tt) x) (
          decode_records-encodings rounds (n + 1) rs
            (subst (λ k. IsNumbered k rs) (omega arith) numbered.1) fit.1
            (omega (arith, b.long, length-append x.bytes (encodings rs))))
