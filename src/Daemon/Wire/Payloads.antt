-- ===== src/Daemon/Wire/Payloads.antt =====
-- The payloads of chunks are decoded.
use symnav.Prelude.{
  ◌≡◌, refl, sym, ap, subst, ◌∙◌, ℕ, suc, ◌+◌, ◌-◌, ◌≤◌, ◌<◌, true, false, ◌||◌, some, List, ◌++◌,
  arith, Text, text, text_eq, text_eq_refl, ltb, leb, ◌==◌, length, length-append, take, drop,
  take_front, drop_front, ok, >>=-eq-ok, throw_if-eq-ok, ok-injective, if◌then◌else◌,
}
use symnav.Daemon.Request.{Value, object, Fields}
use symnav.Daemon.Transfer.{DaemonResultChunk, DaemonOutputStream, stdout, stderr}
use symnav.Daemon.Wire.{
  WirePlatform, DaemonWireLimits, uint32_bytes, write_uint32, read_uint32, encode_json,
  is_execution_control, response, encode_response,
}
use symnav.Daemon.Wire.Chunks.{
  assert_chunk, header_of, header_bytes, is_digest, is_header, chunk_of, decode_chunk, stream_text,
}
use symnav.Daemon.Wire.Decoders.{control, transfer_decoder, decode_transfer}
use symnav.Daemon.Wire.Rounds.{read_uint32-uint32_bytes, IsEncoded}

pub not_below : (a b : ℕ) → b ≤ a → ltb a b ≡ false
not_below a b h = ground arith

pub unequal : (n : ℕ) → (suc n == 0) ≡ false
unequal n = ground arith

pub write_uint32-eq-ok :
    (n : ℕ) (bytes : List ℕ)
    → write_uint32 n ≡ ok bytes
    → (bytes ≡ uint32_bytes n) × (n < 4294967296)
unfolding write_uint32
write_uint32-eq-ok n bytes written =
    let (low, e) = throw_if-eq-ok (leb 4294967296 n) _ _ written in
    (sym (ok-injective e), ground arith)

module _ (platform : WirePlatform) (limits : DaemonWireLimits) where
  pub encode_json-eq-ok :
      (value : Value) (maximum : ℕ) (bytes : List ℕ)
      → encode_json platform value maximum ≡ ok bytes
      → (bytes ≡ uint32_bytes (length (platform.stringify value)) ++ platform.stringify value)
        × (length (platform.stringify value) < 4294967296)
        × (length (platform.stringify value) ≤ maximum)
  unfolding encode_json
  encode_json-eq-ok value maximum bytes encoded =
      let (fits, later) =
        throw_if-eq-ok (ltb maximum (length (platform.stringify value))) _ _ encoded in
      let (prefix, written, e) =
        >>=-eq-ok (write_uint32 (length (platform.stringify value))) _ later in
      let (e_prefix, small) =
        write_uint32-eq-ok (length (platform.stringify value)) prefix written in
      (
        sym (ok-injective e) ∙ ap (λ front. front ++ platform.stringify value) e_prefix,
        small,
        ground arith,
      )

  pub encode_response-IsEncoded :
      (kind : Text) (fields : Fields) (bytes : List ℕ)
      → limits.maximum_execution_control_payload_bytes < 2147483648
      → is_execution_control kind ≡ true
      → platform.parse (platform.stringify (response kind fields)) ≡ some (response kind fields)
      → encode_response platform limits kind fields ≡ ok bytes
      → IsEncoded (transfer_decoder platform limits) (bytes, control (response kind fields))
  unfolding encode_response transfer_decoder decode_transfer
  encode_response-IsEncoded kind others bytes small execution restored encoded =
      let (e, prefixed, fits) = encode_json-eq-ok (response kind others) _ bytes encoded in
      of_size (length (platform.stringify (response kind others))) refl e (
        subst
          (λ b. length (platform.stringify (response kind others)) ≤ (
            if b
            then limits.maximum_execution_control_payload_bytes
            else limits.maximum_json_payload_bytes))
          execution fits)
    where
      of_size :
          (n : ℕ)
          → length (platform.stringify (response kind others)) ≡ n
          → bytes
            ≡ uint32_bytes (length (platform.stringify (response kind others)))
              ++ platform.stringify (response kind others)
          → length (platform.stringify (response kind others))
            ≤ limits.maximum_execution_control_payload_bytes
          → IsEncoded (transfer_decoder platform limits) (bytes, control (response kind others))
      of_size n size e fits = (
        n,
        platform.stringify (response kind others),
        e ∙ ap (λ k. uint32_bytes k ++ platform.stringify (response kind others)) size,
        omega arith,
        omega arith,
        rw not_binary (omega arith),
        rw (not_binary, restored) refl,
      )
        where
          not_binary : leb 2147483648 n ≡ false
          not_binary = ground arith

  pub is_header-header_of :
      (chunk : DaemonResultChunk)
      → assert_chunk chunk limits.maximum_chunk_raw_bytes ≡ ok tt
      → limits.maximum_chunk_raw_bytes < 2147483648
      → is_digest (platform.sha256 chunk.bytes) ≡ true
      → is_header (header_of platform chunk) limits.maximum_chunk_raw_bytes ≡ true
  unfolding is_header header_of assert_chunk
  is_header-header_of chunk asserted small digest = rw (stream_known chunk.stream) (ground arith)
    where
      stream_known :
          (stream : DaemonOutputStream)
          → (text_eq (stream_text stream) (text "stdout")
              || text_eq (stream_text stream) (text "stderr"))
            ≡ true
      stream_known stdout = unfold text_eq in refl
      stream_known stderr = unfold text_eq in refl

  pub chunk_of-header_of :
      (chunk : DaemonResultChunk)
      → assert_chunk chunk limits.maximum_chunk_raw_bytes ≡ ok tt
      → limits.maximum_chunk_raw_bytes < 2147483648
      → is_digest (platform.sha256 chunk.bytes) ≡ true
      → chunk_of platform limits (header_of platform chunk) chunk.bytes ≡ ok chunk
  unfolding chunk_of header_of
  chunk_of-header_of chunk asserted small digest =
      rw
        (
          same_length (length chunk.bytes),
          text_eq_refl (platform.sha256 chunk.bytes),
          is_header-header_of chunk asserted small digest,
          asserted,
        )
        (ap (λ stream. ok (record chunk { stream = stream })) (stream_back chunk.stream))
    where
      stream_back :
          (stream : DaemonOutputStream)
          → (if text_eq (stream_text stream) (text "stdout") then stdout else stderr) ≡ stream
      stream_back stdout = unfold text_eq in refl
      stream_back stderr = unfold text_eq in refl

      same_length : (n : ℕ) → (n == n) ≡ true
      same_length n = ground arith

  -- The payload of a chunk: the length of the header, the header and the bytes.
  abbrev pub payload_of : DaemonResultChunk → List ℕ
  payload_of chunk =
      uint32_bytes (length (header_bytes platform chunk))
      ++ (header_bytes platform chunk ++ chunk.bytes)

  pub decode_chunk-payload_of :
      (chunk : DaemonResultChunk) (size : ℕ)
      → length (header_bytes platform chunk) ≡ suc size
      → suc size < 4294967296
      → 4 + suc size ≤ limits.maximum_execution_control_payload_bytes
      → platform.parse (header_bytes platform chunk) ≡ some (object (header_of platform chunk))
      → chunk_of platform limits (header_of platform chunk) chunk.bytes ≡ ok chunk
      → decode_chunk platform limits (payload_of chunk) ≡ ok chunk
  unfolding decode_chunk
  decode_chunk-payload_of chunk size measured small fits restored found =
      rw (decode_chunk, long_enough, read, filled, inside, allowed, taken, restored, dropped, found)
        refl
    where
      payload : List ℕ
      payload = payload_of chunk

      size_of : length payload ≡ 4 + (suc size + length chunk.bytes)
      size_of =
          unfold uint32_bytes in
          omega (arith, measured, length-append (header_bytes platform chunk) chunk.bytes)

      long_enough : ltb (length payload) 4 ≡ false
      long_enough = not_below (length payload) 4 (omega (arith, size_of))

      read : read_uint32 payload ≡ suc size
      read =
          read_uint32-uint32_bytes (length (header_bytes platform chunk))
            (header_bytes platform chunk ++ chunk.bytes) (omega (arith, measured))
          ∙ measured

      filled : (suc size == 0) ≡ false
      filled = unequal size

      inside : ltb (length payload - 4) (suc size) ≡ false
      inside = not_below (length payload - 4) (suc size) (omega (arith, size_of))

      allowed : ltb limits.maximum_execution_control_payload_bytes (4 + suc size) ≡ false
      allowed = not_below limits.maximum_execution_control_payload_bytes (4 + suc size) fits

      taken : take (suc size) (drop 4 payload) ≡ header_bytes platform chunk
      taken =
          ap (λ k. take k (drop 4 payload)) (sym measured)
          ∙ (unfold uint32_bytes in take_front (header_bytes platform chunk) chunk.bytes)

      dropped : drop (4 + suc size) payload ≡ chunk.bytes
      dropped =
          ap (λ k. drop k payload) (four_plus (suc size))
          ∙ (unfold uint32_bytes in
              ap (λ k. drop k (header_bytes platform chunk ++ chunk.bytes)) (sym measured)
              ∙ drop_front (header_bytes platform chunk) chunk.bytes)
        where
          four_plus : (k : ℕ) → 4 + k ≡ suc (suc (suc (suc k)))
          four_plus k = omega arith
