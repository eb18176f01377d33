-- ===== src/Daemon/Wire/Encoded.antt =====
-- What the codec encodes is a frame that the decoder takes.
use symnav.Prelude.{
  ◌≡◌, refl, sym, ap, ◌∙◌, ℕ, suc, ◌+◌, ◌%◌, ◌≤◌, ◌<◌, true, false, none, some, List, [], ◌∷◌, ◌++◌,
  arith, ltb, leb, length, length-append, ok, >>=-eq-ok, throw_if-eq-ok, ok-injective,
}
use symnav.Daemon.Request.{object}
use symnav.Daemon.Transfer.{DaemonResultChunk}
use symnav.Daemon.Wire.{WirePlatform, DaemonWireLimits, uint32_bytes, write_uint32}
use symnav.Daemon.Wire.Chunks.{assert_chunk, header_of, header_bytes, encode_chunk, is_digest}
use symnav.Daemon.Wire.Decoders.{result_chunk, transfer_decoder, decode_transfer}
use symnav.Daemon.Wire.Rounds.{IsEncoded}
use symnav.Daemon.Wire.Payloads.{
  write_uint32-eq-ok, chunk_of-header_of, payload_of, decode_chunk-payload_of,
}

module _ (platform : WirePlatform) (limits : DaemonWireLimits) where
  pub assert_chunk-bound :
      (chunk : DaemonResultChunk)
      → assert_chunk chunk limits.maximum_chunk_raw_bytes ≡ ok tt
      → length chunk.bytes ≤ limits.maximum_chunk_raw_bytes
  unfolding assert_chunk
  assert_chunk-bound chunk asserted = ground arith

  pub header_filled :
      (chunk : DaemonResultChunk)
      → platform.parse [] ≡ none
      → platform.parse (header_bytes platform chunk) ≡ some (object (header_of platform chunk))
      → (size : ℕ) × (length (header_bytes platform chunk) ≡ suc size)
  header_filled chunk nothing restored = of_bytes (header_bytes platform chunk) restored
    where
      of_bytes :
          (bytes : List ℕ)
          → platform.parse bytes ≡ some (object (header_of platform chunk))
          → (size : ℕ) × (length bytes ≡ suc size)
      of_bytes [] h = cc
      of_bytes (x ∷ bytes) h = (length bytes, refl)

  pub encode_chunk-IsEncoded :
      (chunk : DaemonResultChunk) (bytes : List ℕ)
      → limits.maximum_execution_control_payload_bytes + limits.maximum_chunk_raw_bytes < 2147483648
      → platform.parse [] ≡ none
      → platform.parse (header_bytes platform chunk) ≡ some (object (header_of platform chunk))
      → is_digest (platform.sha256 chunk.bytes) ≡ true
      → encode_chunk platform limits chunk ≡ ok bytes
      → IsEncoded (transfer_decoder platform limits) (bytes, result_chunk chunk)
  unfolding encode_chunk transfer_decoder decode_transfer
  encode_chunk-IsEncoded chunk bytes room nothing restored digest encoded =
      let (u, asserted, after_assertion) =
        >>=-eq-ok (assert_chunk chunk limits.maximum_chunk_raw_bytes) _ encoded in
      let (fits, after_fit) =
        throw_if-eq-ok
          (ltb limits.maximum_execution_control_payload_bytes
            (4 + length (header_bytes platform chunk)))
          _ _ after_assertion in
      let (prefix, written, e) =
        >>=-eq-ok (write_uint32 (length (header_bytes platform chunk))) _ after_fit in
      let (e_prefix, small) =
        write_uint32-eq-ok (length (header_bytes platform chunk)) prefix written in
      let (size, measured) = header_filled chunk nothing restored in
      of_size size measured small
        (at_most (4 + length (header_bytes platform chunk))
          limits.maximum_execution_control_payload_bytes fits)
        asserted
        (sym (ok-injective e)
          ∙ ap
              (λ p.
                uint32_bytes (number_before chunk)
                ++ (p ++ (header_bytes platform chunk ++ chunk.bytes)))
              e_prefix)
    where
      at_most : (a b : ℕ) → ltb b a ≡ false → a ≤ b
      at_most a b h = ground arith

      number_before : DaemonResultChunk → ℕ
      number_before chunk =
          2147483648 + (4 + length (header_bytes platform chunk) + length chunk.bytes) % 2147483648

      length-payload :
          length (payload_of platform limits chunk)
          ≡ 4 + length (header_bytes platform chunk) + length chunk.bytes
      length-payload =
          unfold uint32_bytes in
          omega (arith, length-append (header_bytes platform chunk) chunk.bytes)

      of_size :
          (size : ℕ)
          → length (header_bytes platform chunk) ≡ suc size
          → length (header_bytes platform chunk) < 4294967296
          → 4 + length (header_bytes platform chunk)
            ≤ limits.maximum_execution_control_payload_bytes
          → assert_chunk chunk limits.maximum_chunk_raw_bytes ≡ ok tt
          → bytes ≡ uint32_bytes (number_before chunk) ++ payload_of platform limits chunk
          → IsEncoded (transfer_decoder platform limits) (bytes, result_chunk chunk)
      of_size size measured small fits asserted e = (
        number_before chunk,
        payload_of platform limits chunk,
        e,
        omega arith,
        omega (arith, length-payload, bound),
        rw binary (omega (arith, length-payload, bound)),
        rw
            (
              binary,
              decode_chunk-payload_of platform limits chunk size measured (omega (arith, measured))
                  (omega (arith, measured)) restored
                  (chunk_of-header_of platform limits chunk asserted (omega arith) digest),
            )
            refl,
      )
        where
          bound : length chunk.bytes ≤ limits.maximum_chunk_raw_bytes
          bound = assert_chunk-bound chunk asserted

          binary : leb 2147483648 (number_before chunk) ≡ true
          binary =
              flagged ((4 + length (header_bytes platform chunk) + length chunk.bytes) % 2147483648)
            where
              flagged : (k : ℕ) → leb 2147483648 (2147483648 + k) ≡ true
              flagged k = ground arith
