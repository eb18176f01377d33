-- ===== src/Daemon/Wire/Chunks.antt =====
-- `DaemonResultChunkCodec`: a chunk of a result with its header, which is JSON before the raw bytes.
use symnav.Prelude.{
  ℕ, ◌+◌, ◌-◌, ◌%◌, Bool, true, false, not, ◌&&◌, ◌||◌, Option, none, some, List, [], ◌∷◌, ◌++◌,
  Text, text, text_eq, sort_by, text_lt, every, ltb, leb, ◌==◌, length, take, drop, Result, ok, err,
  ◌>>=◌, ◌>>◌, throw_if, if◌then◌else◌,
}
use symnav.Daemon.Request.{Value, string, number, object, Fields, field, no_fields}
use symnav.Daemon.Policy.Codec.{max_safe_integer, keys_of, same_texts, property}
use symnav.Daemon.Transfer.{DaemonResultChunk, DaemonOutputStream, stdout, stderr}
use symnav.Daemon.Wire.{
  WirePlatform, DaemonWireLimits, WireError, invalid_chunk, result_frame_exceeds, truncated_header,
  invalid_header_length, malformed_header, invalid_header, corrupt_payload,
  binary_header_length_bytes, binary_frame_flag, uint32_bytes, write_uint32, read_uint32,
}

abbrev pub is_empty : Text → Bool
is_empty [] = true
is_empty (c ∷ cs) = false

-- The kinds of the fields are those of the types; `isSafeInteger` leaves the bound.
unfoldable pub assert_chunk : DaemonResultChunk → ℕ → Result WireError (Unit {0})
assert_chunk chunk maximum =
    throw_if
      (is_empty chunk.transfer_id
        || is_empty chunk.request_id
        || ltb max_safe_integer chunk.offset
        || ltb max_safe_integer chunk.sequence
        || ltb maximum (length chunk.bytes))
      invalid_chunk

abbrev pub stream_text : DaemonOutputStream → Text
stream_text stdout = text "stdout"
stream_text stderr = text "stderr"

-- The header, as the object that is written.
unfoldable pub header_of : WirePlatform → DaemonResultChunk → Fields
header_of platform chunk = field (text "transferId") (string chunk.transfer_id) (
    field (text "requestId") (string chunk.request_id) (
      field (text "offset") (number chunk.offset) (
        field (text "sequence") (number chunk.sequence) (
          field (text "stream") (string (stream_text chunk.stream)) (
            field (text "payloadLength") (number (length chunk.bytes))
              (field (text "sha256") (string (platform.sha256 chunk.bytes)) no_fields))))))

abbrev pub header_bytes : WirePlatform → DaemonResultChunk → List ℕ
header_bytes platform chunk = platform.stringify (object (header_of platform chunk))

unfoldable pub encode_chunk :
    WirePlatform → DaemonWireLimits → DaemonResultChunk → Result WireError (List ℕ)
unfolding assert_chunk header_of write_uint32 uint32_bytes
encode_chunk platform limits chunk = do
  assert_chunk chunk limits.maximum_chunk_raw_bytes
  throw_if
      (ltb limits.maximum_execution_control_payload_bytes
        (binary_header_length_bytes + length (header_bytes platform chunk)))
      result_frame_exceeds
  header_length ← write_uint32 (length (header_bytes platform chunk))
  ok (
      uint32_bytes (
        binary_frame_flag
        + (binary_header_length_bytes + length (header_bytes platform chunk) + length chunk.bytes)
          % binary_frame_flag)
      ++ (header_length ++ (header_bytes platform chunk ++ chunk.bytes)))

unfoldable pub has_exact_keys : Fields → List Text → Bool
unfolding same_texts sort_by text_lt
has_exact_keys fields keys = same_texts (sort_by text_lt (keys_of fields)) (sort_by text_lt keys)

abbrev pub header_keys : List Text
header_keys =
    text "offset"
    ∷ text "payloadLength"
    ∷ text "requestId"
    ∷ text "sequence"
    ∷ text "sha256"
    ∷ text "stream"
    ∷ text "transferId"
    ∷ []

abbrev pub text_of : Value → Text
text_of (string s) = s
text_of _ = []

abbrev pub number_of : Value → ℕ
number_of (number n) = n
number_of _ = 0

abbrev pub is_filled : Value → Bool
is_filled (string s) = not (is_empty s)
is_filled _ = false

abbrev pub is_safe : Value → Bool
is_safe (number n) = leb n max_safe_integer
is_safe _ = false

abbrev pub is_stream : Value → Bool
is_stream (string s) = text_eq s (text "stdout") || text_eq s (text "stderr")
is_stream _ = false

abbrev pub stream_of : Value → DaemonOutputStream
stream_of (string s) = if text_eq s (text "stdout") then stdout else stderr
stream_of _ = stdout

-- `/^[a-f\d]{64}$/`
abbrev pub is_hexadecimal : ℕ → Bool
is_hexadecimal c = (leb 48 c && leb c 57) || (leb 97 c && leb c 102)

unfoldable pub is_digest : Text → Bool
is_digest s = length s == 64 && every is_hexadecimal s

abbrev pub is_digest_value : Value → Bool
is_digest_value (string s) = is_digest s
is_digest_value _ = false

unfoldable pub is_header : Fields → ℕ → Bool
unfolding has_exact_keys property is_digest text_eq
is_header header maximum =
    has_exact_keys header header_keys
    && is_filled (property (text "transferId") header)
    && is_filled (property (text "requestId") header)
    && is_safe (property (text "offset") header)
    && is_safe (property (text "sequence") header)
    && is_stream (property (text "stream") header)
    && is_safe (property (text "payloadLength") header)
    && leb (number_of (property (text "payloadLength") header)) maximum
    && is_digest_value (property (text "sha256") header)

-- The chunk of a header and the bytes behind it.
unfoldable pub chunk_of :
    WirePlatform → DaemonWireLimits → Fields → List ℕ → Result WireError DaemonResultChunk
unfolding is_header property assert_chunk text_eq
chunk_of platform limits header bytes = do
  throw_if
      (not (is_header header limits.maximum_chunk_raw_bytes)
        || not (number_of (property (text "payloadLength") header) == length bytes))
      invalid_header
  throw_if (not (text_eq (platform.sha256 bytes) (text_of (property (text "sha256") header))))
      corrupt_payload
  assert_chunk
      (record {
        transfer_id = text_of (property (text "transferId") header);
        request_id = text_of (property (text "requestId") header);
        offset = number_of (property (text "offset") header);
        sequence = number_of (property (text "sequence") header);
        stream = stream_of (property (text "stream") header);
        bytes = bytes;
      })
      limits.maximum_chunk_raw_bytes
  ok (record {
    transfer_id = text_of (property (text "transferId") header);
    request_id = text_of (property (text "requestId") header);
    offset = number_of (property (text "offset") header);
    sequence = number_of (property (text "sequence") header);
    stream = stream_of (property (text "stream") header);
    bytes = bytes;
  })

abbrev pub parsed_header : Option Value → Result WireError Fields
parsed_header none = err malformed_header
parsed_header (some (object fields)) = ok fields
parsed_header (some _) = err invalid_header

unfoldable pub decode_chunk :
    WirePlatform → DaemonWireLimits → List ℕ → Result WireError DaemonResultChunk
unfolding read_uint32 chunk_of
decode_chunk platform limits payload = do
  throw_if (ltb (length payload) binary_header_length_bytes) truncated_header
  throw_if
      (read_uint32 payload == 0
        || ltb (length payload - binary_header_length_bytes) (read_uint32 payload))
      invalid_header_length
  throw_if
      (ltb limits.maximum_execution_control_payload_bytes
        (binary_header_length_bytes + read_uint32 payload))
      result_frame_exceeds
  header ←
      parsed_header
        (platform.parse (take (read_uint32 payload) (drop binary_header_length_bytes payload)))
  chunk_of platform limits header (drop (binary_header_length_bytes + read_uint32 payload) payload)
