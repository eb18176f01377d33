-- ===== src/Daemon/Wire.antt =====
-- packages/daemon/src/transport/wire-codec.ts: the frames between the daemon and its clients. A frame
-- is a length in four bytes, and the payload; the first bit of the length marks a chunk of a result.
-- JSON in UTF-8 and SHA-256 are the platform's.
pub mod Chunks
pub mod Decoders
pub mod Rounds
pub mod Framing
pub mod Payloads
pub mod Encoded
pub mod Roundtrip
use symnav.Prelude.{
  ◌≡◌, ℕ, zero, suc, ◌+◌, ◌*◌, ◌/◌, ◌%◌, ◌^◌, Bool, true, false, not, ◌&&◌, ◌||◌, Option, List, [],
  ◌∷◌, ◌++◌, Text, text, text_eq, ltb, leb, length, Result, ok, err, ◌>>=◌, ◌>>◌, throw_if,
  if◌then◌else◌,
}
use symnav.Daemon.Request.{Value, string, object, Fields, field}

-- `JSON.stringify` and `JSON.parse` with the bytes of UTF-8, and the digest in hexadecimal digits.
pub record WirePlatform : Type 0 where
  pub stringify : Value → List ℕ
  pub parse : List ℕ → Option Value
  pub sha256 : List ℕ → Text

pub record DaemonWireLimits : Type 0 where
  pub maximum_json_payload_bytes : ℕ
  pub maximum_execution_control_payload_bytes : ℕ
  pub maximum_chunk_raw_bytes : ℕ

pub data WireError : Type 0 where
  frame_exceeds : ℕ → WireError
  result_frame_exceeds malformed_json malformed_control truncated_frame truncated_transfer :
      WireError
  invalid_chunk truncated_header invalid_header_length malformed_header invalid_header
        corrupt_payload :
      WireError
  -- of `writeUInt32BE`
  out_of_range : ℕ → WireError

abbrev pub frame_prefix_bytes : ℕ
frame_prefix_bytes = 4

abbrev pub binary_header_length_bytes : ℕ
binary_header_length_bytes = 4

-- `0x80000000`
abbrev pub binary_frame_flag : ℕ
binary_frame_flag = 2147483648

-- The four bytes of a number, the highest first.
unfoldable pub uint32_bytes : ℕ → List ℕ
uint32_bytes n = n / 16777216 % 256 ∷ n / 65536 % 256 ∷ n / 256 % 256 ∷ n % 256 ∷ []

unfoldable pub write_uint32 : ℕ → Result WireError (List ℕ)
unfolding uint32_bytes
write_uint32 n = throw_if (leb 4294967296 n) (out_of_range n) >> ok (uint32_bytes n)

-- `readUInt32BE(0)` of at least four bytes.
unfoldable pub read_uint32 : List ℕ → ℕ
read_uint32 (a ∷ b ∷ c ∷ d ∷ rest) = ((a * 256 + b) * 256 + c) * 256 + d
read_uint32 _ = 0

unfoldable pub encode_json : WirePlatform → Value → ℕ → Result WireError (List ℕ)
unfolding write_uint32
encode_json platform value maximum =
    throw_if (ltb maximum (length (platform.stringify value))) (frame_exceeds maximum)
    >> (write_uint32 (length (platform.stringify value)) >>= λ prefix.
        ok (prefix ++ platform.stringify value))

unfoldable pub encode_control : WirePlatform → DaemonWireLimits → Value → Result WireError (List ℕ)
unfolding encode_json
encode_control platform limits value = encode_json platform value limits.maximum_json_payload_bytes

unfoldable pub is_execution_control : Text → Bool
is_execution_control kind =
    text_eq kind (text "accepted")
    || text_eq kind (text "rejected")
    || text_eq kind (text "result-manifest")
    || text_eq kind (text "result-end")
    || text_eq kind (text "execution-failed")
    || text_eq kind (text "execution-status")
    || text_eq kind (text "result-acknowledged")

-- A message with a kind, and its other fields.
abbrev pub response : Text → Fields → Value
response kind fields = object (field (text "kind") (string kind) fields)

unfoldable pub encode_response :
    WirePlatform → DaemonWireLimits → Text → Fields → Result WireError (List ℕ)
unfolding encode_json is_execution_control
encode_response platform limits kind fields = encode_json platform (response kind fields) (
    if is_execution_control kind
    then limits.maximum_execution_control_payload_bytes
    else limits.maximum_json_payload_bytes)
