-- ===== src/Daemon/Wire/Decoders.antt =====
-- The decoders of a connection: bytes arrive in pieces, and whole frames are taken off the front of
-- what is buffered.
use symnav.Prelude.{
  ℕ, zero, suc, ◌+◌, ◌%◌, Bool, true, false, not, Option, none, some, List, [], ◌∷◌, ◌++◌, Text,
  ltb, leb, ◌==◌, length, take, drop, Result, ok, err, ◌>>=◌, throw_if, if◌then◌else◌,
}
use symnav.Daemon.Request.{Value, Fields}
use symnav.Daemon.Transfer.{DaemonResultChunk}
use symnav.Daemon.Wire.{
  WirePlatform, DaemonWireLimits, WireError, frame_exceeds, result_frame_exceeds, malformed_json,
  malformed_control, frame_prefix_bytes, binary_frame_flag, read_uint32, encode_response,
}
use symnav.Daemon.Wire.Chunks.{encode_chunk, decode_chunk}

pub data Frame : Type 0 where
  control : Value → Frame
  result_chunk : DaemonResultChunk → Frame

-- A message of the server: one with a kind and its other fields, or a chunk of a result.
pub data DaemonServerMessage : Type 0 where
  with_kind : Text → Fields → DaemonServerMessage
  with_chunk : DaemonResultChunk → DaemonServerMessage

unfoldable pub encode_server_message :
    WirePlatform → DaemonWireLimits → DaemonServerMessage → Result WireError (List ℕ)
unfolding encode_response encode_chunk
encode_server_message platform limits (with_kind kind fields) =
    encode_response platform limits kind fields
encode_server_message platform limits (with_chunk chunk) = encode_chunk platform limits chunk

-- What the two decoders do differently with the number in front of a frame: the length of the payload, the
-- length that is allowed, the error of one that is too long, and the frame of a payload.
pub record FrameFormat : Type 0 where
  pub payload_length : ℕ → ℕ
  pub maximum_payload_bytes : ℕ → ℕ
  pub too_large : WireError
  pub decode : ℕ → List ℕ → Result WireError Frame

abbrev pub before :
    Frame → Result WireError (List Frame) × List ℕ → Result WireError (List Frame) × List ℕ
before frame (ok frames, buffered) = (ok (frame ∷ frames), buffered)
before frame (err e, buffered) = (err e, buffered)

-- The `while` of `append`, which takes four bytes or more in each round; beside the frames, what stays
-- buffered.
unfoldable pub frames_of : FrameFormat → ℕ → List ℕ → Result WireError (List Frame) × List ℕ
unfolding read_uint32
frames_of decoder zero buffered = (ok [], buffered)
frames_of decoder (suc rounds) buffered =
    let size = decoder.payload_length (read_uint32 buffered) in
    elim (ltb (length buffered) frame_prefix_bytes) [
      | true ↦ (ok [], buffered)
      | false ↦ elim (ltb (decoder.maximum_payload_bytes (read_uint32 buffered)) size) [
        | true ↦ (err decoder.too_large, buffered)
        | false ↦ elim (ltb (length buffered) (size + frame_prefix_bytes)) [
          | true ↦ (ok [], buffered)
          | false ↦
              elim (decoder.decode (read_uint32 buffered)
                (take size (drop frame_prefix_bytes buffered))) [
                  | err e ↦ (err e, drop (size + frame_prefix_bytes) buffered)
                  | ok frame ↦
                      before frame
                        (frames_of decoder rounds (drop (size + frame_prefix_bytes) buffered))
                ]
        ]
      ]
    ]

unfoldable pub append : FrameFormat → List ℕ → List ℕ → Result WireError (List Frame) × List ℕ
unfolding frames_of
append decoder bytes buffered = frames_of decoder (length (buffered ++ bytes)) (buffered ++ bytes)

abbrev pub parsed : WireError → Option Value → Result WireError Frame
parsed error none = err error
parsed error (some value) = ok (control value)

unfoldable pub control_decoder : WirePlatform → DaemonWireLimits → FrameFormat
control_decoder platform limits = record {
  payload_length = λ n. n;
  maximum_payload_bytes = λ n. limits.maximum_json_payload_bytes;
  too_large = frame_exceeds limits.maximum_json_payload_bytes;
  decode = λ n payload. parsed malformed_json (platform.parse payload);
}

-- `(encodedLength & BINARY_FRAME_FLAG) !== 0`
abbrev pub is_binary : ℕ → Bool
is_binary n = leb binary_frame_flag n

unfoldable pub decode_transfer :
    WirePlatform → DaemonWireLimits → ℕ → List ℕ → Result WireError Frame
unfolding decode_chunk
decode_transfer platform limits n payload =
    if is_binary n
    then (decode_chunk platform limits payload >>= λ chunk. ok (result_chunk chunk))
    else parsed malformed_control (platform.parse payload)

unfoldable pub transfer_decoder : WirePlatform → DaemonWireLimits → FrameFormat
unfolding decode_transfer
transfer_decoder platform limits = record {
  payload_length = λ n. n % binary_frame_flag;
  maximum_payload_bytes = λ n.
      if is_binary n
      then limits.maximum_execution_control_payload_bytes + limits.maximum_chunk_raw_bytes
      else limits.maximum_execution_control_payload_bytes;
  too_large = result_frame_exceeds;
  decode = decode_transfer platform limits;
}

unfoldable pub assert_complete : WireError → List ℕ → Result WireError (Unit {0})
assert_complete error buffered = throw_if (not (length buffered == 0)) error
