-- ===== src/Daemon/Wire/Roundtrip.antt =====
-- What the codec encodes, its decoder gives back.
use symnav.Prelude.{
  ◌≡◌, refl, sym, ap, ◌∙◌, ℕ, ◌+◌, ◌<◌, true, none, some, List, [], ◌∷◌, ◌++◌, map, arith, All,
  Result, ok, ◌>>=◌, >>=-eq-ok, ok-injective,
}
use symnav.Daemon.Request.{object}
use symnav.Daemon.Wire.{WirePlatform, DaemonWireLimits, WireError, is_execution_control, response}
use symnav.Daemon.Wire.Chunks.{header_of, header_bytes, is_digest}
use symnav.Daemon.Wire.Decoders.{
  Frame, control, result_chunk, DaemonServerMessage, with_kind, with_chunk, encode_server_message,
  transfer_decoder,
}
use symnav.Daemon.Wire.Rounds.{IsEncoded, bytes_of, frames_in}
use symnav.Daemon.Wire.Framing.{feed, joined, feed-frames_in}
use symnav.Daemon.Wire.Payloads.{encode_response-IsEncoded}
use symnav.Daemon.Wire.Encoded.{encode_chunk-IsEncoded}

module _ (platform : WirePlatform) (limits : DaemonWireLimits) where
  abbrev pub frame_of : DaemonServerMessage → Frame
  frame_of (with_kind kind others) = control (response kind others)
  frame_of (with_chunk chunk) = result_chunk chunk

  -- A message of a transfer: one of the control of an execution, or a chunk.
  abbrev pub IsTransfer : DaemonServerMessage → Type 0
  IsTransfer (with_kind kind others) = is_execution_control kind ≡ true
  IsTransfer (with_chunk chunk) = Unit

  -- `JSON.parse` gives back the object of the message, or of the header of its chunk.
  abbrev pub IsRestored : DaemonServerMessage → Type 0
  IsRestored (with_kind kind others) =
      platform.parse (platform.stringify (response kind others)) ≡ some (response kind others)
  IsRestored (with_chunk chunk) =
      platform.parse (header_bytes platform chunk) ≡ some (object (header_of platform chunk))

  -- The frames of the messages, one after the other.
  abbrev pub encode_messages : List DaemonServerMessage → Result WireError (List ℕ)
  encode_messages [] = ok []
  encode_messages (message ∷ messages) = encode_server_message platform limits message >>= λ frame.
      encode_messages messages >>= λ frames. ok (frame ++ frames)

  module _
      (room : limits.maximum_execution_control_payload_bytes + limits.maximum_chunk_raw_bytes
        < 2147483648)
      (nothing : platform.parse [] ≡ none)
      (digest : (bytes : List ℕ) → is_digest (platform.sha256 bytes) ≡ true) where
    encode_server_message-IsEncoded :
        (message : DaemonServerMessage) (bytes : List ℕ)
        → IsTransfer message
        → IsRestored message
        → encode_server_message platform limits message ≡ ok bytes
        → IsEncoded (transfer_decoder platform limits) (bytes, frame_of message)
    unfolding encode_server_message
    encode_server_message-IsEncoded (with_kind kind others) bytes transfer restored encoded =
        encode_response-IsEncoded platform limits kind others bytes (omega arith) transfer restored
          encoded
    encode_server_message-IsEncoded (with_chunk chunk) bytes transfer restored encoded =
        encode_chunk-IsEncoded platform limits chunk bytes room nothing restored
          (digest chunk.bytes) encoded

    abbrev Encodes : List DaemonServerMessage → List ℕ → Type 0
    Encodes messages bytes =
        (todo : List (List ℕ × Frame)) × All (IsEncoded (transfer_decoder platform limits)) todo
        × (bytes ≡ bytes_of (transfer_decoder platform limits) todo)
        × (frames_in (transfer_decoder platform limits) todo ≡ map frame_of messages)

    encode_messages-Encodes :
        (messages : List DaemonServerMessage) (bytes : List ℕ)
        → All IsTransfer messages
        → All IsRestored messages
        → encode_messages messages ≡ ok bytes
        → Encodes messages bytes
    encode_messages-Encodes [] bytes transfers restored encoded =
        ([], tt, sym (ok-injective encoded), refl)
    encode_messages-Encodes (message ∷ messages) bytes transfers restored encoded =
        let (frame, first, after) =
          >>=-eq-ok (encode_server_message platform limits message) _ encoded in
        let (frames, later, e) = >>=-eq-ok (encode_messages messages) _ after in
        let (todo, all_encoded, e_frames, e_todo) =
          encode_messages-Encodes messages frames transfers.1 restored.1 later in
        (
          (frame, frame_of message) ∷ todo,
          (encode_server_message-IsEncoded message frame transfers.0 restored.0 first, all_encoded),
          sym (ok-injective e) ∙ ap (λ b. frame ++ b) e_frames,
          ap (λ l. frame_of message ∷ l) e_todo,
        )

    -- The frames that the codec encodes, for messages of the control of an execution and for chunks, within limits that leave room for
    -- the flag, come out of the decoder of transfers in their order, with nothing left, however their
    -- bytes are cut into pieces, if JSON gives back what was written, the empty text is no JSON, and digests have their form.
    pub feed-encode_messages :
        (messages : List DaemonServerMessage) (pieces : List (List ℕ))
        → All IsTransfer messages
        → All IsRestored messages
        → encode_messages messages ≡ ok (joined pieces)
        → feed (transfer_decoder platform limits) pieces [] ≡ (ok (map frame_of messages), [])
    feed-encode_messages messages pieces transfers restored encoded =
        let (todo, all_encoded, e_bytes, e_frames) =
          encode_messages-Encodes messages (joined pieces) transfers restored encoded in
        feed-frames_in (transfer_decoder platform limits) pieces todo all_encoded e_bytes
        ∙ ap (λ frames. (ok frames, [])) e_frames
