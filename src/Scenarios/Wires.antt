-- ===== src/Scenarios/Wires.antt =====
-- Two frames on a connection: that a result is complete, and a chunk of two bytes, which arrive in
-- three pieces.
use symnav.Prelude.{
  ◌≡◌, refl, ℕ, Option, none, some, List, [], ◌∷◌, arith, Text, text, text_eq, ok, ◌==◌,
  if◌then◌else◌,
}
use symnav.Daemon.Request.{Value, string, number, object, Fields, no_fields, field}
use symnav.Daemon.Transfer.{DaemonResultChunk, stdout}
use symnav.Daemon.Wire.{WirePlatform, DaemonWireLimits, response}
use symnav.Daemon.Wire.Chunks.{is_digest, header_of}
use symnav.Daemon.Wire.Decoders.{
  with_kind, with_chunk, control, result_chunk, transfer_decoder, encode_server_message,
}
use symnav.Daemon.Wire.Framing.{feed}
use symnav.Daemon.Wire.Roundtrip.{feed-encode_messages}

abbrev digest : Text
digest = text "aaaaaaaaaaaaaaaaaaaaaaaaaaaaaaaaaaaaaaaaaaaaaaaaaaaaaaaaaaaaaaaa"

abbrev result_end : Fields
result_end = field (text "transferId") (string (text "t1")) no_fields

abbrev chunk : DaemonResultChunk
chunk = record {
  transfer_id = text "t1";
  request_id = text "r1";
  offset = 0;
  sequence = 0;
  stream = stdout;
  bytes = 65 ∷ 66 ∷ [];
}

abbrev header : Fields
header = field (text "transferId") (string (text "t1")) (
    field (text "requestId") (string (text "r1")) (
      field (text "offset") (number 0) (
        field (text "sequence") (number 0) (
          field (text "stream") (string (text "stdout")) (
            field (text "payloadLength") (number 2)
              (field (text "sha256") (string digest) no_fields))))))

-- A platform that writes the two objects in a byte each.
abbrev written : Value → List ℕ
written (object (field key value others)) = if text_eq key (text "kind") then 1 ∷ [] else 2 ∷ []
written _ = 3 ∷ []

abbrev read : List ℕ → Option Value
read [] = none
read (n ∷ rest) =
    if n == 1
    then some (response (text "result-end") result_end)
    else (if n == 2 then some (object header) else none)

abbrev platform : WirePlatform
platform = record { stringify = written; parse = read; sha256 = λ bytes. digest }

abbrev limits : DaemonWireLimits
limits = record {
  maximum_json_payload_bytes = 100;
  maximum_execution_control_payload_bytes = 50;
  maximum_chunk_raw_bytes = 50;
}

abbrev pieces : List (List ℕ)
pieces = (0 ∷ 0 ∷ []) ∷ (0 ∷ 1 ∷ 1 ∷ 128 ∷ 0 ∷ []) ∷ (0 ∷ 7 ∷ 0 ∷ 0 ∷ 0 ∷ 1 ∷ 2 ∷ 65 ∷ 66 ∷ []) ∷ []

feed-encode_messages_example :
    feed (transfer_decoder platform limits) pieces []
    ≡ (ok (control (response (text "result-end") result_end) ∷ result_chunk chunk ∷ []), [])
unfolding encode_server_message header_of is_digest text_eq
feed-encode_messages_example =
    feed-encode_messages platform limits (omega arith) refl (λ bytes. refl)
      (with_kind (text "result-end") result_end ∷ with_chunk chunk ∷ []) pieces (refl, (tt, tt))
      (refl, (refl, tt)) refl
