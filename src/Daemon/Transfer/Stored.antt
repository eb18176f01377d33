-- ===== src/Daemon/Transfer/Stored.antt =====
-- packages/daemon/src/transport/client-result-capture.ts: DaemonStoredExecutorOutput, which gives the
-- records of a stored result, from memory or decoded from its file. What is read of a path is a parameter.
pub mod Reading
use symnav.Prelude.{
  ◌≡◌, ℕ, zero, suc, ◌+◌, Bool, true, false, not, ◌||◌, Option, none, some, List, [], ◌∷◌, map,
  Text, text, ltb, ◌==◌, length, take, drop, Result, ok, err, ◌>>=◌, ◌>>◌, throw_if, if◌then◌else◌,
}
use symnav.Daemon.Wire.{read_uint32}
use symnav.Daemon.Transfer.{DaemonOutputStream, stdout, stderr, DaemonSequencedOutputRecord}
use symnav.Daemon.Transfer.Capture.{DaemonStoredExecutorOutput}

-- What a generator gives: the records so far, and then its end or its error.
abbrev pub Given : Type 0
Given = List DaemonSequencedOutputRecord × Result Text (Unit {0})

abbrev pub record_header_bytes : ℕ
record_header_bytes = 9

abbrev pub stream_of : ℕ → DaemonOutputStream
stream_of byte = if byte == 0 then stdout else stderr

-- `readUInt8(4)`
abbrev pub stream_byte_in : List ℕ → ℕ
stream_byte_in (a ∷ b ∷ c ∷ d ∷ byte ∷ rest) = byte
stream_byte_in _ = 0

unfoldable pub check_encoded : ℕ → ℕ → List ℕ → Result Text (Unit {0})
unfolding read_uint32
check_encoded maximum expected bytes = do
  throw_if (ltb (length bytes) record_header_bytes) (text "Truncated command output")
  throw_if
      (not (read_uint32 bytes == expected)
        || (ltb 1 (stream_byte_in bytes) || ltb maximum (read_uint32 (drop 5 bytes))))
      (text "Corrupt command output")
  throw_if (ltb (length (drop record_header_bytes bytes)) (read_uint32 (drop 5 bytes)))
      (text "Truncated command output")

abbrev pub decoded : List ℕ → DaemonSequencedOutputRecord
decoded bytes = record {
  sequence = read_uint32 bytes;
  stream = stream_of (stream_byte_in bytes);
  bytes = take (read_uint32 (drop 5 bytes)) (drop record_header_bytes bytes);
}

abbrev pub given : Result Text (Unit {0}) → DaemonSequencedOutputRecord → Given → Given
given (err e) x later = ([], err e)
given (ok checked) x (xs, end) = (x ∷ xs, end)

-- The loop over the bytes from the position on. Each round takes nine bytes or more, so that as many
-- rounds as there are bytes are enough.
unfoldable pub decode_records : ℕ → ℕ → ℕ → List ℕ → Given
unfolding check_encoded read_uint32
decode_records zero maximum expected bytes = ([], ok tt)
decode_records (suc rounds) maximum expected [] = ([], ok tt)
decode_records (suc rounds) maximum expected (byte ∷ bytes) =
    let later =
      decode_records rounds maximum (expected + 1)
        (drop (record_header_bytes + read_uint32 (drop 5 (byte ∷ bytes))) (byte ∷ bytes)) in
    given (check_encoded maximum expected (byte ∷ bytes)) (decoded (byte ∷ bytes)) later

abbrev pub decoded_file : ℕ → Result Text (List ℕ) → Given
decoded_file maximum (err e) = ([], err e)
decoded_file maximum (ok bytes) = decode_records (length bytes) maximum 0 bytes

abbrev pub records_from :
    (Text → Result Text (List ℕ)) → DaemonStoredExecutorOutput → Option Text → Given
records_from read_file output none = (output.inline_records, ok tt)
records_from read_file output (some path) =
    decoded_file output.maximum_record_bytes (read_file path)

abbrev pub without_sequence : DaemonSequencedOutputRecord → DaemonOutputStream × List ℕ
without_sequence x = (x.stream, x.bytes)

abbrev pub without_sequences : Given → List (DaemonOutputStream × List ℕ) × Result Text (Unit {0})
without_sequences (xs, end) = (map without_sequence xs, end)

-- `records`, for a reading of files.
unfoldable pub stored_records :
    (Text → Result Text (List ℕ))
    → DaemonStoredExecutorOutput
    → List (DaemonOutputStream × List ℕ) × Result Text (Unit {0})
stored_records read_file output = without_sequences (records_from read_file output output.file_path)
