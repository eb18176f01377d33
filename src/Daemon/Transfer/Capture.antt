-- ===== src/Daemon/Transfer/Capture.antt =====
-- packages/daemon/src/transport/client-result-capture.ts: DaemonClientResultCapture, which keeps the
-- records of a result in memory and, when they become too many, in a file. The file system and SHA-256 are parameters;
-- an error is its message. The bytes of the file are part of the state.
use symnav.Prelude.{
  ℕ, ◌+◌, Bool, true, false, not, ◌&&◌, ◌||◌, Option, none, some, List, [], ◌∷◌, ◌++◌, Text, text,
  ltb, leb, ◌==◌, length, drop, Result, ok, err, ◌>>◌, throw_if, if◌then◌else◌,
}
use symnav.Daemon.Wire.{uint32_bytes}
use symnav.Daemon.Transfer.{
  DaemonOutputStream, stdout, stderr, DaemonSequencedOutputRecord, DaemonCapturedOutputSummary,
  DaemonOutputCapture,
}

-- What the capture calls of Node.
pub record CapturePlatform : Type 0 where
  pub make_directory : Text → Result Text (Unit {0})
  -- `join(directory, name)` with a new name
  pub new_path : Text → Text
  pub open_new : Text → Result Text (Unit {0})
  pub write : List ℕ → Result Text (Unit {0})
  pub close : Result Text (Unit {0})
  -- a file that is not there is no error
  pub unlink : Text → Result Text (Unit {0})
  pub sha256 : List ℕ → Text

pub record DaemonClientResultCaptureOptions : Type 0 where
  pub directory : Text
  pub maximum_chunk_raw_bytes : ℕ
  pub inline_raw_bytes : ℕ
  pub maximum_result_raw_bytes : ℕ

pub record DaemonClientResultCapture : Type 0 where
  pub options : DaemonClientResultCaptureOptions
  -- what the hash was given
  pub hashed : List ℕ
  pub inline_records : List DaemonSequencedOutputRecord
  -- whether the file is open, its path, and its bytes
  pub file : Bool
  pub file_path : Option Text
  pub written : List ℕ
  pub raw_bytes : ℕ
  pub record_count : ℕ
  pub finished : Bool
  pub failure : Option Text

pub record DaemonStoredExecutorOutput : Type 0 where
  pub inline_records : List DaemonSequencedOutputRecord
  pub file_path : Option Text
  pub maximum_record_bytes : ℕ

-- The result, with the code of the exit.
abbrev pub StoredResult : Type 0
StoredResult = ℕ × DaemonStoredExecutorOutput

unfoldable pub new_capture : DaemonClientResultCaptureOptions → DaemonClientResultCapture
new_capture options = record {
  options = options;
  hashed = [];
  inline_records = [];
  file = false;
  file_path = none;
  written = [];
  raw_bytes = 0;
  record_count = 0;
  finished = false;
  failure = none;
}

abbrev pub Outcome : Type 0
Outcome = DaemonClientResultCapture × Result Text (Unit {0})

-- What goes on after a step that did not throw.
abbrev pub then_do : Outcome → (DaemonClientResultCapture → Outcome) → Outcome
then_do (c, err e) next = (c, err e)
then_do (c, ok done) next = next c

abbrev pub stream_byte : DaemonOutputStream → ℕ
stream_byte stdout = 0
stream_byte stderr = 1

unfoldable pub encoded : DaemonSequencedOutputRecord → List ℕ
unfolding uint32_bytes
encoded x =
    uint32_bytes x.sequence ++ (stream_byte x.stream ∷ uint32_bytes (length x.bytes)) ++ x.bytes

-- `writeUInt32BE` throws for a number of more than 32 bits.
unfoldable pub encode_record : DaemonSequencedOutputRecord → Result Text (List ℕ)
unfolding encoded
encode_record x =
    throw_if (leb 4294967296 x.sequence || leb 4294967296 (length x.bytes)) (text "out of range")
    >> ok (encoded x)

-- One write to the open file.
abbrev pub wrote : List ℕ → Result Text (Unit {0}) → DaemonClientResultCapture → Outcome
wrote bytes (err e) c = (c, err e)
wrote bytes (ok done) c = (record c { written = c.written ++ bytes }, ok tt)

abbrev pub write_bytes : CapturePlatform → List ℕ → DaemonClientResultCapture → Outcome
write_bytes platform bytes c = wrote bytes (platform.write bytes) c

abbrev write_encoded : CapturePlatform → Result Text (List ℕ) → DaemonClientResultCapture → Outcome
write_encoded platform (err e) c = (c, err e)
write_encoded platform (ok bytes) c = write_bytes platform bytes c

unfoldable pub write_records :
    CapturePlatform → List DaemonSequencedOutputRecord → DaemonClientResultCapture → Outcome
unfolding encode_record
write_records platform [] c = (c, ok tt)
write_records platform (x ∷ xs) c =
    then_do (write_encoded platform (encode_record x) c) (write_records platform xs)

abbrev pub opened : Text → Result Text (Unit {0}) → DaemonClientResultCapture → Outcome
opened path (err e) c = (record c { file_path = some path }, err e)
opened path (ok done) c = (record c { file_path = some path; file = true; written = [] }, ok tt)

-- What an operation that leaves the capture as it is gives.
abbrev pub unchanged : DaemonClientResultCapture → Result Text (Unit {0}) → Outcome
unchanged c result = (c, result)

unfoldable pub spill_inline_records : CapturePlatform → DaemonClientResultCapture → Outcome
unfolding write_records
spill_inline_records platform c =
    let path = platform.new_path c.options.directory in
    then_do (unchanged c (platform.make_directory c.options.directory)) (λ d.
      then_do (opened path (platform.open_new path) d) (λ o.
        then_do (write_records platform c.inline_records o)
          (λ w. (record w { inline_records = [] }, ok tt))))

abbrev pub counted : List ℕ → DaemonSequencedOutputRecord → DaemonClientResultCapture → Outcome
counted bytes x c = (
  record c {
    hashed = c.hashed ++ drop 4 bytes;
    raw_bytes = c.raw_bytes + length x.bytes;
    record_count = c.record_count + 1;
  },
  ok tt,
)

abbrev pub keep_record :
    CapturePlatform → List ℕ → DaemonSequencedOutputRecord → DaemonClientResultCapture → Outcome
keep_record platform bytes x c =
    if not c.file
    then counted bytes x (record c { inline_records = c.inline_records ++ x ∷ [] })
    else then_do (write_bytes platform bytes c) (counted bytes x)

abbrev pub spills : DaemonSequencedOutputRecord → DaemonClientResultCapture → Bool
spills x c = not c.file && ltb c.options.inline_raw_bytes (c.raw_bytes + length x.bytes)

abbrev store_encoded :
    CapturePlatform
    → Result Text (List ℕ)
    → DaemonSequencedOutputRecord
    → DaemonClientResultCapture
    → Outcome
unfolding spill_inline_records
store_encoded platform (err e) x c = (c, err e)
store_encoded platform (ok bytes) x c =
    then_do (if spills x c then spill_inline_records platform c else (c, ok tt))
      (keep_record platform bytes x)

unfoldable pub store_record :
    CapturePlatform → DaemonSequencedOutputRecord → DaemonClientResultCapture → Outcome
unfolding encode_record spill_inline_records
store_record platform x c = store_encoded platform (encode_record x) x c

unfoldable pub check_record :
    DaemonSequencedOutputRecord → DaemonClientResultCapture → Result Text (Unit {0})
check_record x c = do
  throw_if c.finished (text "Command output is already finished")
  throw_if (not (x.sequence == c.record_count)) (text "Unexpected command output sequence")
  throw_if (ltb c.options.maximum_chunk_raw_bytes (length x.bytes))
      (text "Command output record exceeds chunk capacity")
  throw_if (ltb c.options.maximum_result_raw_bytes (c.raw_bytes + length x.bytes))
      (text "Command output exceeds response capacity")

-- A failure is remembered.
abbrev pub remembered : Outcome → Outcome
remembered (c, err e) = (record c { failure = some e }, err e)
remembered (c, ok done) = (c, ok tt)

unfoldable pub append_record :
    CapturePlatform → DaemonSequencedOutputRecord → DaemonClientResultCapture → Outcome
unfolding check_record store_record
append_record platform x c =
    remembered (then_do (unchanged c (check_record x c)) (store_record platform x))

abbrev stored :
    CapturePlatform → ℕ → DaemonClientResultCapture → StoredResult × DaemonCapturedOutputSummary
stored platform exit_code c = (
  (
    exit_code,
    record {
      inline_records = c.inline_records;
      file_path = c.file_path;
      maximum_record_bytes = c.options.maximum_chunk_raw_bytes;
    },
  ),
  record {
    raw_bytes = c.raw_bytes;
    record_count = c.record_count;
    sha256 = platform.sha256 c.hashed;
  },
)

abbrev pub closed : Result Text (Unit {0}) → DaemonClientResultCapture → Outcome
closed (err e) c = (c, err e)
closed (ok done) c = (record c { file = false }, ok tt)

abbrev pub close_file : CapturePlatform → DaemonClientResultCapture → Outcome
close_file platform c = closed (if c.file then platform.close else ok tt) c

abbrev finish_closed :
    CapturePlatform
    → ℕ
    → Outcome
    → DaemonClientResultCapture × Result Text (StoredResult × DaemonCapturedOutputSummary)
finish_closed platform exit_code (c, err e) = (c, err e)
finish_closed platform exit_code (c, ok done) = (c, ok (stored platform exit_code c))

abbrev finish_unless :
    CapturePlatform
    → ℕ
    → Option Text
    → DaemonClientResultCapture
    → DaemonClientResultCapture × Result Text (StoredResult × DaemonCapturedOutputSummary)
finish_unless platform exit_code (some e) c = (c, err e)
finish_unless platform exit_code none c =
    finish_closed platform exit_code (close_file platform (record c { finished = true }))

unfoldable pub finish_capture :
    CapturePlatform
    → ℕ
    → DaemonClientResultCapture
    → DaemonClientResultCapture × Result Text (StoredResult × DaemonCapturedOutputSummary)
finish_capture platform exit_code c =
    if c.finished
    then (c, err (text "Command output is already finished"))
    else finish_unless platform exit_code c.failure c

abbrev remove_file : CapturePlatform → Option Text → DaemonClientResultCapture → Outcome
remove_file platform none c = (c, ok tt)
remove_file platform (some path) c =
    then_do (unchanged c (platform.unlink path))
      (λ d. (record d { file_path = none; written = [] }, ok tt))

unfoldable pub dispose_capture : CapturePlatform → DaemonClientResultCapture → Outcome
dispose_capture platform c = then_do (close_file platform c) (remove_file platform c.file_path)

abbrev taken : Outcome → Result Text DaemonClientResultCapture
taken (c, err e) = err e
taken (c, ok done) = ok c

-- The capture as the receiver calls it. The receiver takes nothing after an error.
abbrev pub client_capture :
    CapturePlatform → DaemonOutputCapture DaemonClientResultCapture StoredResult
client_capture platform = record {
  append = λ x c. taken (append_record platform x c);
  finish = λ exit_code c. (finish_capture platform exit_code c).1;
  dispose = λ c. (dispose_capture platform c).0;
}
