-- ===== src/Scenarios/Delivery.antt =====
-- A result of three records that comes over two connections, into a capture that keeps a list.
use symnav.Prelude.{
  ◌≡◌, refl, sym, ℕ, ◌+◌, true, false, none, some, List, [], ◌∷◌, ◌++◌, arith, text, text_eq,
  length, ok, ok-injective,
}
use symnav.Daemon.Transfer.{
  DaemonOutputStream, stdout, stderr, DaemonSequencedOutputRecord, DaemonCapturedOutputSummary,
  CompletionSpoolManifest, DaemonOutputCapture, DaemonResultTransferReceiver, receiver, Finished,
}
use symnav.Daemon.Transfer
use symnav.Daemon.Transfer.Resume.{
  Arrival, arrive, receive, IsValid, IsComplete, receive-IsValid, finish-IsComplete,
}
use symnav.Daemon.Transfer.Connections.{Output, records, connection, connections, joined, end_frame}
use symnav.Daemon.Transfer.Capture.{
  CapturePlatform, DaemonClientResultCaptureOptions, DaemonClientResultCapture,
  DaemonStoredExecutorOutput, new_capture, client_capture,
}
use symnav.Daemon.Transfer.Delivered.{resumed_transfer}
use symnav.Daemon.Transfer.Stored.{stored_records}

abbrev Records : Type 0
Records = List DaemonSequencedOutputRecord

abbrev size : Records → ℕ
size [] = 0
size (x ∷ xs) = length x.bytes + size xs

abbrev keep : DaemonSequencedOutputRecord → Records → Records
keep x rs = rs ++ x ∷ []

-- The capture gives the records back; the digest is that of the manifest below.
abbrev list_capture : DaemonOutputCapture Records Records
list_capture = record {
  append = λ x rs. ok (keep x rs);
  finish = λ code rs.
      ok (rs, record { raw_bytes = size rs; record_count = length rs; sha256 = text "d1" });
  dispose = λ rs. [];
}

abbrev three_records : CompletionSpoolManifest
three_records = record {
  summary = record { raw_bytes = 4; record_count = 3; sha256 = text "d1" };
  state_write_failure = none;
  transfer_id = text "t1";
  request_id = text "r1";
  instance_id = text "daemon-1";
  exit_code = 0;
}

abbrev first_part : List Output
first_part = (stdout, 65 ∷ 66 ∷ []) ∷ []

abbrev last_part : List Output
last_part = (stderr, 67 ∷ []) ∷ (stdout, 68 ∷ []) ∷ []

abbrev fresh : DaemonResultTransferReceiver Records
fresh = receiver list_capture (text "r1") []

abbrev arrivals : List Arrival
arrivals =
    connections three_records 0 (first_part ∷ [])
    ++ (connection three_records 1 last_part ++ end_frame three_records ∷ [])

-- A file system that never fails, and a capture with room for two bytes in memory.
abbrev roomy : CapturePlatform
roomy = record {
  make_directory = λ d. ok tt;
  new_path = λ d. d ++ text "/command-output-1.spool";
  open_new = λ p. ok tt;
  write = λ b. ok tt;
  close = ok tt;
  unlink = λ p. ok tt;
  sha256 = λ b. text "d1";
}

abbrev narrow : DaemonClientResultCaptureOptions
narrow = record {
  directory = text "/tmp";
  maximum_chunk_raw_bytes = 2;
  inline_raw_bytes = 2;
  maximum_result_raw_bytes = 4;
}

resumed_transfer_example :
    (r : DaemonResultTransferReceiver DaemonClientResultCapture) × (receive
        (client_capture roomy)
        arrivals
        (receiver (client_capture roomy) (text "r1") (new_capture narrow))
      ≡ ok r)
    × (output : DaemonStoredExecutorOutput) × ((Transfer.finish (client_capture roomy) r).1
        ≡ ok (record { result = (0, output); state_write_failure = none }))
    × (stored_records (λ path. ok r.output.written) output
        ≡ (joined (first_part ∷ []) ++ last_part, ok tt))
resumed_transfer_example =
    resumed_transfer roomy narrow three_records (first_part ∷ []) last_part
      (record { makes = λ d. refl; opens = λ p. refl; writes = λ b. refl; closes = refl })
      (omega arith) (omega arith) refl

appends :
    (x : DaemonSequencedOutputRecord) (o o' : Records)
    → list_capture.append x o ≡ ok o'
    → o' ≡ o ++ x ∷ []
appends x o o' h = sym (ok-injective h)

fresh-IsValid : IsValid list_capture (λ o. o) appends fresh
unfolding receiver
fresh-IsValid = record { numbered = tt; counted = refl; ended = λ h. ground arith }

-- The receiver after all that arrived.
abbrev arrived : DaemonResultTransferReceiver Records
arrived = record {
  request_id = text "r1";
  output = records 0 (first_part ++ last_part);
  expected_manifest = some three_records;
  next_record_offset = 3;
  manifest_received = true;
  terminal_received = true;
  completed = false;
  disposal = false;
}

all_received : receive list_capture arrivals fresh ≡ ok arrived
unfolding receive receiver arrive Transfer.accept_manifest Transfer.begin_connection text_eq
    Transfer.accept_chunk Transfer.manifests_match Transfer.accept_end
all_received = refl

receive-IsValid_example : IsValid list_capture (λ o. o) appends arrived
receive-IsValid_example =
    receive-IsValid list_capture (λ o. o) appends arrivals fresh arrived all_received fresh-IsValid

arrived-IsValid : IsValid list_capture (λ o. o) appends arrived
arrived-IsValid =
    receive-IsValid list_capture (λ o. o) appends arrivals fresh arrived all_received fresh-IsValid

abbrev result : Finished list_capture
result = record { result = records 0 (first_part ++ last_part); state_write_failure = none }

finishes : (Transfer.finish list_capture arrived).1 ≡ ok result
unfolding Transfer.finish text_eq
finishes = refl

finish-IsComplete_example :
    (m : CompletionSpoolManifest) × (s : DaemonCapturedOutputSummary) × IsComplete list_capture
      (λ o. o)
      appends
      arrived
      result
      m
      s
finish-IsComplete_example =
    finish-IsComplete list_capture (λ o. o) appends arrived result arrived-IsValid finishes
