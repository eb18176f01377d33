-- ===== src/Daemon/Transfer.antt =====
-- packages/daemon/src/transport/result-transfer-receiver.ts: the client's side of the transfer of a
-- result, which may go on over a new connection from the record where the last one broke off. The
-- capture of the output is an interface; `acceptChunk` is taken from its call to the end of its
-- wait for the capture, as its caller runs it.
pub mod Resume
pub mod Connections
pub mod Sessions
pub mod Capture
pub mod Keeping
pub mod Captured
pub mod Stored
pub mod Delivered
use symnav.Prelude.{
  ◌≡◌, ℕ, ◌+◌, Bool, true, false, not, ◌&&◌, ◌||◌, Option, none, some, List, [], ◌∷◌, ◌++◌, Text,
  text_eq, Result, ok, err, ◌>>=◌, ◌>>◌, throw_if, is_some, if◌then◌else◌, ◌==◌,
}
use symnav.Daemon.Failures.{DaemonStateWriteFailure}

pub data DaemonOutputStream : Type 0 where
  stdout stderr : DaemonOutputStream

pub record DaemonSequencedOutputRecord : Type 0 where
  pub sequence : ℕ
  pub stream : DaemonOutputStream
  pub bytes : List ℕ

pub record DaemonCapturedOutputSummary : Type 0 where
  pub raw_bytes : ℕ
  pub record_count : ℕ
  pub sha256 : Text

pub record CompletionSpoolManifest : Type 0 where
  pub summary : DaemonCapturedOutputSummary
  pub state_write_failure : Option DaemonStateWriteFailure
  pub transfer_id : Text
  pub request_id : Text
  pub instance_id : Text
  pub exit_code : ℕ

pub record ResultManifestFrame : Type 0 where
  pub instance_id : Text
  pub request_id : Text
  pub manifest : CompletionSpoolManifest

pub record DaemonResultChunk : Type 0 where
  pub transfer_id : Text
  pub request_id : Text
  pub offset : ℕ
  pub sequence : ℕ
  pub stream : DaemonOutputStream
  pub bytes : List ℕ

pub record ResultEndFrame : Type 0 where
  pub instance_id : Text
  pub request_id : Text
  pub transfer_id : Text
  pub summary : DaemonCapturedOutputSummary

-- `DaemonOutputCapture`: a state `O`, and what it gives of a finished result.
pub record DaemonOutputCapture (O R : Type 0) : Type 0 where
  pub append : DaemonSequencedOutputRecord → O → Result Text O
  pub finish : ℕ → O → Result Text (R × DaemonCapturedOutputSummary)
  pub dispose : O → O

pub record DaemonResultTransferReceiver (O : Type 0) : Type 0 where
  pub request_id : Text
  pub output : O
  pub expected_manifest : Option CompletionSpoolManifest
  pub next_record_offset : ℕ
  pub manifest_received : Bool
  pub terminal_received : Bool
  pub completed : Bool
  -- whether `disposal` is set
  pub disposal : Bool

pub data TransferError : Type 0 where
  duplicate_manifest different_manifest invalid_coordinates invalid_chunk : TransferError
  end_mismatch incomplete failed_digest : TransferError
  capture_failed : Text → TransferError

abbrev optional_eq : Option Text → Option Text → Bool
optional_eq none none = true
optional_eq (some a) (some b) = text_eq a b
optional_eq _ _ = false

-- `failure?.path` and `failure?.osCode`
abbrev path_of : Option DaemonStateWriteFailure → Option Text
path_of none = none
path_of (some f) = some f.path

abbrev os_code_of : Option DaemonStateWriteFailure → Option Text
os_code_of none = none
os_code_of (some f) = f.os_code

unfoldable pub summaries_match : DaemonCapturedOutputSummary → DaemonCapturedOutputSummary → Bool
summaries_match actual expected =
    actual.raw_bytes == expected.raw_bytes
    && (actual.record_count == expected.record_count && text_eq actual.sha256 expected.sha256)

unfoldable pub manifests_match : CompletionSpoolManifest → CompletionSpoolManifest → Bool
unfolding summaries_match
manifests_match expected actual =
    text_eq actual.transfer_id expected.transfer_id
    && (text_eq actual.request_id expected.request_id
        && (text_eq actual.instance_id expected.instance_id
            && (actual.exit_code == expected.exit_code
                && (optional_eq (path_of actual.state_write_failure)
                      (path_of expected.state_write_failure)
                    && (optional_eq (os_code_of actual.state_write_failure)
                          (os_code_of expected.state_write_failure)
                        && summaries_match actual.summary expected.summary)))))

abbrev differs : Option CompletionSpoolManifest → CompletionSpoolManifest → Bool
differs none manifest = false
differs (some expected) manifest = not (manifests_match expected manifest)

-- `expected ??= manifest`
abbrev or_else : Option CompletionSpoolManifest → CompletionSpoolManifest → CompletionSpoolManifest
or_else none manifest = manifest
or_else (some expected) manifest = expected

module _ {O R : Type 0} (capture : DaemonOutputCapture O R) where
  unfoldable pub receiver : Text → O → DaemonResultTransferReceiver O
  receiver request_id output = record {
    request_id = request_id;
    output = output;
    expected_manifest = none;
    next_record_offset = 0;
    manifest_received = false;
    terminal_received = false;
    completed = false;
    disposal = false;
  }

  unfoldable pub begin_connection : DaemonResultTransferReceiver O → DaemonResultTransferReceiver O
  begin_connection r = record r { manifest_received = false; terminal_received = false }

  unfoldable pub accept_manifest :
      ResultManifestFrame
      → DaemonResultTransferReceiver O
      → Result TransferError (DaemonResultTransferReceiver O)
  accept_manifest frame r = do
    throw_if (r.manifest_received || r.terminal_received) duplicate_manifest
    throw_if (differs r.expected_manifest frame.manifest) different_manifest
    throw_if
        (not (text_eq frame.request_id r.request_id)
          || (not (text_eq frame.manifest.request_id r.request_id)
              || not (text_eq frame.manifest.instance_id frame.instance_id)))
        invalid_coordinates
    ok (record r {
      expected_manifest = some (or_else r.expected_manifest frame.manifest);
      manifest_received = true;
    })

  chunk_invalid :
      Option CompletionSpoolManifest → DaemonResultChunk → DaemonResultTransferReceiver O → Bool
  chunk_invalid none chunk r = true
  chunk_invalid (some manifest) chunk r =
      not r.manifest_received
      || (r.terminal_received
          || (not (text_eq chunk.request_id r.request_id)
              || (not (text_eq chunk.transfer_id manifest.transfer_id)
                  || (not (chunk.offset == r.next_record_offset)
                      || not (chunk.sequence == r.next_record_offset)))))

  from_capture {ℓ} : {A : Type ℓ} → Result Text A → Result TransferError A
  from_capture (ok a) = ok a
  from_capture (err e) = err (capture_failed e)

  unfoldable pub accept_chunk :
      DaemonResultChunk
      → DaemonResultTransferReceiver O
      → Result TransferError (DaemonResultTransferReceiver O)
  unfolding chunk_invalid from_capture
  accept_chunk chunk r = do
    throw_if (chunk_invalid r.expected_manifest chunk r) invalid_chunk
    output ← from_capture (
        capture.append
          (record { sequence = chunk.sequence; stream = chunk.stream; bytes = chunk.bytes })
          r.output)
    ok (record r { output = output; next_record_offset = r.next_record_offset + 1 })

  end_mismatches :
      Option CompletionSpoolManifest → ResultEndFrame → DaemonResultTransferReceiver O → Bool
  unfolding summaries_match
  end_mismatches none frame r = true
  end_mismatches (some manifest) frame r =
      not r.manifest_received
      || (r.terminal_received
          || (not (text_eq frame.instance_id manifest.instance_id)
              || (not (text_eq frame.request_id r.request_id)
                  || (not (text_eq frame.transfer_id manifest.transfer_id)
                      || (not (summaries_match frame.summary manifest.summary)
                          || not (r.next_record_offset == manifest.summary.record_count))))))

  unfoldable pub accept_end :
      ResultEndFrame
      → DaemonResultTransferReceiver O
      → Result TransferError (DaemonResultTransferReceiver O)
  unfolding end_mismatches
  accept_end frame r = do
    throw_if (end_mismatches r.expected_manifest frame r) end_mismatch
    ok (record r { terminal_received = true })

  unfoldable pub dispose : DaemonResultTransferReceiver O → DaemonResultTransferReceiver O
  dispose r =
      if r.completed || r.disposal
      then r
      else record r { output = capture.dispose r.output; disposal = true }

  -- What `finish` gives: the result with the failure that its manifest reports.
  pub record Finished : Type 0 where
    pub result : R
    pub state_write_failure : Option DaemonStateWriteFailure

  -- After the wait for the capture: a wrong digest disposes of the result, and every error of the
  -- output.
  finish_with :
      Option CompletionSpoolManifest
      → DaemonResultTransferReceiver O
      → DaemonResultTransferReceiver O × Result TransferError Finished
  unfolding dispose summaries_match
  finish_with none r = (r, err incomplete)
  finish_with (some manifest) r = elim (capture.finish manifest.exit_code r.output) [
    | err e ↦ (dispose r, err (capture_failed e))
    | ok (result, summary) ↦
        if summaries_match summary manifest.summary
        then (
          record r { completed = true },
          ok (record { result = result; state_write_failure = manifest.state_write_failure }),
        )
        else (record r { disposal = true }, err failed_digest)
  ]

  unfoldable pub finish :
      DaemonResultTransferReceiver O
      → DaemonResultTransferReceiver O × Result TransferError Finished
  unfolding finish_with
  finish r =
      if not r.terminal_received then (r, err incomplete) else finish_with r.expected_manifest r
