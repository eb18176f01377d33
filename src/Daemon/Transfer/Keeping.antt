-- ===== src/Daemon/Transfer/Keeping.antt =====
-- What a capture of the client keeps of the records that it took, and which records it takes.
use mathlib.Core.List.{append_assoc, append-nil}
use symnav.Prelude.{
  ◌≡◌, refl, sym, ap, ◌∙◌, ◌⊎◌, ℕ, suc, ◌+◌, ◌≤◌, ◌<◌, Bool, true, false, none, List, [], ◌∷◌, ◌++◌,
  arith, Text, leb, is_some, length, drop, All, ok,
}
use symnav.Daemon.Transfer.{DaemonSequencedOutputRecord}
use symnav.Daemon.Transfer.Resume.{IsNumbered}
use symnav.Daemon.Transfer.Capture.{
  CapturePlatform, DaemonClientResultCaptureOptions, DaemonClientResultCapture, encoded,
  encode_record, check_record,
}

-- The file system has room: its calls do what they are documented to do.
pub record HasRoom (platform : CapturePlatform) : Type 0 where
  pub makes : (directory : Text) → platform.make_directory directory ≡ ok tt
  pub opens : (path : Text) → platform.open_new path ≡ ok tt
  pub writes : (bytes : List ℕ) → platform.write bytes ≡ ok tt
  pub closes : platform.close ≡ ok tt

abbrev pub bytes_of : List DaemonSequencedOutputRecord → ℕ
bytes_of [] = 0
bytes_of (x ∷ xs) = length x.bytes + bytes_of xs

abbrev pub encodings : List DaemonSequencedOutputRecord → List ℕ
encodings [] = []
encodings (x ∷ xs) = encoded x ++ encodings xs

-- What the hash is given of the records.
abbrev pub digested : List DaemonSequencedOutputRecord → List ℕ
digested [] = []
digested (x ∷ xs) = drop 4 (encoded x) ++ digested xs

-- What a record has to be: not above the size of a chunk, and its numbers of at most 32 bits.
abbrev pub Fits : DaemonClientResultCaptureOptions → DaemonSequencedOutputRecord → Type 0
Fits options x =
    (length x.bytes ≤ options.maximum_chunk_raw_bytes)
    × (length x.bytes < 4294967296)
    × (x.sequence < 4294967296)

-- What the records have to be: numbered from 0, fitting, and not above the size of a result.
abbrev pub IsAllowed : DaemonClientResultCaptureOptions → List DaemonSequencedOutputRecord → Type 0
IsAllowed options rs =
    IsNumbered 0 rs × All (Fits options) rs × (bytes_of rs ≤ options.maximum_result_raw_bytes)

-- Where the records are: in memory, or encoded in the file.
abbrev pub IsInPlace : List DaemonSequencedOutputRecord → DaemonClientResultCapture → Type 0
IsInPlace rs c =
    ((c.file ≡ false) × (c.inline_records ≡ rs) × (c.file_path ≡ none))
    ⊎ ((c.file ≡ true)
        × (c.inline_records ≡ [])
        × (c.written ≡ encodings rs)
        × (is_some c.file_path ≡ true))

pub record Keeps (options : DaemonClientResultCaptureOptions)
    (rs : List DaemonSequencedOutputRecord) (c : DaemonClientResultCapture) : Type 0 where
  pub own : c.options ≡ options
  pub going : c.finished ≡ false
  pub sound : c.failure ≡ none
  pub number : c.record_count ≡ length rs
  pub size : c.raw_bytes ≡ bytes_of rs
  pub digest : c.hashed ≡ digested rs
  pub place : IsInPlace rs c

pub IsNumbered-last :
    (n : ℕ) (rs : List DaemonSequencedOutputRecord) (x : DaemonSequencedOutputRecord)
    → IsNumbered n (rs ++ x ∷ [])
    → x.sequence ≡ n + length rs
IsNumbered-last n [] x h = omega (arith, h.0)
IsNumbered-last n (r ∷ rs) x h = omega (arith, IsNumbered-last (suc n) rs x h.1)

pub IsNumbered-front :
    (n : ℕ) (rs xs : List DaemonSequencedOutputRecord) → IsNumbered n (rs ++ xs) → IsNumbered n rs
IsNumbered-front n [] xs h = tt
IsNumbered-front n (r ∷ rs) xs h = (h.0, IsNumbered-front (suc n) rs xs h.1)

pub bytes_of-append :
    (rs xs : List DaemonSequencedOutputRecord) → bytes_of (rs ++ xs) ≡ bytes_of rs + bytes_of xs
bytes_of-append [] xs = omega arith
bytes_of-append (r ∷ rs) xs = omega (arith, bytes_of-append rs xs)

pub encodings-append :
    (rs : List DaemonSequencedOutputRecord) (x : DaemonSequencedOutputRecord)
    → encodings (rs ++ x ∷ []) ≡ encodings rs ++ encoded x
encodings-append [] x = append-nil (encoded x)
encodings-append (r ∷ rs) x =
    ap (λ l. encoded r ++ l) (encodings-append rs x)
    ∙ sym (append_assoc (encoded r) (encodings rs) (encoded x))

pub digested-append :
    (rs : List DaemonSequencedOutputRecord) (x : DaemonSequencedOutputRecord)
    → digested (rs ++ x ∷ []) ≡ digested rs ++ drop 4 (encoded x)
digested-append [] x = append-nil (drop 4 (encoded x))
digested-append (r ∷ rs) x =
    ap (λ l. drop 4 (encoded r) ++ l) (digested-append rs x)
    ∙ sym (append_assoc (drop 4 (encoded r)) (digested rs) (drop 4 (encoded x)))

module _ (P : DaemonSequencedOutputRecord → Type 0) where
  pub All-front : (rs xs : List DaemonSequencedOutputRecord) → All P (rs ++ xs) → All P rs
  All-front [] xs h = tt
  All-front (r ∷ rs) xs h = (h.0, All-front rs xs h.1)

  pub All-last :
      (rs : List DaemonSequencedOutputRecord) (x : DaemonSequencedOutputRecord)
      → All P (rs ++ x ∷ [])
      → P x
  All-last [] x h = h.0
  All-last (r ∷ rs) x h = All-last rs x h.1

pub IsAllowed-front :
    (options : DaemonClientResultCaptureOptions) (rs xs : List DaemonSequencedOutputRecord)
    → IsAllowed options (rs ++ xs)
    → IsAllowed options rs
IsAllowed-front options rs xs h = (
  IsNumbered-front 0 rs xs h.0,
  All-front (Fits options) rs xs h.1,
  omega (arith, h.2, bytes_of-append rs xs),
)

pub encode_record-encoded :
    (options : DaemonClientResultCaptureOptions) (x : DaemonSequencedOutputRecord)
    → Fits options x
    → encode_record x ≡ ok (encoded x)
encode_record-encoded options x h =
    small (leb 4294967296 x.sequence) (leb 4294967296 (length x.bytes)) refl refl
  where
    small :
        (a b : Bool)
        → leb 4294967296 x.sequence ≡ a
        → leb 4294967296 (length x.bytes) ≡ b
        → encode_record x ≡ ok (encoded x)
    small false false p q = unfold encode_record in rw (p, q) refl
    small true b p q = absurd (ground (arith, h.2))
    small false true p q = absurd (ground (arith, h.1))

pub check_record-ok :
    (options : DaemonClientResultCaptureOptions) (rs : List DaemonSequencedOutputRecord)
    (x : DaemonSequencedOutputRecord) (c : DaemonClientResultCapture)
    → Keeps options rs c
    → IsAllowed options (rs ++ x ∷ [])
    → check_record x c ≡ ok tt
unfolding check_record
check_record-ok options rs x c k h = ground (
  arith,
  k.own,
  k.going,
  k.number,
  k.size,
  IsNumbered-last 0 rs x h.0,
  All-last (Fits options) rs x h.1,
  h.2,
  bytes_of-append rs (x ∷ []),
)
