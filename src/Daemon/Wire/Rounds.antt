-- ===== src/Daemon/Wire/Rounds.antt =====
-- The rounds of a decoder on the bytes of encoded frames.
use symnav.Prelude.{
  ◌≡◌, refl, sym, ap, subst, ◌∙◌, ℕ, zero, suc, ◌+◌, ◌≤◌, ◌<◌, true, false, List, [], ◌∷◌, ◌++◌,
  arith, ltb, length, length-append, take, drop, take_front, drop_front, All, ok, Bool-cases, inl,
  inr,
}
use symnav.Daemon.Wire.{uint32_bytes, read_uint32}
use symnav.Daemon.Wire.Decoders.{Frame, FrameFormat, before, frames_of}

pub read_uint32-uint32_bytes :
    (n : ℕ) (rest : List ℕ) → n < 4294967296 → read_uint32 (uint32_bytes n ++ rest) ≡ n
unfolding read_uint32 uint32_bytes
read_uint32-uint32_bytes n rest h = omega arith

-- The number in front is settled by the first four bytes.
pub read_uint32-append : (b r : List ℕ) → 4 ≤ length b → read_uint32 (b ++ r) ≡ read_uint32 b
unfolding read_uint32
read_uint32-append [] r h = absurd (omega arith)
read_uint32-append (b0 ∷ []) r h = absurd (omega arith)
read_uint32-append (b0 ∷ b1 ∷ []) r h = absurd (omega arith)
read_uint32-append (b0 ∷ b1 ∷ b2 ∷ []) r h = absurd (omega arith)
read_uint32-append (b0 ∷ b1 ∷ b2 ∷ b3 ∷ b) r h = refl

pub cons-injective : {A : Type 0} {x y : A} {xs ys : List A} → x ∷ xs ≡ y ∷ ys → (x ≡ y) × (xs ≡ ys)
cons-injective h = (cc, cc)

-- Bytes that are long enough begin with the frame.
pub whole_frame :
    (b r e s : List ℕ)
    → b ++ r ≡ e ++ s
    → length e ≤ length b
    → (rest : List ℕ) × (b ≡ e ++ rest) × (rest ++ r ≡ s)
whole_frame b r [] s h enough = (b, refl, h)
whole_frame [] r (x ∷ e) s h enough = absurd (omega arith)
whole_frame (y ∷ b) r (x ∷ e) s h enough =
    let (same, tails) = cons-injective h in
    let (rest, e_rest, at_rest) = whole_frame b r e s tails (omega arith) in (rest, cc, at_rest)

module _ (format : FrameFormat) where
  -- The bytes that an encoder wrote for a frame.
  abbrev pub IsEncoded : List ℕ × Frame → Type 0
  IsEncoded (bytes, frame) =
      (n : ℕ) × (payload : List ℕ) × (bytes ≡ uint32_bytes n ++ payload)
      × (n < 4294967296)
      × (format.payload_length n ≡ length payload)
      × (length payload ≤ format.maximum_payload_bytes n)
      × (format.decode n payload ≡ ok frame)

  abbrev pub bytes_of : List (List ℕ × Frame) → List ℕ
  bytes_of [] = []
  bytes_of ((bytes, frame) ∷ todo) = bytes ++ bytes_of todo

  abbrev pub frames_in : List (List ℕ × Frame) → List Frame
  frames_in [] = []
  frames_in ((bytes, frame) ∷ todo) = frame ∷ frames_in todo

  -- The first frame that is still to come is not whole.
  abbrev pub IsWaiting : List ℕ → List (List ℕ × Frame) → Type 0
  IsWaiting b [] = b ≡ []
  IsWaiting b ((bytes, frame) ∷ todo) = length b < length bytes

  abbrev pub Split : ℕ → List ℕ → List ℕ → List (List ℕ × Frame) → Type 0
  Split rounds b r todo =
      (done : List (List ℕ × Frame)) × (later : List (List ℕ × Frame)) × (left : List ℕ) × (todo
        ≡ done ++ later)
      × (frames_of format rounds b ≡ (ok (frames_in done), left))
      × (left ++ r ≡ bytes_of later)
      × IsWaiting left later
      × All IsEncoded later

  pub length-frame :
      (n : ℕ) (payload : List ℕ) → length (uint32_bytes n ++ payload) ≡ 4 + length payload
  unfolding uint32_bytes
  length-frame n payload = omega arith

  pub round_decoded :
      (rounds n size : ℕ) (frame : Frame) (b payload rest : List ℕ)
      → 4 + size ≤ length b
      → read_uint32 b ≡ n
      → format.payload_length n ≡ size
      → size ≤ format.maximum_payload_bytes n
      → take size (drop 4 b) ≡ payload
      → drop (size + 4) b ≡ rest
      → format.decode n payload ≡ ok frame
      → frames_of format (suc rounds) b ≡ before frame (frames_of format rounds rest)
  unfolding frames_of
  round_decoded rounds n size frame b payload rest long read sized fits taken dropped decoded =
      rw
        (
          frames_of, prefixed, read, sized, allowed, read, sized, whole, read, sized, taken,
          decoded, read, sized, dropped,
        )
        refl
    where
      prefixed : ltb (length b) 4 ≡ false
      prefixed = ground arith

      allowed : ltb (format.maximum_payload_bytes n) size ≡ false
      allowed = ground arith

      whole : ltb (length b) (size + 4) ≡ false
      whole = ground arith

  -- A round on the bytes of a whole frame.
  pub whole_round :
      (rounds : ℕ) (bytes : List ℕ) (frame : Frame) (rest : List ℕ)
      → IsEncoded (bytes, frame)
      → frames_of format (suc rounds) (bytes ++ rest) ≡ before frame (frames_of format rounds rest)
  unfolding uint32_bytes
  whole_round rounds bytes frame rest (n, payload, written, small, size, fits, decoded) =
      subst
        (λ b.
          frames_of format (suc rounds) (b ++ rest) ≡ before frame (frames_of format rounds rest))
        (sym written)
        (round_decoded rounds n (length payload) frame (written_bytes ++ rest) payload rest
          (omega (arith, length-append payload rest))
          (read_uint32-uint32_bytes n (payload ++ rest) small) size fits (take_front payload rest)
          (ap (λ k. drop k (written_bytes ++ rest)) (plus_four (length payload))
            ∙ drop_front payload rest)
          decoded)
    where
      written_bytes : List ℕ
      written_bytes = uint32_bytes n ++ payload

      plus_four : (k : ℕ) → k + 4 ≡ suc (suc (suc (suc k)))
      plus_four k = omega arith

  -- A round on fewer bytes than the first frame has.
  pub short_round :
      (rounds : ℕ) (b r s bytes : List ℕ) (frame : Frame)
      → IsEncoded (bytes, frame)
      → b ++ r ≡ bytes ++ s
      → length b < length bytes
      → frames_of format rounds b ≡ (ok [], b)
  unfolding frames_of uint32_bytes
  short_round zero b r s bytes frame encoded h short = refl
  short_round (suc rounds) b r s bytes frame (n, payload, written, small, size, fits, decoded) h
        short =
      elim (Bool-cases (ltb (length b) 4)) [
        | inl few ↦ rw (frames_of, few) refl
        | inr enough ↦
            rw (frames_of, enough, read enough, size, allowed, read enough, size, incomplete) refl
      ]
    where
      read : ltb (length b) 4 ≡ false → read_uint32 b ≡ n
      read enough =
          sym (read_uint32-append b r (ground arith))
          ∙ ap read_uint32 (h ∙ ap (λ e. e ++ s) written)
          ∙ read_uint32-uint32_bytes n (payload ++ s) small

      allowed : ltb (format.maximum_payload_bytes n) (length payload) ≡ false
      allowed = ground arith

      length-bytes : length bytes ≡ 4 + length payload
      length-bytes = ap length written ∙ length-frame n payload

      incomplete : ltb (length b) (length payload + 4) ≡ true
      incomplete = ground arith

  pub nil_front : (b r : List ℕ) → b ++ r ≡ [] → b ≡ []
  nil_front [] r h = refl
  nil_front (x ∷ b) r h = cc

  pub no_round : (rounds : ℕ) → frames_of format rounds [] ≡ (ok [], [])
  unfolding frames_of
  no_round zero = refl
  no_round (suc rounds) = refl

  pub encoded_length :
      (bytes : List ℕ) (frame : Frame) → IsEncoded (bytes, frame) → 4 ≤ length bytes
  encoded_length bytes frame (n, payload, written, small, size, fits, decoded) =
      omega (arith, ap length written, length-frame n payload)
