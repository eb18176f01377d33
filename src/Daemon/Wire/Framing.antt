-- ===== src/Daemon/Wire/Framing.antt =====
-- Frames are found again, however their bytes are cut into pieces.
use mathlib.Core.List.{append_assoc, append-nil}
use symnav.Prelude.{
  ◌≡◌, refl, sym, ap, subst, ◌∙◌, ℕ, zero, suc, ◌≤◌, List, [], ◌∷◌, ◌++◌, arith, ltb, length,
  length-append, All, Result, ok, err, Bool-cases, inl, inr,
}
use symnav.Daemon.Wire.{WireError}
use symnav.Daemon.Wire.Decoders.{Frame, FrameFormat, before, frames_of, append}
use symnav.Daemon.Wire.Rounds.{
  whole_frame, IsEncoded, bytes_of, frames_in, IsWaiting, Split, whole_round, short_round,
  nil_front, no_round, encoded_length,
}

-- The frames of a piece, and those of what comes after.
abbrev pub followed :
    Result WireError (List Frame) × List ℕ
    → (List ℕ → Result WireError (List Frame) × List ℕ)
    → Result WireError (List Frame) × List ℕ
followed (err e, left) later = (err e, left)
followed (ok frames, left) later = together frames (later left)
  where
    together :
        List Frame → Result WireError (List Frame) × List ℕ → Result WireError (List Frame) × List ℕ
    together frames (ok more, last) = (ok (frames ++ more), last)
    together frames (err e, last) = (err e, last)

-- The pieces that arrive on a connection, each given to `append`.
abbrev pub feed : FrameFormat → List (List ℕ) → List ℕ → Result WireError (List Frame) × List ℕ
feed format [] buffered = (ok [], buffered)
feed format (piece ∷ pieces) buffered =
    followed (append format piece buffered) (λ left. feed format pieces left)

abbrev pub joined : List (List ℕ) → List ℕ
joined [] = []
joined (piece ∷ pieces) = piece ++ joined pieces

module _ (format : FrameFormat) where
  frames_of-Split :
      (rounds : ℕ) (b r : List ℕ) (todo : List (List ℕ × Frame))
      → length b ≤ rounds
      → All (IsEncoded format) todo
      → b ++ r ≡ bytes_of format todo
      → Split format rounds b r todo
  frames_of-Split rounds b r [] enough encoded h = (
    [],
    [],
    [],
    refl,
    subst (λ c. frames_of format rounds c ≡ (ok [], [])) (sym (nil_front format b r h))
        (no_round format rounds),
    ap (λ c. c ++ r) (sym (nil_front format b r h)) ∙ h,
    refl,
    tt,
  )
  frames_of-Split rounds b r ((bytes, frame) ∷ todo) enough encoded h =
      elim (Bool-cases (ltb (length b) (length bytes))) [
        | inl short ↦ (
          [],
          (bytes, frame) ∷ todo,
          b,
          refl,
          short_round format rounds b r (bytes_of format todo) bytes frame encoded.0 h
              (ground arith),
          h,
          (ground arith),
          encoded,
        )
        | inr long ↦
            next rounds enough (whole_frame b r bytes (bytes_of format todo) h (ground arith))
              (λ fewer rest at_most at_rest.
                frames_of-Split fewer rest r todo at_most encoded.1 at_rest)
      ]
    where
      next :
          (rounds : ℕ)
          → length b ≤ rounds
          → ((rest : List ℕ) × (b ≡ bytes ++ rest) × (rest ++ r ≡ bytes_of format todo))
          → ((fewer : ℕ) (rest : List ℕ)
              → length rest ≤ fewer
              → rest ++ r ≡ bytes_of format todo
              → Split format fewer rest r todo)
          → Split format rounds b r ((bytes, frame) ∷ todo)
      next zero at_most (rest, front, at_rest) recur = absurd (
          omega (
            arith,
            ap length front,
            length-append bytes rest,
            encoded_length format bytes frame encoded.0,
          ))
      next (suc fewer) at_most (rest, front, at_rest) recur =
          let (done, later, left, split, taken, at_left, waiting, still) =
            recur fewer rest
              (omega (
                arith,
                ap length front,
                length-append bytes rest,
                encoded_length format bytes frame encoded.0,
              ))
              at_rest in
          (
            (bytes, frame) ∷ done,
            later,
            left,
            ap (λ l. (bytes, frame) ∷ l) split,
            subst (λ c. frames_of format (suc fewer) c ≡ (ok (frame ∷ frames_in format done), left))
                (sym front)
                (whole_round format fewer bytes frame rest encoded.0
                  ∙ ap (λ answer. before frame answer) taken),
            at_left,
            waiting,
            still,
          )

  waiting_done :
      (b : List ℕ) (todo : List (List ℕ × Frame))
      → b ++ [] ≡ bytes_of format todo
      → IsWaiting format b todo
      → (todo ≡ []) × (b ≡ [])
  waiting_done b [] h waiting = (refl, waiting)
  waiting_done b ((bytes, frame) ∷ todo) h waiting = absurd (
      omega
        (arith, ap length h, length-append bytes (bytes_of format todo), ap length (append-nil b)))

  frames_in-append :
      (xs ys : List (List ℕ × Frame))
      → frames_in format (xs ++ ys) ≡ frames_in format xs ++ frames_in format ys
  frames_in-append [] ys = refl
  frames_in-append ((bytes, frame) ∷ xs) ys = ap (λ l. frame ∷ l) (frames_in-append xs ys)

  feed-waiting :
      (pieces : List (List ℕ)) (b : List ℕ) (todo : List (List ℕ × Frame))
      → All (IsEncoded format) todo
      → b ++ joined pieces ≡ bytes_of format todo
      → IsWaiting format b todo
      → feed format pieces b ≡ (ok (frames_in format todo), [])
  unfolding append
  feed-waiting [] b todo encoded h waiting = ended (waiting_done b todo h waiting)
    where
      ended :
          (todo ≡ []) × (b ≡ [])
          → ◌≡◌ {A = Result WireError (List Frame) × List ℕ}
              (ok [], b)
              (ok (frames_in format todo), [])
      ended (nothing, empty) = rw (nothing, empty) refl
  feed-waiting (piece ∷ pieces) b todo encoded h waiting =
      let (done, later, left, split, taken, at_left, still, rest) =
        frames_of-Split (length (b ++ piece)) (b ++ piece) (joined pieces) todo (omega arith)
          encoded (append_assoc b piece (joined pieces) ∙ h) in
      rw taken (
        rw (feed-waiting pieces left later rest at_left still)
          (ap (λ l. (ok l, [])) (sym (ap (frames_in format) split ∙ frames_in-append done later))))

  -- Bytes cut into any pieces are decoded to their frames, and nothing stays buffered.
  pub feed-frames_in :
      (pieces : List (List ℕ)) (todo : List (List ℕ × Frame))
      → All (IsEncoded format) todo
      → joined pieces ≡ bytes_of format todo
      → feed format pieces [] ≡ (ok (frames_in format todo), [])
  feed-frames_in pieces todo encoded h =
      feed-waiting pieces [] todo encoded h (at_start todo encoded)
    where
      at_start :
          (todo : List (List ℕ × Frame)) → All (IsEncoded format) todo → IsWaiting format [] todo
      at_start [] encoded = refl
      at_start ((bytes, frame) ∷ todo) encoded =
          omega (arith, encoded_length format bytes frame encoded.0)
