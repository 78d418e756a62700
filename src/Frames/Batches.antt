-- ===== src/Frames/Batches.antt =====
-- Batching loses no frame and keeps the order.
use ansuman_nsfw_detection_s.Base.{
  ℕ, zero, suc, ◌≤◌, ◌<◌, ◌≡◌, refl, ap, ◌∙◌, List, [], ◌∷◌, ◌++◌, arith, length, take, drop,
  concat, length-drop, length-take, take-append-drop, All,
}
use ansuman_nsfw_detection_s.Base.Int.{pos}
use ansuman_nsfw_detection_s.Errors.{ok}
use ansuman_nsfw_detection_s.Frames.{slices, frame_batches}

module _ {A : Type 0} where
  -- A batch that can be sent: it is not empty, and not larger than the batch size.
  abbrev pub FitsBatch : ℕ → List A → Type 0
  FitsBatch n batch = (0 < length batch) × (length batch ≤ n)

  concat-slices :
      (f n : ℕ) (frames : List A) → length frames ≤ f → concat (slices f (suc n) frames) ≡ frames
  unfolding slices
  concat-slices zero n [] h = refl
  concat-slices zero n (x ∷ xs) h = elim h [ ]
  concat-slices (suc f) n [] h = refl
  concat-slices (suc f) n (x ∷ xs) h =
      ap (λ r. take (suc n) (x ∷ xs) ++ r)
        (concat-slices f n (drop (suc n) (x ∷ xs)) (omega (arith, length-drop n xs)))
      ∙ take-append-drop (suc n) (x ∷ xs)

  slices-FitsBatch : (f n : ℕ) (frames : List A) → All (FitsBatch (suc n)) (slices f (suc n) frames)
  unfolding slices
  slices-FitsBatch zero n frames = tt
  slices-FitsBatch (suc f) n [] = tt
  slices-FitsBatch (suc f) n (x ∷ xs) = (
    (omega (arith, length-take n xs), omega (arith, length-take n xs)),
    slices-FitsBatch f n (drop (suc n) (x ∷ xs)),
  )

  -- With a positive batch size the batches, one behind the other, are the frames, and each of them is
  -- non-empty and no larger than the batch size.
  pub frame_batches_lem :
      (n : ℕ) (frames : List A)
      → (batches : List (List A)) × (frame_batches (pos (suc n)) frames ≡ ok batches)
        × (concat batches ≡ frames)
        × All (FitsBatch (suc n)) batches
  unfolding frame_batches
  frame_batches_lem n frames = (
    slices (length frames) (suc n) frames,
    refl,
    concat-slices (length frames) n frames (omega arith),
    slices-FitsBatch (length frames) n frames,
  )
