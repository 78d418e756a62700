-- ===== src/Queue/Memory/Lookup.antt =====
-- Jobs found by their video.
use mathlib.Core.Option.{some-injective}
use ansuman_nsfw_detection_s.Base.{
  all, subst, ◌≡◌, refl, sym, inl, inr, String, Bool, true, some, List, [], ◌∷◌, map, str_eq,
  eq_iff, ltb, select, In, Bool-cases, arith,
}
use ansuman_nsfw_detection_s.Base.Dict.{Dict, lookup, string_eq}
use ansuman_nsfw_detection_s.Models.{VideoJob}
use ansuman_nsfw_detection_s.Queue.Memory.{Queue, get_job_by_video_id, latest, updated}

In-lookup :
    (id : String) (job : VideoJob) (jobs : Dict String VideoJob)
    → lookup id jobs ≡ some job
    → In job (map (λ (e : String × VideoJob). e.1) jobs)
unfolding lookup
In-lookup id job [] h = absurd (cc)
In-lookup id job ((k, v) ∷ jobs) h = elim (Bool-cases (str_eq k id)) [
  | inl here ↦ inl (some-injective v job (rw here at h))
  | inr there ↦ inr (In-lookup id job jobs (rw there at h))
]

module _ (p : VideoJob → Bool) where
  pub select-In :
      (a : VideoJob) (xs : List VideoJob)
      → In a xs
      → p a ≡ true
      → (b : VideoJob) × (bs : List VideoJob) × (select p xs ≡ b ∷ bs)
  select-In a [] i h = elim i [ ]
  select-In a (x ∷ xs) (inl e) h = (x, select p xs, rw (subst (λ y. p y ≡ true) (sym e) h))
  select-In a (x ∷ xs) (inr i) h = elim (Bool-cases (p x)) [
    | inl here ↦ (x, select p xs, rw here)
    | inr there ↦ (let (b, bs, e) = select-In a xs i h in (b, bs, rw there e))
  ]

  select-all : (xs : List VideoJob) → all p (select p xs) ≡ true
  select-all [] = refl
  select-all (x ∷ xs) = elim (Bool-cases (p x)) [
    | inl here ↦ rw (here, here) (select-all xs)
    | inr there ↦ rw there (select-all xs)
  ]

  latest_at :
      (best : VideoJob) (xs : List VideoJob) → all p (best ∷ xs) ≡ true → p (latest best xs) ≡ true
  unfolding latest
  latest_at best [] h = ground (arith, h)
  latest_at best (x ∷ xs) h = elim (Bool-cases (ltb (updated best) (updated x))) [
    | inl newer ↦ rw newer (latest_at x xs (ground (arith, h)))
    | inr older ↦ rw older (latest_at best xs (ground (arith, h)))
  ]

-- A stored job's video has a latest job, which is of that video.
pub get_job_by_video_id-stored :
    (id : String) (job : VideoJob) (q : Queue)
    → lookup id q.jobs ≡ some job
    → (found : VideoJob) × (get_job_by_video_id job.video_id q ≡ some found)
      × (found.video_id ≡ job.video_id)
unfolding get_job_by_video_id
get_job_by_video_id-stored id job q stored =
    let p : VideoJob → Bool = λ j. str_eq j.video_id job.video_id in
    let jobs = map (λ (e : String × VideoJob). e.1) q.jobs in
    let (b, bs, e) = select-In p job jobs (In-lookup id job q.jobs stored) ((eq_iff _ _).1 refl) in
    (
      latest b bs,
      rw (e, get_job_by_video_id),
      (eq_iff _ _).0 (latest_at p b bs (subst (λ l. all p l ≡ true) e (select-all p jobs))),
    )
