-- ===== src/Aggregation/Order.antt =====
-- The verdict on a video does not depend on the order of its frames.
use mathlib.Core.Path.{fun_ext}
use mathlib.Core.List.Permᴰ
use mathlib.Core.List.{Permᴰ}
use ansuman_nsfw_detection_s.Base.{
  ℕ, suc, ◌≤◌, ◌≡◌, refl, sym, ap, subst, ◌∙◌, String, inl, inr, List, [], ◌∷◌, map, arith, length,
  maximum, In,
}
use ansuman_nsfw_detection_s.Constants.{risk_order, moderation_categories}
use ansuman_nsfw_detection_s.Float.{FloatOps}
use ansuman_nsfw_detection_s.Settings.{Settings}
use ansuman_nsfw_detection_s.Errors.{ok}
use ansuman_nsfw_detection_s.Policy.{score}
use ansuman_nsfw_detection_s.Models.{FrameModerationResult, Datetime}
use ansuman_nsfw_detection_s.Aggregation.{
  risk_rank, max_severity, max_severities, count_nsfw, verdict, aggregate,
}
use ansuman_nsfw_detection_s.Aggregation.Top.{
  IsRiskiest, select_top_category-IsRiskiest, index_of-injective,
}

module _ {ℓ} {A : Type ℓ} where
  In-Perm : {xs ys : List A} → Permᴰ xs ys → (a : A) → In a xs → In a ys
  In-Perm Permᴰ.nil a i = i
  In-Perm (Permᴰ.cons e p) a (inl h) = inl (sym e ∙ h)
  In-Perm (Permᴰ.cons e p) a (inr h) = inr (In-Perm p a h)
  In-Perm (Permᴰ.swap e d) a (inl h) = inr (inl (sym e ∙ h))
  In-Perm (Permᴰ.swap e d) a (inr (inl h)) = inl (sym d ∙ h)
  In-Perm (Permᴰ.swap e d) a (inr (inr h)) = inr (inr h)
  In-Perm (Permᴰ.trans p q) a i = In-Perm q a (In-Perm p a i)

  maximum-map-Perm :
      (f : A → ℕ) {xs ys : List A} → Permᴰ xs ys → maximum (map f xs) ≡ maximum (map f ys)
  maximum-map-Perm f Permᴰ.nil = refl
  maximum-map-Perm f (Permᴰ.cons e p) = omega (arith, ap f e, maximum-map-Perm f p)
  maximum-map-Perm f (Permᴰ.swap e d) = omega (arith, ap f e, ap f d)
  maximum-map-Perm f (Permᴰ.trans p q) = maximum-map-Perm f p ∙ maximum-map-Perm f q

  length-Perm : {xs ys : List A} → Permᴰ xs ys → length xs ≡ length ys
  length-Perm Permᴰ.nil = refl
  length-Perm (Permᴰ.cons e p) = ap suc (length-Perm p)
  length-Perm (Permᴰ.swap e d) = refl
  length-Perm (Permᴰ.trans p q) = length-Perm p ∙ length-Perm q

count_nsfw-Perm : {fs gs : List FrameModerationResult} → Permᴰ fs gs → count_nsfw fs ≡ count_nsfw gs
unfolding count_nsfw
count_nsfw-Perm Permᴰ.nil = refl
count_nsfw-Perm (Permᴰ.cons e p) =
    ground (arith, ap (λ (f : FrameModerationResult). f.is_nsfw) e, count_nsfw-Perm p)
count_nsfw-Perm (Permᴰ.swap e d) = ground (
  arith,
  ap (λ (f : FrameModerationResult). f.is_nsfw) e,
  ap (λ (f : FrameModerationResult). f.is_nsfw) d,
)
count_nsfw-Perm (Permᴰ.trans p q) = count_nsfw-Perm p ∙ count_nsfw-Perm q

max_severity-Perm :
    {fs gs : List FrameModerationResult} → Permᴰ fs gs → max_severity fs ≡ max_severity gs
max_severity-Perm p = maximum-map-Perm (λ (f : FrameModerationResult). f.overall_severity) p

max_severities-Perm :
    {fs gs : List FrameModerationResult} → Permᴰ fs gs → max_severities fs ≡ max_severities gs
unfolding max_severities
max_severities-Perm p =
    ap (λ (h : String → String × ℕ). map h moderation_categories)
      (fun_ext λ c.
        ap (λ (n : ℕ). (c, n))
          (maximum-map-Perm (λ (f : FrameModerationResult). score f.categories c) p))

-- Every frame's top category stands in the risk order.
abbrev pub AllRanked : List FrameModerationResult → Type 0
AllRanked frames = (f : FrameModerationResult) → In f frames → In f.top_category risk_order

riskiest-le :
    {fs gs : List FrameModerationResult} {s t : String}
    → Permᴰ fs gs
    → IsRiskiest fs s
    → IsRiskiest gs t
    → risk_rank t ≤ risk_rank s
riskiest-le p a b =
    rw (← a.named)
      (b.riskiest a.frame (In-Perm p a.frame a.member) (a.highest ∙ max_severity-Perm p))

riskiest_unique :
    {fs gs : List FrameModerationResult} {s t : String}
    → Permᴰ fs gs
    → Permᴰ gs fs
    → AllRanked fs
    → IsRiskiest fs s
    → IsRiskiest gs t
    → s ≡ t
unfolding risk_rank
riskiest_unique p q known a b =
    index_of-injective risk_order _ _
      (subst (λ c. In c risk_order) a.named (known a.frame a.member))
      (omega (arith, riskiest-le p a b, riskiest-le q b a))

module _ (float : FloatOps) (settings : Settings) (job_id video_id policy_version : String)
    (now : Datetime) where
  verdict-Perm :
      {fs gs : List FrameModerationResult} (top : String)
      → Permᴰ fs gs
      → verdict float settings job_id video_id policy_version now fs top
        ≡ verdict float settings job_id video_id policy_version now gs top
  unfolding verdict
  verdict-Perm top p =
      cc (count_nsfw-Perm p, length-Perm p, max_severity-Perm p, max_severities-Perm p)

  -- Frames whose categories are all in the risk order give the same verdict in every order.
  pub aggregate-Perm :
      (fs gs : List FrameModerationResult)
      → Permᴰ fs gs
      → AllRanked fs
      → aggregate float settings job_id video_id policy_version now fs
        ≡ aggregate float settings job_id video_id policy_version now gs
  unfolding aggregate
  aggregate-Perm [] [] p known = refl
  aggregate-Perm [] (g ∷ gs) p known = absurd (omega (arith, length-Perm p))
  aggregate-Perm (f ∷ fs) [] p known = absurd (omega (arith, length-Perm p))
  aggregate-Perm (f ∷ fs) (g ∷ gs) p known =
      let (s, es, rs) = select_top_category-IsRiskiest f fs in
      let (t, et, rt) = select_top_category-IsRiskiest g gs in
      let same = riskiest_unique p (Permᴰ.symm p) known rs rt in
      rw (es, et, same, aggregate) (ap ok (verdict-Perm t p))
