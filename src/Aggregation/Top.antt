-- ===== src/Aggregation/Top.antt =====
-- The category that the aggregation selects, described without its loops.
use ansuman_nsfw_detection_s.Base.{
  ℕ, ◌≤◌, ◌≡◌, refl, sym, subst, ◌∙◌, String, Bool, true, false, inl, inr, some, List, [], ◌∷◌,
  arith, eq_iff, ltb, ◌==◌, ==_iff, In, Bool-cases, maximum-map-attained, if◌then◌else◌, max,
}
use ansuman_nsfw_detection_s.Models.{FrameModerationResult}
use ansuman_nsfw_detection_s.Aggregation.{
  index_of, risk_rank, beats, best_frame, min_by_rank, candidates, first_min, select_top_category,
  max_severity,
}

step-severity :
    (f g : FrameModerationResult)
    → (if beats g f then g else f).overall_severity ≡ max f.overall_severity g.overall_severity
unfolding beats
step-severity f g = ground arith

best_frame-severity :
    (f : FrameModerationResult) (fs : List FrameModerationResult)
    → (best_frame f fs).overall_severity ≡ max_severity (f ∷ fs)
unfolding best_frame
best_frame-severity f [] = omega arith
best_frame-severity f (g ∷ gs) =
    omega (arith, best_frame-severity (if beats g f then g else f) gs, step-severity f g)

In-candidates :
    (n : ℕ) (fs : List FrameModerationResult) (c : String)
    → In c (candidates n fs)
    → (f : FrameModerationResult) × In f fs × (f.overall_severity ≡ n) × (f.top_category ≡ c)
unfolding candidates
In-candidates n [] c i = elim i [ ]
In-candidates n (f ∷ fs) c i = elim (Bool-cases (f.overall_severity == n)) [
  | inl e ↦ elim (rw e at i) [
    | inl same ↦ (f, inl refl, (==_iff _ n).0 e, same)
    | inr later ↦ (let (g, j, s, t) = In-candidates n fs c later in (g, inr j, s, t))
  ]
  | inr e ↦ (let (g, j, s, t) = In-candidates n fs c (rw e at i) in (g, inr j, s, t))
]

candidates-In :
    (n : ℕ) (fs : List FrameModerationResult) (f : FrameModerationResult)
    → In f fs
    → f.overall_severity ≡ n
    → In f.top_category (candidates n fs)
unfolding candidates
candidates-In n [] f i e = elim i [ ]
candidates-In n (g ∷ gs) f (inl same) e = rw (same, (==_iff f.overall_severity n).1 e) (inl refl)
candidates-In n (g ∷ gs) f (inr later) e = elim (Bool-cases (g.overall_severity == n)) [
  | inl here ↦ rw here (inr (candidates-In n gs f later e))
  | inr not_here ↦ rw not_here (candidates-In n gs f later e)
]

either-In :
    (b : Bool) (x c d : String) (ds : List String)
    → In x ((if b then d else c) ∷ ds)
    → In x (c ∷ d ∷ ds)
either-In true x c d ds i = inr i
either-In false x c d ds (inl e) = inl e
either-In false x c d ds (inr i) = inr (inr i)

min_by_rank-In : (c : String) (cs : List String) → In (min_by_rank c cs) (c ∷ cs)
unfolding min_by_rank
min_by_rank-In c [] = inl refl
min_by_rank-In c (d ∷ ds) =
    let lower = ltb (risk_rank d) (risk_rank c) in
    let next : String = if lower then d else c in
    either-In lower (min_by_rank next ds) c d ds (min_by_rank-In next ds)

lower-le :
    (c d : String)
    → let next = if ltb (risk_rank d) (risk_rank c) then d else c in
      (risk_rank next ≤ risk_rank c) × (risk_rank next ≤ risk_rank d)
lower-le c d = ground arith

min_by_rank-le :
    (c : String) (cs : List String) (d : String)
    → In d (c ∷ cs)
    → risk_rank (min_by_rank c cs) ≤ risk_rank d
unfolding min_by_rank
min_by_rank-le c [] d (inl e) = rw (← e) (omega arith)
min_by_rank-le c [] d (inr i) = elim i [ ]
min_by_rank-le c (e ∷ es) d i =
    let next : String = if ltb (risk_rank e) (risk_rank c) then e else c in
    let (le_c, le_e) = lower-le c e in
    let first = min_by_rank-le next es next (inl refl) in
    elim i [
      | inl same ↦ rw (← same) (omega arith)
      | inr (inl same) ↦ rw (← same) (omega arith)
      | inr (inr later) ↦ min_by_rank-le next es d (inr later)
    ]

-- `top` is the top category of a frame of the highest severity, and no frame of that severity has
-- a riskier one.
pub record IsRiskiest (frames : List FrameModerationResult) (top : String) : Type 0 where
  pub frame : FrameModerationResult
  pub member : In frame frames
  pub named : frame.top_category ≡ top
  pub highest : frame.overall_severity ≡ max_severity frames
  pub riskiest :
      (g : FrameModerationResult)
      → In g frames
      → g.overall_severity ≡ max_severity frames
      → risk_rank top ≤ risk_rank g.top_category

IsRiskiest-first_min :
    (f : FrameModerationResult) (fs : List FrameModerationResult) (n : ℕ)
    → n ≡ max_severity (f ∷ fs)
    → (cs : List String) → cs ≡ candidates n (f ∷ fs)
    → (top : String) × (first_min cs ≡ some top) × IsRiskiest (f ∷ fs) top
IsRiskiest-first_min f fs n best [] e =
    let (g, i, s) = maximum-map-attained (λ (h : FrameModerationResult). h.overall_severity) f fs in
    let never = candidates-In n (f ∷ fs) g i (s ∙ sym best) in
    elim (subst (λ cs. In g.top_category cs) (sym e) never) [ ]
IsRiskiest-first_min f fs n best (c ∷ cs) e =
    let top = min_by_rank c cs in
    let (g, i, s, t) =
      In-candidates n (f ∷ fs) top (subst (λ l. In top l) e (min_by_rank-In c cs)) in
    (
      top,
      refl,
      record {
        frame = g;
        member = i;
        named = t;
        highest = s ∙ best;
        riskiest = λ h j m. min_by_rank-le c cs h.top_category (
            subst (λ l. In h.top_category l) (sym e) (candidates-In n (f ∷ fs) h j (m ∙ sym best)));
      },
    )

-- Of one frame or more a category is selected, and it is a riskiest one.
pub select_top_category-IsRiskiest :
    (f : FrameModerationResult) (fs : List FrameModerationResult)
    → (top : String) × (select_top_category (f ∷ fs) ≡ some top) × IsRiskiest (f ∷ fs) top
unfolding select_top_category
select_top_category-IsRiskiest f fs =
    IsRiskiest-first_min f fs (best_frame f fs).overall_severity (best_frame-severity f fs)
      (candidates (best_frame f fs).overall_severity (f ∷ fs)) refl

-- Two categories of the risk order with one rank are one.
pub index_of-injective :
    (ks : List String) (c d : String) → In c ks → index_of c ks ≡ index_of d ks → c ≡ d
unfolding index_of
index_of-injective [] c d i e = elim i [ ]
index_of-injective (k ∷ ks) c d (inl i) e = ground (arith, eq_iff k c, eq_iff k d)
index_of-injective (k ∷ ks) c d (inr i) e =
    ground (arith, eq_iff k c, eq_iff k d, index_of-injective ks c d i)
