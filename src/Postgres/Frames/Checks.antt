-- ===== src/Postgres/Frames/Checks.antt =====
-- The rows of moderated frames meet the table's checks, and their ids differ.
use text.Mathlib.TextLemmas.{append_cancel_left}
use ansuman_nsfw_detection_s.Base.{ℕ, ◌+◌, ◌≤◌, ◌≡◌, refl, ap, ◌∙◌, String, true, List, [], ◌∷◌}
use ansuman_nsfw_detection_s.Base.Dict.{string_eq}
use ansuman_nsfw_detection_s.Base.Text.{str, str-injective}
use ansuman_nsfw_detection_s.Float.{FloatOps}
use ansuman_nsfw_detection_s.Settings.{Settings}
use ansuman_nsfw_detection_s.Errors.{Outcome, ok, raised}
use ansuman_nsfw_detection_s.Policy.{Scores, is_category, compute_overall_severity}
use ansuman_nsfw_detection_s.Policy.Validated.{IsScores}
use ansuman_nsfw_detection_s.Models.{FrameModerationResult}
use ansuman_nsfw_detection_s.ModelOutput.{overall_severity, FrameModerationOutput}
use ansuman_nsfw_detection_s.Json.{Json}
use ansuman_nsfw_detection_s.ModelOutput.Parsing.{Reader}
use ansuman_nsfw_detection_s.Frames.{ExtractedFrame}
use ansuman_nsfw_detection_s.Gpu.{GpuModerationService, moderate_frame_batch}
use ansuman_nsfw_detection_s.Gpu.Batch.{Judged, Moderated, IfOk, moderate_frame_batch_sound}
use ansuman_nsfw_detection_s.Postgres.Database.{FrameRow}
use ansuman_nsfw_detection_s.Postgres.Frames.{
  Origin, frame_id, severity_of, frame_result_to_row, frame_rows,
}

-- The checks `BETWEEN 0 AND 5` of `nsfw_frame_results`.
pub record IsInRange (row : FrameRow) : Type 0 where
  pub overall : row.overall_severity ≤ 5
  pub safe : row.safe_severity ≤ 5
  pub suggestive : row.suggestive_severity ≤ 5
  pub nudity : row.nudity_severity ≤ 5
  pub porn : row.porn_severity ≤ 5
  pub gore : row.gore_severity ≤ 5
  pub violence : row.violence_severity ≤ 5
  pub self_harm : row.self_harm_severity ≤ 5
  pub hate_or_extremism : row.hate_or_extremism_severity ≤ 5
  pub drugs : row.drugs_severity ≤ 5
  pub unknown : row.unknown_severity ≤ 5
  pub sexual_minor_content : row.sexual_minor_content_severity ≤ 5

-- Frames of different indexes have different ids.
pub frame_id-injective : (job_id : String) (m n : ℕ) → frame_id job_id m ≡ frame_id job_id n → m ≡ n
unfolding frame_id
frame_id-injective job_id m n h =
    str-injective m n (append_cancel_left ":" (str m) (str n) (append_cancel_left job_id _ _ h))

severity_at :
    (scores : Scores) (c : String)
    → IsScores scores
    → is_category c ≡ true
    → (n : ℕ) × (severity_of scores c ≡ ok n) × (n ≤ 5)
unfolding severity_of
severity_at scores c h known = let (n, e, le) = h c known in (n, rw (e, severity_of), le)

-- A frame's result with a severity between 0 and 5 overall and for every category has a row.
row-IsInRange :
    (origin : Origin) (frame : FrameModerationResult)
    → IsScores frame.categories
    → frame.overall_severity ≤ 5
    → (row : FrameRow) × (frame_result_to_row origin frame ≡ ok row)
      × IsInRange row
      × (row.frame_id ≡ frame_id origin.job_id frame.frame_index)
unfolding frame_result_to_row is_category frame_id
row-IsInRange origin frame h le =
    let s = frame.categories in
    let (a, ea, la) = severity_at s "safe" h refl in
    let (b, eb, lb) = severity_at s "suggestive" h refl in
    let (c, ec, lc) = severity_at s "nudity" h refl in
    let (d, ed, ld) = severity_at s "porn" h refl in
    let (g, eg, lg) = severity_at s "gore" h refl in
    let (i, ei, li) = severity_at s "violence" h refl in
    let (j, ej, lj) = severity_at s "self_harm" h refl in
    let (k, ek, lk) = severity_at s "hate_or_extremism" h refl in
    let (l, el, ll) = severity_at s "drugs" h refl in
    let (m, em, lm) = severity_at s "unknown" h refl in
    let (n, en, ln) = severity_at s "sexual_minor_content" h refl in
    rw (ea, eb, ec, ed, eg, ei, ej, ek, el, em, en, frame_result_to_row)
      (
        _,
        refl,
        record {
          overall = le;
          safe = la;
          suggestive = lb;
          nudity = lc;
          porn = ld;
          gore = lg;
          violence = li;
          self_harm = lj;
          hate_or_extremism = lk;
          drugs = ll;
          unknown = lm;
          sexual_minor_content = ln;
        },
        refl,
      )

module _ (reader : Reader) (dump : FrameModerationOutput → Json) where
  Judged-IsScores :
      (number : ℕ) (frame : ExtractedFrame) (r : FrameModerationResult)
      → Judged reader dump number frame r
      → IsScores r.categories
  Judged-IsScores number frame r j =
      rw j.scores (λ c known. let (n, _, e, le) = j.source.checked.scores c known in (n, e, le))

  Judged-severity :
      (number : ℕ) (frame : ExtractedFrame) (r : FrameModerationResult)
      → Judged reader dump number frame r
      → r.overall_severity ≤ 5
  unfolding overall_severity compute_overall_severity
  Judged-severity number frame r j =
      let (n, _, e, le) =
        j.source.checked.scores j.answer.output.top_category j.source.checked.known in
      rw (j.severity, overall_severity, j.source.checked.known, e) le

-- The rows of a batch's results are rows of those frames, in range.
abbrev pub Stored : Origin → List ExtractedFrame → List FrameRow → Type 0
Stored origin [] [] = Unit
Stored origin [] (row ∷ rows) = ⊥
Stored origin (f ∷ fs) [] = ⊥
Stored origin (f ∷ fs) (row ∷ rows) =
    (row.frame_id ≡ frame_id origin.job_id f.frame_index) × IsInRange row × Stored origin fs rows

rows-Stored :
    (reader : Reader) (dump : FrameModerationOutput → Json) (number : ℕ) (origin : Origin)
    (frames : List ExtractedFrame) (results : List FrameModerationResult)
    → Moderated reader dump number frames results
    → (rows : List FrameRow) × (frame_rows origin results ≡ ok rows) × Stored origin frames rows
unfolding frame_rows
rows-Stored reader dump number origin [] [] h = ([], refl, tt)
rows-Stored reader dump number origin [] (r ∷ rs) h = absurd h
rows-Stored reader dump number origin (f ∷ fs) [] h = absurd h
rows-Stored reader dump number origin (f ∷ fs) (r ∷ rs) (j, h) =
    let (row, made, inside, named) =
      row-IsInRange origin r (Judged-IsScores reader dump number f r j)
        (Judged-severity reader dump number f r j) in
    let (rows, all_made, stored) = rows-Stored reader dump (number + 1) origin fs rs h in
    (
      row ∷ rows,
      rw (made, all_made, frame_rows) refl,
      (named ∙ ap (frame_id origin.job_id) j.index, inside, stored),
    )

IfOk-map :
    {A : Type 0} {P Q : A → Type 0} (o : Outcome A) → ((a : A) → P a → Q a) → IfOk P o → IfOk Q o
IfOk-map (ok a) f h = f a h
IfOk-map (raised x) f h = tt

module _ {E : Type 0} (float : FloatOps) (settings : Settings) (service : GpuModerationService E)
    (origin : Origin) where
  -- Whatever the model answers, the results of a batch that is moderated become rows with no error: one for each frame, in order, under an id made of the job's and the frame's, and with every severity between 0 and 5, as the table's checks demand.
  pub moderated_rows :
      (frames : List ExtractedFrame) (e : E)
      → IfOk
          (λ results.
            (rows : List FrameRow) × (frame_rows origin results ≡ ok rows)
            × Stored origin frames rows)
          (moderate_frame_batch float settings service frames e).0
  moderated_rows frames e =
      IfOk-map (moderate_frame_batch float settings service frames e).0
        (rows-Stored service.reader service.model_dump 0 origin frames)
        (moderate_frame_batch_sound float settings service frames e)
