-- ===== src/Tests/Answers.antt =====
-- The theorems at concrete inputs: model answers, verdicts and downloads of images.
use native.Mathlib.Nat.{le-div_iff_mul-le, div-mul-le_self}
use mathlib.Core.List.{Permᴰ}
use ansuman_nsfw_detection_s.Base.{
  ◌↔◌, In, ℕ, ◌≤◌, ◌+◌, ◌*◌, ◌≡◌, ◌≢◌, refl, inl, inr, String, true, false, none, some, [], ◌∷◌,
  arith, le→leb, leb→le, map,
}
use ansuman_nsfw_detection_s.Base.Int.{pos}
use ansuman_nsfw_detection_s.Base.Dict.{lookup, string_eq}
use ansuman_nsfw_detection_s.Errors.{timeout, Outcome, ok, raised}
use ansuman_nsfw_detection_s.Float.{FloatLaws}
use ansuman_nsfw_detection_s.Policy.{
  is_category, validate_category_scores, score, compute_is_nsfw, compute_overall_severity,
}
use ansuman_nsfw_detection_s.ModelOutput.{
  top_category_matches_scores, max_unsafe_severity, RawOutput, ModerationModelOutput,
  validate_output, overall_severity, is_nsfw,
}
use ansuman_nsfw_detection_s.ModelOutput.Checks.{IsChecked, validate_output_sound}
use ansuman_nsfw_detection_s.ModelOutput.Severity.{is_nsfw-severity, severity-is_nsfw}
use ansuman_nsfw_detection_s.ModelOutput.Extraction.{Decoder}
use ansuman_nsfw_detection_s.Aggregation.{
  aggregate, select_top_category, candidates, best_frame, min_by_rank,
}
use ansuman_nsfw_detection_s.Aggregation.Verdict.{move_required_iff}
use ansuman_nsfw_detection_s.Aggregation.Order.{AllRanked, aggregate-Perm}
use ansuman_nsfw_detection_s.Gpu.{GpuModerationService, moderate_frame_batch, retry}
use ansuman_nsfw_detection_s.Gpu.Batch.{IfOk, Moderated, moderate_frame_batch_sound}
use ansuman_nsfw_detection_s.Gpu.Retries.{Ended, retry_lem}
use ansuman_nsfw_detection_s.Json.{Items, null, array}
use ansuman_nsfw_detection_s.Models.{FrameModerationResult}
use ansuman_nsfw_detection_s.ModelOutput.SafeAnswer.{safe_answer, validate-safe_answer}
use ansuman_nsfw_detection_s.Images.{ImageServices, download_image_with_retries}
use ansuman_nsfw_detection_s.Images.Errors.{Explained, download_image_with_retries_lem}
use ansuman_nsfw_detection_s.Tests.Fixtures.{
  settings, thousandths, scores, porn_result, gore_result, frame, porn_verdict, differ,
}

abbrev raw : RawOutput
raw = record {
  top_category = "porn";
  categories = map (λ (e : String × ℕ). (e.0, pos e.1)) (scores 5 0);
  reason = "";
}

abbrev output : ModerationModelOutput
output = record { top_category = "porn"; categories = scores 5 0; reason = "" }

validated_porn : validate_output raw ≡ some output
unfolding validate_output is_category validate_category_scores lookup top_category_matches_scores
    score max_unsafe_severity
validated_porn = refl

validate_output_sound_example : IsChecked raw output
validate_output_sound_example = validate_output_sound raw output validated_porn

is_nsfw-severity_example : (output.top_category ≢ "safe") × (3 ≤ overall_severity output)
unfolding is_nsfw compute_is_nsfw score lookup
is_nsfw-severity_example = is_nsfw-severity raw output validated_porn refl

severity-is_nsfw_example : is_nsfw output ≡ true
unfolding overall_severity compute_overall_severity lookup is_category
severity-is_nsfw_example =
    severity-is_nsfw raw output validated_porn (differ "porn" "safe" refl) refl

abbrev swapped : Permᴰ (porn_result ∷ gore_result ∷ []) (gore_result ∷ porn_result ∷ [])
swapped = Permᴰ.swap refl refl

ranked : AllRanked (porn_result ∷ gore_result ∷ [])
ranked f (inl e) = rw (← e) (inr (inl refl))
ranked f (inr (inl e)) = rw (← e) (inr (inr (inr (inl refl))))
ranked f (inr (inr i)) = elim i [ ]

aggregate-Perm_example :
    aggregate thousandths settings "job" "video" "p1" 7 (porn_result ∷ gore_result ∷ [])
    ≡ aggregate thousandths settings "job" "video" "p1" 7 (gore_result ∷ porn_result ∷ [])
aggregate-Perm_example =
    aggregate-Perm thousandths settings "job" "video" "p1" 7 (porn_result ∷ gore_result ∷ [])
      (gore_result ∷ porn_result ∷ []) swapped ranked

thousandths-Laws : FloatLaws thousandths
thousandths-Laws = record {
  leb_trans = λ a b c h k.
      le→leb a.bits c.bits (omega (arith, leb→le a.bits b.bits h, leb→le b.bits c.bits k));
  div_mono = λ m n d le pos_d. le→leb _ _ (
      (le-div_iff_mul-le {y = n * 1000 * 1000} (omega arith)).1
        (omega (arith, div-mul-le_self (m * 1000 * 1000) (d * 1000))));
}

porn_aggregate :
    aggregate thousandths settings "job" "video" "p1" 7 (porn_result ∷ []) ≡ ok porn_verdict
unfolding aggregate select_top_category candidates best_frame min_by_rank
porn_aggregate = refl

move_required_iff_example : (porn_verdict.move_required ≡ true) ↔ (
    (g : FrameModerationResult) × In g (porn_result ∷ [])
    × (thousandths.leb settings.move_threshold
          (thousandths.div (thousandths.of_int g.overall_severity) (thousandths.of_int 5))
        ≡ true))
move_required_iff_example =
    move_required_iff thousandths settings "job" "video" "p1" 7 thousandths-Laws porn_result []
      porn_verdict porn_aggregate

validate-safe_answer_example :
    (o : ModerationModelOutput) × (validate_output (safe_answer 5) ≡ some o)
    × (overall_severity o ≡ 5)
    × (is_nsfw o ≡ false)
validate-safe_answer_example = validate-safe_answer 5 (omega arith)

abbrev decoder : Decoder
decoder = record {
  loads = λ s. some (array (Items.cons null Items.nil));
  raw_decode = λ s start. some (null, start + 1);
}

abbrev pub service : GpuModerationService Unit
service = record {
  moderate_images = λ prompt paths e. (ok "[]", e);
  text_client = none;
  visual_prompt = "";
  image_prompt = none;
  image_text_prompt = none;
  text_prompt = none;
  capture_model_attempt_failure = λ x operation attempt attempts e. e;
  sleep = λ seconds e. e;
  decoder = decoder;
  reader = record {
    read_frame = λ j. some (record { output = raw; frame_index = pos 0 });
    read_output = λ j. none;
  };
  model_dump = λ f. null;
}

moderate_frame_batch_sound_example :
    IfOk
      (Moderated service.reader service.model_dump 0 (frame ∷ []))
      (moderate_frame_batch thousandths settings service (frame ∷ []) tt).0
moderate_frame_batch_sound_example =
    moderate_frame_batch_sound thousandths settings service (frame ∷ []) tt

-- A call that always fails.
abbrev failing : Unit {0} → Outcome ℕ × Unit {0}
failing e = (raised (timeout "ReadTimeout" ""), e)

retry_lem_example :
    Ended thousandths settings service "text" "" 2 failing 2 1 none tt
      (retry thousandths settings service "text" "" 2 failing 2 1 none tt)
retry_lem_example = retry_lem thousandths settings service "text" "" 2 failing 1 tt

-- A host that answers too late.
abbrev slow_host : ImageServices Unit
slow_host = record {
  get = λ url e. (raised (timeout "ReadTimeout" ""), e);
  close = λ e. e;
  owns_client = false;
  capture_image_download_failure = λ x url attempt attempts e. e;
  sleep = λ seconds e. e;
  b64decode = λ s. none;
  write_image = λ bytes e. (ok "image.jpg", e);
  remove_dir = λ e. e;
  gpu = some service;
}

download_image_with_retries_lem_example :
    Explained thousandths settings slow_host "https://host/image.jpg"
      (download_image_with_retries thousandths settings slow_host "https://host/image.jpg" tt)
download_image_with_retries_lem_example =
    download_image_with_retries_lem thousandths settings slow_host "https://host/image.jpg" tt
