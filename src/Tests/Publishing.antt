-- ===== src/Tests/Publishing.antt =====
-- The theorems at concrete inputs: the finalisation.
use ansuman_nsfw_detection_s.Base.{ℕ, ◌+◌, ◌≡◌, refl, true, none, [], ◌∷◌}
use ansuman_nsfw_detection_s.Base.Dict.{string_eq}
use ansuman_nsfw_detection_s.Errors.{ok}
use ansuman_nsfw_detection_s.Models.{VideoMetadata}
use ansuman_nsfw_detection_s.Queue.Memory.{new_job}
use ansuman_nsfw_detection_s.Json.{end}
use ansuman_nsfw_detection_s.Finalization.{FinalServices, finalize_classification}
use ansuman_nsfw_detection_s.Finalization.Order.{Quiet, Ordered, finalize_classification_order}
use ansuman_nsfw_detection_s.Tests.Fixtures.{settings, request, porn_result, porn_verdict}

-- The environment counts what is published.
abbrev counting : FinalServices ℕ
counting = record {
  now = λ e. 7;
  uuid4 = λ e. ("id", e);
  dumps = λ j. "";
  post = λ url body token e. (ok (record { status_code = 200; body = "" }), e);
  enter = λ e. (ok tt, e);
  exit = λ x e. (ok tt, e);
  insert_frame_results = λ job r fs settings e. (ok tt, e);
  insert_final_result = λ r e. (ok tt, e);
  insert_storage_action = λ a e. (ok tt, e);
  mark_job_classified = λ id e. (ok tt, e);
  dump_video_row = λ r. end;
  dump_legacy_row = λ r. end;
  dump_action_row = λ r. end;
  push_json = λ key payload e. (ok tt, e + 1);
  write_result = λ key payload e. (ok tt, e + 1);
}

abbrev counting-Quiet : Quiet counting (λ n. n ≡ 0)
counting-Quiet = record {
  uuid4 = λ e q. q;
  post = λ url body token e q. q;
  enter = λ e q. q;
  exit = λ x e q. q;
  frames = λ job r fs settings e q. q;
  final = λ r e q. q;
  action = λ a e q. q;
  mark = λ id e q. q;
}

abbrev metadata : VideoMetadata
metadata = record {
  job_id = "job";
  video_id = "video";
  duration_seconds = record { bits = 1000 };
  width = none;
  height = none;
  fps = none;
  codec_name = none;
  has_video_stream = true;
  frames_extracted = 1;
}

finalize_classification_order_example :
    Ordered settings counting
      (λ n. n ≡ 0)
      counting-Quiet
      (new_job request 1)
      porn_verdict
      (porn_result ∷ [])
      (finalize_classification settings counting
        (new_job request 1)
        metadata
        (porn_result ∷ [])
        porn_verdict
        0)
finalize_classification_order_example =
    finalize_classification_order settings counting (λ n. n ≡ 0) counting-Quiet (new_job request 1)
      porn_verdict (porn_result ∷ []) metadata 0 refl
