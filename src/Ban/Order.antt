-- ===== src/Ban/Order.antt =====
-- The order of a ban's writes.
use ansuman_nsfw_detection_s.Base.{
  ◌⊎◌, inl, inr, subst, ◌≡◌, true, refl, ◌∙◌, String, List, [], ◌∷◌, ◌++◌,
}
use ansuman_nsfw_detection_s.Float.{FloatOps}
use ansuman_nsfw_detection_s.Errors.{Outcome, ok, raised, PyException}
use ansuman_nsfw_detection_s.Effects.{M, after, pure}
use ansuman_nsfw_detection_s.Settings.{Settings}
use ansuman_nsfw_detection_s.Models.{Datetime}
use ansuman_nsfw_detection_s.Schemas.{VideoBanRequest}
use ansuman_nsfw_detection_s.Legacy.{LegacyNsfwAggRow}
use ansuman_nsfw_detection_s.Ban.{
  ExcludedVideoRow, ManualBanResult, excluded_row, banned_legacy_row, ban_video,
}

-- A table after an insert of rows: it has them, or the insert raised and left it as it was. An insert
-- that raises may have written them, as one does whose answer came too late.
abbrev pub Inserted : {A : Type 0} → Outcome (Unit {0}) → List A → List A → List A → Type 0
Inserted out rows old new =
    (new ≡ old ++ rows) ⊎ (((x : PyException) × (out ≡ raised x)) × (new ≡ old))

-- The rows in the two tables of a ban; an insert leaves the other table alone.
pub record Tables {E : Type 0} (settings : Settings)
    (insert_excluded : String → List ExcludedVideoRow → M E (Unit {0}))
    (insert_legacy : String → List LegacyNsfwAggRow → M E (Unit {0})) : Type 0 where
  pub excluded : E → List ExcludedVideoRow
  pub legacy : E → List LegacyNsfwAggRow
  pub excluded-insert :
      (rows : List ExcludedVideoRow) (e : E)
      → let out = insert_excluded settings.clickhouse_excluded_videos_table rows e in
        Inserted out.0 rows (excluded e) (excluded out.1)
  pub legacy_kept :
      (rows : List ExcludedVideoRow) (e : E)
      → legacy (insert_excluded settings.clickhouse_excluded_videos_table rows e).1 ≡ legacy e
  pub legacy-insert :
      (rows : List LegacyNsfwAggRow) (e : E)
      → let out = insert_legacy settings.clickhouse_nsfw_agg_table rows e in
        Inserted out.0 rows (legacy e) (legacy out.1)
  pub excluded_kept :
      (rows : List LegacyNsfwAggRow) (e : E)
      → excluded (insert_legacy settings.clickhouse_nsfw_agg_table rows e).1 ≡ excluded e

module _ {E : Type 0} (float : FloatOps) (settings : Settings)
    (insert_excluded : String → List ExcludedVideoRow → M E (Unit {0}))
    (insert_legacy : String → List LegacyNsfwAggRow → M E (Unit {0}))
    (tables : Tables settings insert_excluded insert_legacy) (video_id : String)
    (request : VideoBanRequest) (now : Datetime) (e : E) where
  abbrev old_legacy : List LegacyNsfwAggRow
  old_legacy = tables.legacy e

  abbrev old_excluded : List ExcludedVideoRow
  old_excluded = tables.excluded e

  abbrev legacy_rows : List LegacyNsfwAggRow
  legacy_rows = banned_legacy_row float video_id ∷ []

  abbrev excluded_rows : List ExcludedVideoRow
  excluded_rows = excluded_row video_id now ∷ []

  -- How a ban ends: it raises with nothing written, or with the legacy row alone, or with both rows; or it
  -- answers, with both rows.
  pub data Ending (out : Outcome ManualBanResult × E) : Type 0 where
    nothing :
        (x : PyException)
        → out.0 ≡ raised x
        → tables.legacy out.1 ≡ old_legacy
        → tables.excluded out.1 ≡ old_excluded
        → Ending out
    legacy_only :
        (x : PyException)
        → out.0 ≡ raised x
        → tables.legacy out.1 ≡ old_legacy ++ legacy_rows
        → tables.excluded out.1 ≡ old_excluded
        → Ending out
    both_raised :
        (x : PyException)
        → out.0 ≡ raised x
        → tables.legacy out.1 ≡ old_legacy ++ legacy_rows
        → tables.excluded out.1 ≡ old_excluded ++ excluded_rows
        → Ending out
    both :
        (result : ManualBanResult)
        → out.0 ≡ ok result
        → result.video_id ≡ video_id
        → tables.legacy out.1 ≡ old_legacy ++ legacy_rows
        → tables.excluded out.1 ≡ old_excluded ++ excluded_rows
        → Ending out

  abbrev answered : Outcome (Unit {0}) × E → Outcome ManualBanResult × E
  answered out = after out (λ _. pure (record {
    video_id = video_id;
    status = "banned";
    excluded_videos_written = true;
    legacy_nsfw_agg_written = true;
    trace_id = request.trace_id;
  }))

  second :
      (out : Outcome (Unit {0}) × E)
      → tables.legacy out.1 ≡ old_legacy ++ legacy_rows
      → Inserted out.0 excluded_rows old_excluded (tables.excluded out.1)
      → Ending (answered out)
  second (ok _, e') legacy (inl written) = both _ refl refl legacy written
  second (ok _, e') legacy (inr ((x, wrong), kept)) = absurd (cc)
  second (raised x, e') legacy (inl written) = both_raised x refl legacy written
  second (raised x, e') legacy (inr (_, kept)) = legacy_only x refl legacy kept

  second_insert :
      (e' : E)
      → tables.legacy e' ≡ old_legacy ++ legacy_rows
      → tables.excluded e' ≡ old_excluded
      → Ending
          (answered (insert_excluded settings.clickhouse_excluded_videos_table excluded_rows e'))
  second_insert e' legacy excluded =
      let out = insert_excluded settings.clickhouse_excluded_videos_table excluded_rows e' in
      second out (tables.legacy_kept excluded_rows e' ∙ legacy) (
        subst (λ l. Inserted out.0 excluded_rows l (tables.excluded out.1)) excluded
          (tables.excluded-insert excluded_rows e'))

  first :
      (out : Outcome (Unit {0}) × E)
      → insert_legacy settings.clickhouse_nsfw_agg_table legacy_rows e ≡ out
      → Inserted out.0 legacy_rows old_legacy (tables.legacy out.1)
      → tables.excluded out.1 ≡ old_excluded
      → Ending (ban_video float settings insert_excluded insert_legacy video_id request now e)
  unfolding ban_video
  first (ok _, e') went (inl written) kept = rw (went, ban_video) (second_insert e' written kept)
  first (ok _, e') went (inr ((x, wrong), _)) kept = absurd (cc)
  first (raised x, e') went (inl written) kept =
      rw (went, ban_video) (legacy_only x refl written kept)
  first (raised x, e') went (inr (_, same)) kept = rw (went, ban_video) (nothing x refl same kept)

  -- Where an insert that returns has added its rows, and one that raises has added them or left its table alone, a ban raises with nothing written, with the legacy row alone, or with both rows, or it answers for the video with both rows written: a video is never excluded without its legacy row.
  pub ban_video-Ending :
      Ending (ban_video float settings insert_excluded insert_legacy video_id request now e)
  ban_video-Ending =
      first _ refl (tables.legacy-insert legacy_rows e) (tables.excluded_kept legacy_rows e)
