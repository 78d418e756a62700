-- ===== src/Frames/Commands.antt =====
-- app/utils/subprocess.py, and the calls of ffprobe and ffmpeg in
-- app/services/frame_extraction_service.py. The processes and the directories are parameters.
use Prim.Native.Char.{code}
use Prim.Native.String.{String}
use Prim.Native.String.{◌++◌ as text_append}
use ansuman_nsfw_detection_s.Base.{
  Bool, Option, none, some, List, [], ◌∷◌, str_eq, ◌==◌, if◌then◌else◌,
}
use ansuman_nsfw_detection_s.Float.{Double, FloatOps}
use ansuman_nsfw_detection_s.Errors.{
  Outcome, raised, PyException, app, other, class_name, text_of, video_probe_error,
  video_extraction_error,
}
use ansuman_nsfw_detection_s.Effects.{M, ◌>>=◌, ◌>>◌, pure, raise, lift, catching}
use ansuman_nsfw_detection_s.Settings.{Settings}
use ansuman_nsfw_detection_s.Json.{Json, object}
use ansuman_nsfw_detection_s.Models.{VideoMetadata}
use ansuman_nsfw_detection_s.Frames.{ExtractedFrame, frames_from_paths, require_frames}
use ansuman_nsfw_detection_s.Frames.Probe.{Numbers, parse_ffprobe_metadata}

-- What a process has written, as texts, and how it ended; the text of its exit code.
pub record Finished : Type 0 where
  pub stdout : String
  pub stderr : String
  pub succeeded : Bool
  pub exit_code : String

-- `create_subprocess_exec`, `wait_for(process.communicate(), timeout)`, `kill`, and `communicate` with
-- no limit; what is done to directories, the files of a directory, and the texts of paths.
pub record System (E : Type 0) : Type 0 where
  pub start : List String → M E (Unit {0})
  pub communicate : Double → M E Finished
  pub kill : M E (Unit {0})
  pub drain : M E (Unit {0})
  pub rmtree : String → M E (Unit {0})
  pub mkdir : String → M E (Unit {0})
  pub glob_frames : String → M E (List String)
  pub sorted : List String → List String

abbrev pub is_class : String → PyException → Bool
is_class name x = str_eq (class_name x) name

-- The id with "_" for every "/".
unfoldable pub safe_job_id : String → String
safe_job_id String.[] = String.[]
safe_job_id (String.◌∷◌ c s) =
    let rest = safe_job_id s in if code c == 47 then String.◌∷◌ "_" rest else String.◌∷◌ c rest

-- a / b on paths
abbrev pub joined : String → String → String
joined a b = text_append a (text_append "/" b)

unfoldable pub job_temp_dir : String → Settings → String
unfolding safe_job_id
job_temp_dir job_id settings = joined settings.video_temp_root (safe_job_id job_id)

module _ {E : Type 0} (system : System E) where
  abbrev on_timeout : PyException → M E Finished
  on_timeout x =
      if is_class "TimeoutError" x then (do system.kill; system.drain; raise x) else raise x

  abbrev failure_text : Finished → String
  failure_text p =
      if str_eq p.stderr ""
      then text_append "command failed with exit code " p.exit_code
      else p.stderr

  unfoldable pub run_subprocess : List String → Double → M E Finished
  run_subprocess command timeout_seconds = do
    system.start command
    p ← catching (system.communicate timeout_seconds) on_timeout
    if p.succeeded then pure p else raise (other "RuntimeError" (failure_text p))

  -- The two `except` clauses around a command.
  abbrev pub explained : {A : Type 0} → (String → PyException) → String → PyException → M E A
  explained error timed_out x =
      if is_class "TimeoutError" x
      then raise (error timed_out)
      else if is_class "RuntimeError" x
      then raise (error (text_of x))
      else raise x

  -- `cleanup_dir`, then the new directories.
  unfoldable pub prepare_job_dir : String → Settings → M E String
  unfolding job_temp_dir
  prepare_job_dir job_id settings = do
    let directory = job_temp_dir job_id settings
    system.rmtree directory
    system.mkdir (joined directory "frames")
    pure directory

  unfoldable pub extract_frames : FloatOps → Settings → String → String → M E (List ExtractedFrame)
  unfolding run_subprocess frames_from_paths require_frames
  extract_frames ops settings source_path frames_dir = do
    system.mkdir frames_dir
    catching
        (run_subprocess
          ("ffmpeg"
            ∷ "-loglevel"
            ∷ "error"
            ∷ "-i"
            ∷ source_path
            ∷ "-vf"
            ∷ "fps=1"
            ∷ "-q:v"
            ∷ "3"
            ∷ joined frames_dir "frame-%06d.jpg"
            ∷ [])
          settings.ffmpeg_timeout_seconds)
        (explained (λ text. app (video_extraction_error text)) "ffmpeg timed out")
    paths ← system.glob_frames frames_dir
    lift (require_frames (frames_from_paths ops system.sorted paths))

  -- `json.loads`, with None for JSONDecodeError, is a parameter; only a dict has `get`.
  abbrev probed : FloatOps → Numbers → String → String → Option Json → Outcome VideoMetadata
  probed ops numbers job_id video_id none =
      raised (app (video_probe_error "ffprobe returned invalid JSON"))
  probed ops numbers job_id video_id (some (object payload)) =
      parse_ffprobe_metadata ops numbers job_id video_id payload
  probed ops numbers job_id video_id (some _) = raised (other "AttributeError" "get")

  unfoldable pub probe :
      FloatOps
      → Numbers
      → (String → Option Json)
      → Settings
      → String
      → String
      → String
      → M E VideoMetadata
  unfolding run_subprocess parse_ffprobe_metadata
  probe ops numbers loads settings job_id video_id source_path = do
    result ←
        catching
          (run_subprocess
            ("ffprobe" ∷ "-v" ∷ "error" ∷ "-print_format" ∷ "json" ∷ "-show_format"
              ∷ "-show_streams" ∷ source_path ∷ [])
            settings.ffprobe_timeout_seconds)
          (explained (λ text. app (video_probe_error text)) "ffprobe timed out")
    lift (probed ops numbers job_id video_id (loads result.stdout))
