-- ===== src/Frames.antt =====
-- app/services/frame_extraction_service.py: the download of a video, and the frames and their
-- batches. The bytes that the server sends are a list of chunks, with the exception that ends the
-- stream, if one does.
pub mod Batches
pub mod Download
pub mod Probe
pub mod Commands
use ansuman_nsfw_detection_s.Base.{
  ℕ, zero, suc, ◌+◌, ◌<◌, String, Bool, Option, none, some, List, [], ◌∷◌, ◌++◌, length, take, drop,
  ◌==◌, if◌then◌else◌,
}
use ansuman_nsfw_detection_s.Base.Int.{ℤ, pos, negsuc, ltb_ℤ}
use ansuman_nsfw_detection_s.Float.{Double, FloatOps}
use ansuman_nsfw_detection_s.Errors.{
  PyException, app, other, Outcome, ok, raised, empty_video_download_error, video_too_large_error,
  video_extraction_error,
}

pub record ExtractedFrame : Type 0 where
  pub frame_index : ℕ
  pub timestamp_seconds : Double
  pub path : String

-- The frames of the paths in their order, from an index on.
unfoldable pub frames_from : FloatOps → ℕ → List String → List ExtractedFrame
frames_from float index [] = []
frames_from float index (path ∷ paths) =
    record { frame_index = index; timestamp_seconds = float.of_int index; path = path }
    ∷ frames_from float (suc index) paths

-- `sorted` on paths is a parameter.
unfoldable pub frames_from_paths :
    FloatOps → (List String → List String) → List String → List ExtractedFrame
frames_from_paths float sorted paths = frames_from float 0 (sorted paths)

module _ {A : Type 0} where
  -- The slices of a list, `batch_size` long, that begin at each multiple of it; the fuel is at least
  -- the length of the list.
  unfoldable pub slices : ℕ → ℕ → List A → List (List A)
  slices zero batch_size frames = []
  slices (suc f) batch_size [] = []
  slices (suc f) batch_size (x ∷ frames) =
      take batch_size (x ∷ frames) ∷ slices f batch_size (drop batch_size (x ∷ frames))

  -- `range` refuses the step 0, and is empty for a negative step.
  unfoldable pub frame_batches : ℤ → List A → Outcome (List (List A))
  unfolding slices
  frame_batches (pos zero) frames = raised (other "ValueError" "range() arg 3 must not be zero")
  frame_batches (pos (suc n)) frames = ok (slices (length frames) (suc n) frames)
  frame_batches (negsuc n) frames = ok []

abbrev pub Chunk : Type 0
Chunk = List ℕ

-- How the loop over the stream ends, with the bytes that were written to the file: after all chunks,
-- or by an exception.
pub record Written : Type 0 where
  pub file : List ℕ
  pub bytes_written : ℕ
  pub failure : Option PyException

unfoldable pub write_chunks : ℤ → ℕ → List ℕ → Option PyException → List Chunk → Written
write_chunks max_bytes count file ending [] = record {
  file = file;
  bytes_written = count;
  failure = ending;
}
write_chunks max_bytes count file ending (chunk ∷ chunks) =
    let count' = count + length chunk in
    let rest = write_chunks max_bytes count' (file ++ chunk) ending chunks in
    if ltb_ℤ max_bytes (pos count')
    then record {
      file = file;
      bytes_written = count';
      failure = some (app (video_too_large_error count'));
    }
    else rest

-- The end of a download: the loop's exception, or an error if no byte was written.
abbrev pub downloaded : Option PyException → Written → Outcome (List ℕ)
downloaded (some e) w = raised e
downloaded none w =
    if w.bytes_written == 0 then raised (app empty_video_download_error) else ok w.file

-- `download_video` once the response's status is accepted: the bytes of the file, or the exception.
unfoldable pub download_video : ℤ → Option PyException → List Chunk → Outcome (List ℕ)
download_video max_bytes ending chunks =
    let w = write_chunks max_bytes 0 [] ending chunks in downloaded w.failure w

-- `extract_frames` after ffmpeg: no frame is an error.
unfoldable pub require_frames : List ExtractedFrame → Outcome (List ExtractedFrame)
require_frames [] = raised (app (video_extraction_error "ffmpeg produced no frames"))
require_frames (f ∷ fs) = ok (f ∷ fs)
