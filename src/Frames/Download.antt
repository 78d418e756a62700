-- ===== src/Frames/Download.antt =====
-- What a download keeps of the bytes that it is sent.
use ansuman_nsfw_detection_s.Base.{
  ◌==◌, ==_iff, false, ℕ, ◌+◌, ◌≤◌, ◌<◌, ◌≡◌, refl, ap, sym, ◌∙◌, inl, inr, ◌↔◌, Option, none, some,
  List, [], ◌∷◌, ◌++◌, arith, length, concat, length-append, Bool-cases,
}
use native.Mathlib.Nat.{zero-add, add-zero, add_assoc}
use native.Mathlib.Decide.{dec_le}
use mathlib.Core.List.{append-nil, append_assoc}
use ansuman_nsfw_detection_s.Base.Int.{pos, ltb_ℤ}
use ansuman_nsfw_detection_s.Errors.{
  PyException, app, ok, raised, video_too_large_error, ok-injective,
}
use ansuman_nsfw_detection_s.Frames.{Chunk, write_chunks, downloaded, download_video}

-- Within the limit every chunk is written, and the stream's own end is the loop's.
write_chunks_fits :
    (m n : ℕ) (file : List ℕ) (ending : Option PyException) (chunks : List Chunk)
    → n + length (concat chunks) ≤ m
    → write_chunks (pos m) n file ending chunks ≡ record {
      file = file ++ concat chunks;
      bytes_written = n + length (concat chunks);
      failure = ending;
    }
unfolding write_chunks
write_chunks_fits m n file ending [] h = cc (append-nil file, add-zero n)
write_chunks_fits m n file ending (c ∷ cs) h =
    let longer = length-append c (concat cs) in
    let fits : ltb_ℤ (pos m) (pos (n + length c)) ≡ false = ground arith in
    rw fits (
      write_chunks_fits m (n + length c) (file ++ c) ending cs (omega arith)
      ∙ cc (append_assoc file c (concat cs), longer, add_assoc n (length c) (length (concat cs))))

-- Past the limit the loop stops with an error before it writes the chunk that passes it.
write_chunks_exceeds :
    (m n : ℕ) (file : List ℕ) (ending : Option PyException) (chunks : List Chunk)
    → m < n + length (concat chunks)
    → n ≤ m
    → length file ≡ n
    → let w = write_chunks (pos m) n file ending chunks in
      (length w.file ≤ m)
      × (w.failure ≡ some (app (video_too_large_error w.bytes_written)))
      × (m < w.bytes_written)
unfolding write_chunks
write_chunks_exceeds m n file ending [] h le e = absurd (omega arith)
write_chunks_exceeds m n file ending (c ∷ cs) h le e =
    elim (Bool-cases (ltb_ℤ (pos m) (pos (n + length c)))) [
      | inl past ↦ rw past (omega arith, refl, ground arith)
      | inr fits ↦ rw fits (
          write_chunks_exceeds m (n + length c) (file ++ c) ending cs
            (omega (arith, length-append c (concat cs))) (ground arith)
            (omega (arith, length-append file c)))
    ]

-- With a limit of `m` bytes, a stream of more ends the download with "video too large".
download_too_large :
    (m : ℕ) (ending : Option PyException) (chunks : List Chunk)
    → m < length (concat chunks)
    → (n : ℕ) × (m < n)
      × (download_video (pos m) ending chunks ≡ raised (app (video_too_large_error n)))
unfolding download_video
download_too_large m ending chunks h =
    let (_, failed, over) =
      write_chunks_exceeds m 0 [] ending chunks (omega arith) (omega arith) refl in
    (
      (write_chunks (pos m) 0 [] ending chunks).bytes_written,
      over,
      rw (failed, download_video) refl,
    )

download_fits :
    (m : ℕ) (ending : Option PyException) (chunks : List Chunk)
    → length (concat chunks) ≤ m
    → download_video (pos m) ending chunks
      ≡ downloaded ending (record {
        file = concat chunks;
        bytes_written = length (concat chunks);
        failure = ending;
      })
unfolding download_video
download_fits m ending chunks h =
    let e = write_chunks_fits m 0 [] ending chunks (omega arith) in rw (e, download_video, zero-add)

downloaded_iff :
    (m : ℕ) (ending : Option PyException) (bytes file : List ℕ)
    → length bytes ≤ m
    → (downloaded ending (record { file = bytes; bytes_written = length bytes; failure = ending })
        ≡ ok file)
      ↔ ((file ≡ bytes) × (ending ≡ none) × (0 < length file) × (length file ≤ m))
downloaded_iff m (some e) bytes file fits = (λ h. cc, λ (_, ended, _, _). cc)
downloaded_iff m none bytes file fits = elim (Bool-cases (length bytes == 0)) [
  | inl zero_bytes ↦ rw zero_bytes (
    λ h. cc,
    λ (same, _, positive, _).
        absurd (omega (arith, ap length same, (==_iff (length bytes) 0).0 zero_bytes)),
  )
  | inr some_bytes ↦ rw some_bytes (
    λ h.
        let same = sym (ok-injective h) in
        let nonzero : 0 < length bytes = ground arith in
        (same, refl, omega (arith, ap length same), omega (arith, ap length same)),
    λ (same, _, _, _). ap ok (sym same),
  )
]

-- A download succeeds exactly if the stream ends well with at least one byte and at most as many as
-- the limit, and then the file holds all the bytes in order.
pub download_video_iff :
    (m : ℕ) (ending : Option PyException) (chunks : List Chunk) (file : List ℕ)
    → (download_video (pos m) ending chunks ≡ ok file)
      ↔ ((file ≡ concat chunks) × (ending ≡ none) × (0 < length file) × (length file ≤ m))
download_video_iff m ending chunks file = elim (dec_le (length (concat chunks)) m) [
  | yes fits ↦
      rw (download_fits m ending chunks fits) (downloaded_iff m ending (concat chunks) file fits)
  | no past ↦
      let (n, _, e) = download_too_large m ending chunks (omega arith) in
      rw e (λ h. cc, λ (same, _, _, le). absurd (omega (arith, ap length same)))
]
