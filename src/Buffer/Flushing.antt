-- ===== src/Buffer/Flushing.antt =====
-- What a flush takes out of a buffer.
use ansuman_nsfw_detection_s.Base.{
  ℕ, zero, suc, ◌≡◌, ◌≢◌, refl, sym, ap, subst, ◌∙◌, String, false, List, [], ◌∷◌, ◌++◌, take, drop,
  length, str_eq, eq_iff, inl, inr, Bool-cases, if◌then◌else◌, take-append-drop, drop-length-take,
}
use ansuman_nsfw_detection_s.Base.Dict.{insert, lookup-insert, string_eq}
use ansuman_nsfw_detection_s.Errors.{Outcome, ok, raised}
use ansuman_nsfw_detection_s.Json.{Fields}
use ansuman_nsfw_detection_s.Buffer.{
  Buffers, contents, push_json, read_batch, trim_batch, parse_rows, flush_table, flushed, inserted,
  trimmed,
}

contents-insert :
    (key k : String) (rows : List Fields) (b : Buffers)
    → contents k (insert key rows b) ≡ (if str_eq key k then rows else contents k b)
unfolding contents
contents-insert key k rows b = elim (Bool-cases (str_eq key k)) [
  | inl same ↦ rw (lookup-insert key k rows b, same) refl
  | inr other ↦ rw (lookup-insert key k rows b, other) refl
]

-- Payloads that are pushed one after the other, each under its own key.
unfoldable pub push_all : List (String × Fields) → Buffers → Buffers
push_all [] b = b
push_all ((key, payload) ∷ more) b = push_all more (push_json key payload b)

-- Those of a key.
unfoldable pub pushed : String → List (String × Fields) → List Fields
pushed k [] = []
pushed k ((key, payload) ∷ more) =
    let rest = pushed k more in if str_eq key k then payload ∷ rest else rest

append_assoc {ℓ} : {A : Type ℓ} (xs ys zs : List A) → (xs ++ ys) ++ zs ≡ xs ++ (ys ++ zs)
append_assoc [] ys zs = refl
append_assoc (x ∷ xs) ys zs = ap (λ r. x ∷ r) (append_assoc xs ys zs)

append-nil {ℓ} : {A : Type ℓ} (xs : List A) → xs ++ [] ≡ xs
append-nil [] = refl
append-nil (x ∷ xs) = ap (λ r. x ∷ r) (append-nil xs)

contents-push_all :
    (k : String) (ps : List (String × Fields)) (b : Buffers)
    → contents k (push_all ps b) ≡ contents k b ++ pushed k ps
unfolding push_all pushed push_json
contents-push_all k [] b = sym (append-nil (contents k b))
contents-push_all k ((key, payload) ∷ more) b =
    contents-push_all k more (push_json key payload b)
    ∙ rw (contents-insert key k (contents key b ++ payload ∷ []) b)
        (elim (Bool-cases (str_eq key k)) [
          | inl same ↦
              let eq = (eq_iff key k).0 same in
              rw (same) (
                append_assoc (contents key b) (payload ∷ []) (pushed k more)
                ∙ ap (λ i. contents i b ++ payload ∷ pushed k more) eq)
          | inr other ↦ rw (other) refl
        ])

drop-take_append {ℓ} :
    {A : Type ℓ} (n : ℕ) (xs ys : List A) → drop (length (take n xs)) (xs ++ ys) ≡ drop n xs ++ ys
drop-take_append zero xs ys = refl
drop-take_append (suc n) [] ys = refl
drop-take_append (suc n) (x ∷ xs) ys = drop-take_append n xs ys

-- Whatever is pushed between the reading of a batch and its trimming, the batch that was read is what is
-- taken away: the rest of the buffer and the new payloads stay, in order.
pub trim-read_batch :
    (key : String) (limit : ℕ) (ps : List (String × Fields)) (b : Buffers)
    → contents key (trim_batch key (length (read_batch key limit b)) (push_all ps b))
      ≡ drop limit (contents key b) ++ pushed key ps
unfolding trim_batch read_batch
trim-read_batch key limit ps b =
    contents-insert key key _ _
    ∙ rw ((eq_iff key key).1 refl, contents-push_all key ps b)
        (drop-take_append limit (contents key b) (pushed key ps))

module _ {E Row : Type 0} (validate : Fields → Outcome Row)
    (insert_rows : String → List Row → E → Outcome (Unit {0}) × E) (key table : String) (limit : ℕ)
    (b : Buffers) where
  -- What a flush does: one that raises leaves the buffers as they were; one that returns has taken a batch off the front
  -- of its own buffer alone, and each row of it was valid and handed to the insert, which succeeded.
  abbrev pub Taken : E → Outcome (Unit {0}) × Buffers × E → Type 0
  Taken e (raised x, b', e') = b' ≡ b
  Taken e (ok _, b', e') =
      (taken : List Fields) × (contents key b ≡ taken ++ contents key b')
      × (taken ≡ take limit (contents key b))
      × ((k : String) → str_eq key k ≡ false → contents k b' ≡ contents k b)
      × ((taken ≢ [])
          → (rows : List Row) × (parse_rows validate taken ≡ ok rows)
            × (insert_rows table rows e ≡ (ok tt, e')))

  trimmed-Taken :
      (rows : List Row) (e : E) (r : Outcome (Unit {0}) × E)
      → insert_rows table rows e ≡ r
      → parse_rows validate (read_batch key limit b) ≡ ok rows
      → Taken e (trimmed validate insert_rows key (length (read_batch key limit b)) r b)
  unfolding trim_batch read_batch
  trimmed-Taken rows e (raised x, e') went parsed = refl
  trimmed-Taken rows e (ok _, e') went parsed =
      let left : contents key (trim_batch key (length (take limit (contents key b))) b)
          ≡ drop limit (contents key b) =
        contents-insert key key _ _
        ∙ rw ((eq_iff key key).1 refl) (drop-length-take limit (contents key b)) in
      (
        take limit (contents key b),
        rw (left) (sym (take-append-drop limit (contents key b))),
        refl,
        λ k other. contents-insert key k _ _ ∙ rw (other) refl,
        λ _. (rows, parsed, went),
      )

  inserted-Taken :
      (e : E) (p : Outcome (List Row))
      → parse_rows validate (read_batch key limit b) ≡ p
      → Taken e (inserted validate insert_rows key table (length (read_batch key limit b)) p b e)
  inserted-Taken e (raised x) parsed = refl
  inserted-Taken e (ok rows) parsed = trimmed-Taken rows e (insert_rows table rows e) refl parsed

  flushed-Taken :
      (e : E) (rows : List Fields)
      → read_batch key limit b ≡ rows
      → Taken e (flushed validate insert_rows key table rows b e)
  unfolding read_batch
  flushed-Taken e [] read =
      ([], refl, sym read, λ k other. refl, λ some_taken. absurd (some_taken refl))
  flushed-Taken e (row ∷ rows) read =
      subst
        (λ rs.
          Taken e
            (inserted validate insert_rows key table (length rs) (parse_rows validate rs) b e))
        read (inserted-Taken e (parse_rows validate (read_batch key limit b)) refl)

  -- Whatever the checks of the rows and the inserts do, a flush of a table that raises leaves the buffers
  -- as they were; one that returns has taken the first rows of its own buffer, at most `limit` of them, and
  -- no others, and if there were any, all of them were valid and the insert of them succeeded.
  pub flush_table_lem : (e : E) → Taken e (flush_table validate insert_rows key table limit b e)
  unfolding flush_table
  flush_table_lem e = flushed-Taken e (read_batch key limit b) refl
