-- ===== src/Batch/Chunks.antt =====
-- What the chunks of `batchPost` hold, and that their size does not change its result.
use esi_ts.Prelude.{
  ℕ, zero, suc, ◌+◌, ◌≤◌, ◌<◌, ◌≡◌, refl, sym, ap, ◌∙◌, inl, inr, Option, none, some, List, [], ◌∷◌,
  ◌++◌, map, arith, ltb, ltb→lt, lt→ltb, ltb-false, Bool-cases, length, take, drop, All,
}
use mathlib.Core.Path.{subst}
use esi_ts.Prelude.Lists.{take-append-drop, length-take, length-drop}
use esi_ts.Errors.{Result, ok}
use esi_ts.Batch.{chunks_from, chunks_of, post_all, batch_post}

unfoldable pub concat : List (List ℕ) → List ℕ
concat [] = []
concat (xs ∷ xss) = xs ++ concat xss

abbrev pub IsChunk : ℕ → List ℕ → Type 0
IsChunk size chunk = (1 ≤ length chunk) × (length chunk ≤ size)

abbrev Covers : ℕ → List ℕ → Option (List (List ℕ)) → Type 0
Covers size ids o =
    (chunks : List (List ℕ)) × (o ≡ some chunks) × (concat chunks ≡ ids) × All (IsChunk size) chunks

drop-all : (i : ℕ) (ids : List ℕ) → length ids ≤ i → drop i ids ≡ []
drop-all zero [] h = refl
drop-all zero (x ∷ xs) h = absurd (omega arith)
drop-all (suc i) [] h = refl
drop-all (suc i) (x ∷ xs) h = drop-all i xs (omega arith)

drop-nil : (n : ℕ) → drop {A = ℕ} n [] ≡ []
drop-nil zero = refl
drop-nil (suc n) = refl

drop-drop : (n i : ℕ) (ids : List ℕ) → drop n (drop i ids) ≡ drop (i + n) ids
drop-drop n zero ids = ap (λ k. drop k ids) (omega arith)
drop-drop n (suc i) [] = drop-nil n ∙ sym (drop-nil (suc i + n))
drop-drop n (suc i) (x ∷ xs) =
    let next : suc (i + n) ≡ suc i + n = omega arith in
    drop-drop n i xs ∙ ap (λ k. drop k (x ∷ xs)) next

Covers-cons :
    (size : ℕ) (chunk ids : List ℕ) (o : Option (List (List ℕ)))
    → IsChunk size chunk
    → Covers size ids o
    → Covers size (chunk ++ ids) (elim o [ none ↦ none | some chunks ↦ some (chunk ∷ chunks) ])
unfolding concat
Covers-cons size chunk ids o c (chunks, e, all, sized) =
    rw e (chunk ∷ chunks, refl, ap (λ l. chunk ++ l) all, (c, sized))

chunks_from-Covers :
    (fuel size : ℕ) (ids : List ℕ) (i : ℕ)
    → 1 ≤ size
    → 1 ≤ fuel
    → length ids < i + fuel
    → Covers size (drop i ids) (chunks_from fuel size ids i)
unfolding chunks_from concat
chunks_from-Covers zero size ids i pos some_fuel h = absurd (omega arith)
chunks_from-Covers (suc fuel) size ids i pos some_fuel h = elim (Bool-cases (ltb i (length ids))) [
  | inl more ↦
      let chunk = take size (drop i ids) in
      let rest =
        chunks_from-Covers fuel size ids (i + size) pos (omega (arith, ltb→lt _ _ more))
          (omega arith) in
      let here : IsChunk size chunk = (
        omega (arith, length-take size (drop i ids), length-drop i ids, ltb→lt _ _ more),
        omega (arith, length-take size (drop i ids)),
      ) in
      rw (more, chunks_from)
        (subst
          (λ l. Covers size l (elim (chunks_from fuel size ids (i + size)) [
            | none ↦ none
            | some chunks ↦ some (chunk ∷ chunks)
          ]))
          (ap (λ l. chunk ++ l) (sym (drop-drop size i ids)) ∙ take-append-drop size (drop i ids))
          (Covers-cons size chunk (drop (i + size) ids) _ here rest))
  | inr over ↦ rw (over, chunks_from) ([], refl, sym (drop-all i ids (ltb-false _ _ over)), tt)
]

-- With a chunk size of at least 1, `batchPost` splits the ids into chunks that have at least one id
-- and at most the chunk size, and that hold the ids in their order, each once.
pub chunks_cover :
    (chunk_size : ℕ) (ids : List ℕ)
    → 1 ≤ chunk_size
    → (chunks : List (List ℕ)) × (chunks_of chunk_size ids ≡ some chunks)
      × (concat chunks ≡ ids)
      × All (IsChunk chunk_size) chunks
unfolding chunks_of
chunks_cover chunk_size ids pos =
    chunks_from-Covers (length ids + 1) chunk_size ids 0 pos (omega arith) (omega arith)

map-append : {A B : Type 0} (f : A → B) (xs ys : List A) → map f (xs ++ ys) ≡ map f xs ++ map f ys
map-append f [] ys = refl
map-append f (x ∷ xs) ys = ap (λ l. f x ∷ l) (map-append f xs ys)

-- The posted chunks of a poster that answers for each id.
post_all-map :
    {T : Type 0} (poster : List ℕ → Result (List T)) (f : ℕ → T) (chunks : List (List ℕ))
    → ((chunk : List ℕ) → poster chunk ≡ ok (map f chunk))
    → post_all poster chunks ≡ ok (map f (concat chunks))
unfolding post_all concat
post_all-map poster f [] answers = refl
post_all-map poster f (chunk ∷ chunks) answers =
    rw (answers chunk, post_all-map poster f chunks answers, post_all)
      (ap ok (sym (map-append f chunk (concat chunks))))

-- If the endpoint answers a chunk with one item for each id in their order, `batchPost` with any
-- chunk size of at least 1 ends and resolves with the items of all ids in order, as one request with
-- all of them would.
pub batch_post-map :
    {T : Type 0} (ids : List ℕ) (poster : List ℕ → Result (List T)) (f : ℕ → T) (chunk_size : ℕ)
    → 1 ≤ chunk_size
    → ((chunk : List ℕ) → poster chunk ≡ ok (map f chunk))
    → batch_post ids poster chunk_size ≡ some (ok (map f ids))
unfolding batch_post
batch_post-map ids poster f chunk_size pos answers =
    let (chunks, e, all, sized) = chunks_cover chunk_size ids pos in
    rw (e, batch_post) (ap some (post_all-map poster f chunks answers ∙ ap (λ l. ok (map f l)) all))

stuck_at : (fuel x : ℕ) (ids : List ℕ) → chunks_from fuel 0 (x ∷ ids) 0 ≡ none
unfolding chunks_from
stuck_at zero x ids = refl
stuck_at (suc fuel) x ids = rw (stuck_at fuel x ids, lt→ltb 0 (length (x ∷ ids)) (omega arith)) refl

-- With a chunk size of 0 and at least one id, the loop that builds the chunks never ends: no
-- amount of fuel is enough.
pub zero_chunks_never_end :
    (fuel : ℕ) (ids : List ℕ) → 1 ≤ length ids → chunks_from fuel 0 ids 0 ≡ none
zero_chunks_never_end fuel [] h = absurd (omega arith)
zero_chunks_never_end fuel (x ∷ ids) h = stuck_at fuel x ids
