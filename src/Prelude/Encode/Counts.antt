-- ===== src/Prelude/Encode/Counts.antt =====
-- How often a character occurs in what is joined, encoded and replaced.
use esi_ts.Prelude.{
  ℕ, zero, suc, ◌+◌, ◌/◌, ◌%◌, ◌≤◌, Bool, true, false, Option, none, some, ltb, ◌==◌, if◌then◌else◌,
  ◌≡◌, refl, sym, ap, ◌∙◌, inl, inr, Bool-cases, arith, ==_iff, some_inj,
}
use Prim.Native.Char.{Char, code}
use Prim.Native.String.{String, [], ◌∷◌, ◌++◌}
use Prim.Native.String.append as append
use esi_ts.Prelude.Encode.{
  count, includes_char, char_at, hex_digits, percent, is_unreserved, escape, encode_char,
  encode_uri_component, strip_prefix, replace_first,
}

pub count-append : (x : ℕ) (s t : String) → count x (s ++ t) ≡ count x s + count x t
unfolding count
count-append x [] t = let e = ap (count x) (append.nil t) in omega (arith, e)
count-append x (c ∷ s) t =
    let rest = count-append x s t in ap (count x) (append.cons c s t) ∙ omega (arith, rest)

-- A character that encoding never writes.
pub record IsEscaped (x : ℕ) : Type 0 where
  pub reserved : is_unreserved x ≡ false
  pub no_percent : count x "%" ≡ 0
  pub no_digit : count x hex_digits ≡ 0

true≢false : true ≡ false → ⊥
true≢false e = cc

pub count_none : (x : ℕ) (s t : String) → count x s ≡ 0 → count x t ≡ 0 → count x (s ++ t) ≡ 0
count_none x s t a b = let e = count-append x s t in omega (arith, e, a, b)

count-char_at : (x n : ℕ) (s : String) → count x s ≡ 0 → count x (char_at n s) ≡ 0
unfolding count char_at
count-char_at x n [] h = refl
count-char_at x zero (c ∷ s) h = omega (arith, h)
count-char_at x (suc n) (c ∷ s) h = count-char_at x n s (omega (arith, h))

count-percent : (x n : ℕ) → IsEscaped x → count x (percent n) ≡ 0
count-percent x n e = count_none x _ _ e.no_percent (
    count_none x _ _ (count-char_at x (n / 16) hex_digits e.no_digit)
      (count-char_at x (n % 16) hex_digits e.no_digit))

count-escape : (x n : ℕ) → IsEscaped x → count x (escape n) ≡ 0
unfolding escape
count-escape x n e = elim (Bool-cases (ltb n 128)) [
  | inl p ↦ rw p (count-percent x n e)
  | inr p ↦ rw p (elim (Bool-cases (ltb n 2048)) [
    | inl q ↦ rw q (count_none x _ _ (count-percent x _ e) (count-percent x _ e))
    | inr q ↦ rw q (elim (Bool-cases (ltb n 65536)) [
      | inl r ↦ rw r (
          count_none x _ _ (count-percent x _ e)
            (count_none x _ _ (count-percent x _ e) (count-percent x _ e)))
      | inr r ↦ rw r (
          count_none x _ _ (count-percent x _ e) (
            count_none x _ _ (count-percent x _ e)
              (count_none x _ _ (count-percent x _ e) (count-percent x _ e))))
    ])
  ])
]

count_one :
    (x n : ℕ) → is_unreserved x ≡ false → is_unreserved n ≡ true → (if n == x then 1 else 0) + 0 ≡ 0
count_one x n h k = elim (Bool-cases (n == x)) [ inl e ↦ absurd (clash e) | inr e ↦ rw e refl ]
  where
    clash : (n == x) ≡ true → ⊥
    clash e = true≢false (sym k ∙ ap (λ m. is_unreserved m) ((==_iff n x).0 e) ∙ h)

count-encode_char : (x : ℕ) (c : Char) → IsEscaped x → count x (encode_char c) ≡ 0
unfolding count
count-encode_char x c e = elim (Bool-cases (is_unreserved (code c))) [
  | inl p ↦ rw p (count_one x (code c) e.reserved p)
  | inr p ↦ rw p (count-escape x (code c) e)
]

pub count-encode : (x : ℕ) (s : String) → IsEscaped x → count x (encode_uri_component s) ≡ 0
unfolding count encode_uri_component
count-encode x [] e = refl
count-encode x (c ∷ s) e =
    count_none x (encode_char c) _ (count-encode_char x c e) (count-encode x s e)

none≢some : {r : String} → none ≡ some r → ⊥
none≢some e = cc

abbrev occurs : ℕ → ℕ → ℕ
occurs x n = if n == x then 1 else 0

stripped :
    (x : ℕ) (p c : Char) (ps s r : String) (same : Bool)
    → (code p == code c) ≡ same
    → (strip_prefix ps s ≡ some r → count x s ≡ count x ps + count x r)
    → elim same [ true ↦ strip_prefix ps s | false ↦ none ] ≡ some r
    → count x (c ∷ s) ≡ count x (p ∷ ps) + count x r
unfolding count
stripped x p c ps s r true e rest h =
    let ih = rest h in
    let q = ap (λ n. occurs x n) ((==_iff (code p) (code c)).0 e) in omega (arith, ih, q)
stripped x p c ps s r false e rest h = absurd (none≢some h)

count-strip :
    (x : ℕ) (p s r : String) → strip_prefix p s ≡ some r → count x s ≡ count x p + count x r
unfolding count strip_prefix
count-strip x [] s r h = let e = ap (count x) (some_inj h) in omega (arith, e)
count-strip x (p ∷ ps) [] r h = absurd (none≢some h)
count-strip x (p ∷ ps) (c ∷ s) r h =
    stripped x p c ps s r (code p == code c) refl (count-strip x ps s r) h

replaced :
    (x : ℕ) (p new s kept : String) (o : Option String)
    → strip_prefix p s ≡ o
    → count x p ≡ 0
    → count x new ≡ 0
    → count x kept ≡ count x s
    → count x (elim o [ none ↦ kept | some rest ↦ new ++ rest ]) ≡ count x s
replaced x p new s kept none e hp hn hk = hk
replaced x p new s kept (some r) e hp hn hk =
    let a = count-append x new r in let b = count-strip x p s r e in omega (arith, a, b, hp, hn)

pub count-replace :
    (x : ℕ) (p new s : String)
    → count x p ≡ 0
    → count x new ≡ 0
    → count x (replace_first p new s) ≡ count x s
unfolding count replace_first
count-replace x p new [] hp hn = replaced x p new "" "" (strip_prefix p "") refl hp hn refl
count-replace x p new (c ∷ s) hp hn =
    let rest = count-replace x p new s hp hn in
    replaced x p new (c ∷ s) (c ∷ replace_first p new s) (strip_prefix p (c ∷ s)) refl hp hn
      (omega (arith, rest))

pub includes-count : (x : ℕ) (s : String) → includes_char x s ≡ false → count x s ≡ 0
unfolding count includes_char
includes-count x [] h = refl
includes-count x (c ∷ s) h =
    let rest = includes-count x s (ground (arith, h)) in
    let differs : (code c == x) ≡ false = ground (arith, h) in rw differs (omega (arith, rest))

percent-marks : (n : ℕ) → 1 ≤ count b'%' (percent n)
unfolding count
percent-marks n =
    let b = count-append b'%' "%" (char_at (n / 16) hex_digits ++ char_at (n % 16) hex_digits) in
    omega (arith, b)

marks-append : (s t : String) → 1 ≤ count b'%' s → 1 ≤ count b'%' (s ++ t)
marks-append s t h = let a = count-append b'%' s t in omega (arith, a, h)

escape-marks : (n : ℕ) → 1 ≤ count b'%' (escape n)
unfolding escape
escape-marks n = elim (Bool-cases (ltb n 128)) [
  | inl p ↦ rw p (percent-marks n)
  | inr p ↦ rw p (elim (Bool-cases (ltb n 2048)) [
    | inl q ↦ rw q (marks-append (percent (192 + n / 64)) _ (percent-marks _))
    | inr q ↦ rw q (elim (Bool-cases (ltb n 65536)) [
      | inl r ↦ rw r (marks-append (percent (224 + n / 4096)) _ (percent-marks _))
      | inr r ↦ rw r (marks-append (percent (240 + n / 262144)) _ (percent-marks _))
    ])
  ])
]

same-char :
    (c : Char) (s : String) (plain : Bool)
    → (count b'%' (encode_uri_component s) ≡ 0 → encode_uri_component s ≡ s)
    → count b'%' ((if plain then c ∷ "" else escape (code c)) ++ encode_uri_component s) ≡ 0
    → (if plain then c ∷ "" else escape (code c)) ++ encode_uri_component s ≡ c ∷ s
unfolding count
same-char c s true rest h =
    let a = count-append b'%' (c ∷ "") (encode_uri_component s) in
    append.cons c "" (encode_uri_component s)
    ∙ ap (λ t. c ∷ t) (append.nil (encode_uri_component s) ∙ rest (omega (arith, a, h)))
same-char c s false rest h = absurd (
    omega
      (arith, h, marks-append (escape (code c)) (encode_uri_component s) (escape-marks (code c))))

-- A text whose encoding escapes nothing is encoded as itself.
pub encode-same :
    (s : String) → count b'%' (encode_uri_component s) ≡ 0 → encode_uri_component s ≡ s
unfolding encode_uri_component
encode-same [] h = refl
encode-same (c ∷ s) h = same-char c s (is_unreserved (code c)) (encode-same s) h
