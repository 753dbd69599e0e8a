-- ===== src/Concurrency/Places.antt =====
-- The indices in flight when another index takes the place of one.
use esi_ts.Prelude.{
  ℕ, zero, suc, ◌+◌, ◌≡◌, refl, sym, ◌∙◌, ◌⊎◌, inl, inr, Bool, true, false, ◌||◌, Option, none,
  some, List, [], ◌∷◌, ◌++◌, arith, ◌==◌, ==_iff, some_inj, length, any,
}
use esi_ts.Concurrency.{at, replace}

abbrev pub is_in : ℕ → List ℕ → Bool
is_in j is = any (λ i. i == j) is

pub is_in-append : (j : ℕ) (is : List ℕ) (k : ℕ) → is_in j (is ++ (k ∷ [])) ≡ (is_in j is || k == j)
is_in-append j [] k = ground arith
is_in-append j (i ∷ is) k = ground (arith, is_in-append j is k)

pub length-replace-some :
    (place i : ℕ) (j : ℕ) (is : List ℕ)
    → at place is ≡ some i
    → length (replace place (some j) is) ≡ length is
unfolding at replace
length-replace-some place i j [] h = cc
length-replace-some zero i j (k ∷ is) h = omega arith
length-replace-some (suc place) i j (k ∷ is) h = omega (arith, length-replace-some place i j is h)

pub length-replace-none :
    (place i : ℕ) (is : List ℕ)
    → at place is ≡ some i
    → length (replace place none is) + 1 ≡ length is
unfolding at replace
length-replace-none place i [] h = cc
length-replace-none zero i (k ∷ is) h = omega arith
length-replace-none (suc place) i (k ∷ is) h = omega (arith, length-replace-none place i is h)

pub or_cases : (b c : Bool) → (b || c) ≡ true → (b ≡ true) ⊎ (c ≡ true)
or_cases true c h = inl refl
or_cases false c h = inr h

pub or_right : (b c : Bool) → c ≡ true → (b || c) ≡ true
or_right true c h = refl
or_right false c h = h

pub or_left : (b c : Bool) → b ≡ true → (b || c) ≡ true
or_left true c h = refl
or_left false c h = cc

-- An index in flight is still there unless it is the one that settled.
pub is_in-replace :
    (place i j : ℕ) (o : Option ℕ) (is : List ℕ)
    → at place is ≡ some i
    → is_in j is ≡ true
    → (i ≡ j) ⊎ (is_in j (replace place o is) ≡ true)
unfolding at replace
is_in-replace place i j o [] h k = cc
is_in-replace zero i j none (x ∷ is) h k = elim (or_cases (x == j) (is_in j is) k) [
  | inl same ↦ inl (sym (some_inj h) ∙ (==_iff x j).0 same)
  | inr later ↦ inr later
]
is_in-replace zero i j (some y) (x ∷ is) h k = elim (or_cases (x == j) (is_in j is) k) [
  | inl same ↦ inl (sym (some_inj h) ∙ (==_iff x j).0 same)
  | inr later ↦ inr (or_right (y == j) (is_in j is) later)
]
is_in-replace (suc place) i j o (x ∷ is) h k = elim (or_cases (x == j) (is_in j is) k) [
  | inl same ↦ inr (or_left (x == j) (is_in j (replace place o is)) same)
  | inr later ↦ elim (is_in-replace place i j o is h later) [
    | inl e ↦ inl e
    | inr there ↦ inr (or_right (x == j) (is_in j (replace place o is)) there)
  ]
]

pub is_in-replace_new :
    (place i j : ℕ) (is : List ℕ)
    → at place is ≡ some i
    → is_in j (replace place (some j) is) ≡ true
unfolding at replace
is_in-replace_new place i j [] h = cc
is_in-replace_new zero i j (x ∷ is) h = ground (arith, (==_iff j j).1 refl)
is_in-replace_new (suc place) i j (x ∷ is) h = ground (arith, is_in-replace_new place i j is h)
