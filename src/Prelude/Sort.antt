-- ===== src/Prelude/Sort.antt =====
-- Python's `sorted`, by an order on the elements, and `sorted` of a set of texts.
use observability_kit.Prelude.Lists.{elem}
use observability_kit.Prelude.Tests.{if◌then◌else◌, Bool-cases}
use Prim.Native.Nat.{ℕ, suc, ◌+◌, Ordering}
use Prim.Native.String.{String, compare}
use mathlib.Core.Path.{◌≡◌, refl, ap, sym, ◌∙◌}
use mathlib.Core.Logic.{inl, inr}
use mathlib.Core.Bool.{Bool, true, false, ◌||◌, not}
use mathlib.Core.List.{List, [], ◌∷◌, ◌++◌}
use native.Mathlib.Omega.{arith}
use text.Mathlib.Text.{◌==◌}
use text.Mathlib.TextEquality.{eq_iff}

module _ {ℓ} {A : Type ℓ} where
  unfoldable pub insert_by : (A → A → Bool) → A → List A → List A
  insert_by le x [] = x ∷ []
  insert_by le x (y ∷ ys) = let rest = insert_by le x ys in if le x y then x ∷ y ∷ ys else y ∷ rest

  unfoldable pub sort_by : (A → A → Bool) → List A → List A
  sort_by le [] = []
  sort_by le (x ∷ xs) = insert_by le x (sort_by le xs)

  unfoldable pub count : (A → Bool) → List A → ℕ
  count p [] = 0
  count p (x ∷ xs) = let rest = count p xs in if p x then suc rest else rest

  pub count-append : (p : A → Bool) (xs ys : List A) → count p (xs ++ ys) ≡ count p xs + count p ys
  unfolding count
  count-append p [] ys = omega arith
  count-append p (x ∷ xs) ys = ground (arith, count-append p xs ys)

  count-insert_by :
      (le : A → A → Bool) (p : A → Bool) (x : A) (xs : List A)
      → count p (insert_by le x xs) ≡ (if p x then suc (count p xs) else count p xs)
  unfolding count insert_by
  count-insert_by le p x [] = refl
  count-insert_by le p x (y ∷ ys) = elim (Bool-cases (le x y)) [
    | inl e ↦ rw e refl
    | inr e ↦ rw e (ground (arith, count-insert_by le p x ys))
  ]

  -- Sorting keeps the number of the elements that satisfy a test.
  pub count-sort_by :
      (le : A → A → Bool) (p : A → Bool) (xs : List A) → count p (sort_by le xs) ≡ count p xs
  unfolding count sort_by
  count-sort_by le p [] = refl
  count-sort_by le p (x ∷ xs) =
      ground (arith, count-insert_by le p x (sort_by le xs), count-sort_by le p xs)

module _ {ℓ κ} {A : Type ℓ} (P : A → Type κ) where
  abbrev pub All : List A → Type κ
  All [] = Unit
  All (x ∷ xs) = P x × All xs

  pub All-append : (xs ys : List A) → All xs → All ys → All (xs ++ ys)
  All-append [] ys h k = k
  All-append (x ∷ xs) ys h k = (h.0, All-append xs ys h.1 k)

  All-insert_by : (le : A → A → Bool) (x : A) (xs : List A) → P x → All xs → All (insert_by le x xs)
  unfolding insert_by
  All-insert_by le x [] h k = (h, tt)
  All-insert_by le x (y ∷ ys) h k = elim (Bool-cases (le x y)) [
    | inl e ↦ rw e (h, k)
    | inr e ↦ rw e (k.0, All-insert_by le x ys h k.1)
  ]

  pub All-sort_by : (le : A → A → Bool) (xs : List A) → All xs → All (sort_by le xs)
  unfolding sort_by
  All-sort_by le [] h = tt
  All-sort_by le (x ∷ xs) h = All-insert_by le x (sort_by le xs) h.0 (All-sort_by le xs h.1)

abbrev pub is_lt : String → String → Bool
is_lt s t = elim (compare s t) [ Ordering.lt ↦ true | _ ↦ false ]

abbrev pub text_le : String → String → Bool
text_le s t = not (is_lt t s)

-- The elements of a set of texts.
unfoldable pub distinct : List String → List String
distinct [] = []
distinct (x ∷ xs) = let rest = distinct xs in if elem x xs then rest else x ∷ rest

-- `sorted(set(xs))`
abbrev pub sorted_set : List String → List String
sorted_set xs = sort_by text_le (distinct xs)

elem_same : (x t : String) (xs : List String) → (x == t) ≡ true → elem x xs ≡ elem t xs
elem_same x t xs h = ap (λ y. elem y xs) ((eq_iff x t).0 h)

repeated :
    (same there : Bool) (n : ℕ)
    → n ≡ (if there then 1 else 0)
    → (same ≡ true → there ≡ true)
    → n ≡ (if same || there then 1 else 0)
repeated true there n h k = rw (h, k refl) refl
repeated false there n h k = h

fresh :
    (same there : Bool) (n : ℕ)
    → n ≡ (if there then 1 else 0)
    → (same ≡ true → there ≡ false)
    → (if same then suc n else n) ≡ (if same || there then 1 else 0)
fresh true there n h k = rw (h, k refl) refl
fresh false there n h k = h

count-distinct :
    (t : String) (xs : List String)
    → count (λ x. x == t) (distinct xs) ≡ (if elem t xs then 1 else 0)
unfolding count distinct
count-distinct t [] = refl
count-distinct t (x ∷ xs) = elim (Bool-cases (elem x xs)) [
  | inl e ↦ rw e (
      repeated (x == t) (elem t xs) _ (count-distinct t xs)
        (λ same. sym (elem_same x t xs same) ∙ e))
  | inr e ↦
      rw e (
        fresh (x == t) (elem t xs) _ (count-distinct t xs)
          (λ same. sym (elem_same x t xs same) ∙ e))
]

pub count-sorted_set :
    (t : String) (xs : List String)
    → count (λ x. x == t) (sorted_set xs) ≡ (if elem t xs then 1 else 0)
count-sorted_set t xs = count-sort_by text_le (λ x. x == t) (distinct xs) ∙ count-distinct t xs
