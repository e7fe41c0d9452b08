-- ===== src/AiRuntime/Truncation/Laws.antt =====
-- The bounded copy is bounded, and as clean as what it copies.
use observability_kit.Prelude.{
  ℕ, zero, suc, ◌≤◌, String, false, ◌==◌, ◌≡◌, refl, ap, ◌∙◌, Bool-cases, inl, inr, ltb, arith,
}
use observability_kit.Json.{
  Json, null, bool, int, float, str, arr, obj, Items, nil, cons, Fields, end, field, get_item,
}
use observability_kit.AiRuntime.Truncation.{
  max_response_items, count_items, truncate, truncate_items, truncate_fields, truncations,
  item_truncations, field_truncations,
}
use observability_kit.AiRuntime.Redaction.{is_restricted}
use observability_kit.AiRuntime.Redaction.Clean.{IsClean, AreClean, HasClean}

-- Every list, at any depth, has at most `max_response_items` items.
abbrev mutual
  pub IsBounded : Json → Type 0
  IsBounded (arr xs) = (count_items xs ≤ max_response_items) × AreBounded xs
  IsBounded (obj fs) = HasBounded fs
  IsBounded _ = Unit

  pub AreBounded : Items → Type 0
  AreBounded nil = Unit
  AreBounded (cons x xs) = IsBounded x × AreBounded xs

  pub HasBounded : Fields → Type 0
  HasBounded end = Unit
  HasBounded (field k v fs) = IsBounded v × HasBounded fs

count-truncate_items : (n : ℕ) (xs : Items) → count_items (truncate_items n xs) ≤ n
unfolding truncate_items
count-truncate_items zero xs = omega arith
count-truncate_items (suc n) nil = omega arith
count-truncate_items (suc n) (cons x xs) = omega (arith, count-truncate_items n xs)

mutual
  unfolding truncate

  bounded : (j : Json) → IsBounded (truncate j)
  bounded (arr xs) =
      (count-truncate_items max_response_items xs, bounded_items max_response_items xs)
  bounded (obj fs) = bounded_fields fs
  bounded null = tt
  bounded (bool x) = tt
  bounded (int x) = tt
  bounded (float x) = tt
  bounded (str x) = tt

  bounded_items : (n : ℕ) (xs : Items) → AreBounded (truncate_items n xs)
  bounded_items zero xs = tt
  bounded_items (suc n) nil = tt
  bounded_items (suc n) (cons x xs) = (bounded x, bounded_items n xs)

  bounded_fields : (fs : Fields) → HasBounded (truncate_fields fs)
  bounded_fields end = tt
  bounded_fields (field k v fs) = (bounded v, bounded_fields fs)

mutual
  unfolding truncate truncations

  same : (j : Json) → IsBounded j → (truncate j ≡ j) × (truncations j ≡ 0)
  same (arr xs) h =
      let (items, none_cut) = same_items max_response_items xs h.0 h.1 in
      let not_cut : ltb 500 (count_items xs) ≡ false = ground (arith, h.0) in
      (ap arr items, rw (not_cut, none_cut) refl)
  same (obj fs) h = let (fields, none_cut) = same_fields fs h in (ap obj fields, none_cut)
  same null h = (refl, refl)
  same (bool x) h = (refl, refl)
  same (int x) h = (refl, refl)
  same (float x) h = (refl, refl)
  same (str x) h = (refl, refl)

  same_items :
      (n : ℕ) (xs : Items)
      → count_items xs ≤ n
      → AreBounded xs
      → (truncate_items n xs ≡ xs) × (item_truncations n xs ≡ 0)
  same_items zero nil l h = (refl, refl)
  same_items zero (cons x xs) l h = absurd (omega arith)
  same_items (suc n) nil l h = (refl, refl)
  same_items (suc n) (cons x xs) l h =
      let (first, first_uncut) = same x h.0 in
      let (rest, rest_uncut) = same_items n xs (omega arith) h.1 in
      (rw (first, rest) refl, rw (first_uncut, rest_uncut) refl)

  same_fields :
      (fs : Fields) → HasBounded fs → (truncate_fields fs ≡ fs) × (field_truncations fs ≡ 0)
  same_fields end h = (refl, refl)
  same_fields (field k v fs) h =
      let (first, first_uncut) = same v h.0 in
      let (rest, rest_uncut) = same_fields fs h.1 in
      (rw (first, rest) refl, rw (first_uncut, rest_uncut) refl)

-- Every list of a bounded copy has at most 500 items, at any depth.
pub truncate-IsBounded : (j : Json) → IsBounded (truncate j)
truncate-IsBounded = bounded

-- A value whose lists are within the bound is copied as it is, and no list counts as cut.
pub truncate-bounded : (j : Json) → IsBounded j → (truncate j ≡ j) × (truncations j ≡ 0)
truncate-bounded = same

restricted-truncate : (j : Json) → is_restricted j ≡ false → is_restricted (truncate j) ≡ false
unfolding truncate is_restricted
restricted-truncate (arr xs) h = h
restricted-truncate (obj fs) h = h
restricted-truncate (str s) h = h
restricted-truncate _ h = h

get_item-truncate :
    (k : String) (fs : Fields) → get_item k (truncate_fields fs) ≡ truncate (get_item k fs)
unfolding truncate
get_item-truncate k end = refl
get_item-truncate k (field j v fs) = elim (Bool-cases (j == k)) [
  | inl e ↦ rw e refl
  | inr e ↦ rw e (get_item-truncate k fs)
]

mutual
  unfolding truncate

  clean : (j : Json) → IsClean j → IsClean (truncate j)
  clean (arr xs) h = clean_items max_response_items xs h
  clean (obj fs) h = (
    ap is_restricted (get_item-truncate "domain" fs)
        ∙ restricted-truncate (get_item "domain" fs) h.0,
    clean_fields fs h.1,
  )
  clean null h = tt
  clean (bool x) h = tt
  clean (int x) h = tt
  clean (float x) h = tt
  clean (str x) h = tt

  clean_items : (n : ℕ) (xs : Items) → AreClean xs → AreClean (truncate_items n xs)
  clean_items zero xs h = tt
  clean_items (suc n) nil h = tt
  clean_items (suc n) (cons x xs) h = (clean x h.0, clean_items n xs h.1)

  clean_fields : (fs : Fields) → HasClean fs → HasClean (truncate_fields fs)
  clean_fields end h = tt
  clean_fields (field k v fs) h =
      ((λ secret. ap truncate (h.0 secret)), clean v h.1, clean_fields fs h.2)

pub truncate-IsClean : (j : Json) → IsClean j → IsClean (truncate j)
truncate-IsClean = clean
