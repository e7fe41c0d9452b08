-- ===== src/Commercial/Invoice/Grouping.antt =====
-- The grouping of the records by dimension and signal.
use observability_kit.Prelude.{
  ℕ, suc, ◌+◌, String, Bool, true, false, ◌||◌, List, [], ◌∷◌, ◌++◌, ◌==◌, ◌≡◌, inl, inr, refl, ap,
  ◌∙◌, Bool-cases, length, length-append, eq_iff, eq_refl, arith, if◌then◌else◌,
}
use observability_kit.Commercial.Models.{UsageRecord}
use observability_kit.Commercial.Invoice.{
  Key, same_key, key_le, Groups, key_of, append_group, group_from, insert_group, sort_groups,
}

plus_zero : (n : ℕ) → 0 + n ≡ n
plus_zero n = omega arith

pub append_nil : {A : Type 0} (xs : List A) → xs ++ [] ≡ xs
append_nil [] = refl
append_nil (x ∷ xs) = ap (λ ys. x ∷ ys) (append_nil xs)

pub same_key-eq : (j k : Key) → same_key j k ≡ true → j ≡ k
unfolding same_key
same_key-eq j k h =
    let d : j.dimension ≡ k.dimension = (eq_iff j.dimension k.dimension).0 (ground arith) in
    let s : j.signal ≡ k.signal = (eq_iff j.signal k.signal).0 (ground arith) in cc

pub same_key_refl : (k : Key) → same_key k k ≡ true
unfolding same_key
same_key_refl k = rw (eq_refl k.dimension, eq_refl k.signal) refl

eq_comm : (s t : String) → (s == t) ≡ (t == s)
eq_comm s t = ground (arith, eq_iff s t, eq_iff t s)

pub same_key_comm : (j k : Key) → same_key j k ≡ same_key k j
unfolding same_key
same_key_comm j k = rw (eq_comm j.dimension k.dimension, eq_comm j.signal k.signal) refl

module _ {F : Type 0} where
  -- The records of a key, in their order.
  unfoldable pub records_of : Key → List (UsageRecord F) → List (UsageRecord F)
  records_of k [] = []
  records_of k (r ∷ rs) =
      let rest = records_of k rs in if same_key (key_of r) k then r ∷ rest else rest

  -- The number of records in the groups.
  unfoldable pub size : Groups F → ℕ
  size [] = 0
  size ((k, rs) ∷ gs) = length rs + size gs

  -- The records of the key's first group.
  unfoldable find_group : Key → Groups F → List (UsageRecord F)
  find_group k [] = []
  find_group k ((j, rs) ∷ gs) = let rest = find_group k gs in if same_key j k then rs else rest

  unfoldable pub has_group : Key → Groups F → Bool
  has_group k [] = false
  has_group k ((j, rs) ∷ gs) = same_key j k || has_group k gs

  -- A record has the key.
  unfoldable pub has_record : Key → List (UsageRecord F) → Bool
  has_record k [] = false
  has_record k (r ∷ rs) = same_key (key_of r) k || has_record k rs

  -- Each key has one group.
  abbrev pub Distinct : Groups F → Type 0
  Distinct [] = Unit
  Distinct ((k, rs) ∷ gs) = (has_group k gs ≡ false) × Distinct gs

  -- Each group has the records of its key.
  abbrev pub Matches : List (UsageRecord F) → Groups F → Type 0
  Matches seen [] = Unit
  Matches seen ((k, rs) ∷ gs) = (rs ≡ records_of k seen) × Matches seen gs

  size-append_group :
      (k : Key) (r : UsageRecord F) (gs : Groups F) → size (append_group k r gs) ≡ suc (size gs)
  unfolding size append_group
  size-append_group k r [] = refl
  size-append_group k r ((j, rs) ∷ gs) = elim (Bool-cases (same_key j k)) [
    | inl e ↦ rw e (omega (arith, length-append rs (r ∷ [])))
    | inr e ↦ rw e (omega (arith, size-append_group k r gs))
  ]

  size-group_from :
      (gs : Groups F) (rs : List (UsageRecord F)) → size (group_from gs rs) ≡ size gs + length rs
  unfolding group_from
  size-group_from gs [] = omega arith
  size-group_from gs (r ∷ rs) =
      omega (
        arith,
        size-group_from (append_group (key_of r) r gs) rs,
        size-append_group (key_of r) r gs,
      )

  size-insert_group :
      (g : Key × List (UsageRecord F)) (gs : Groups F)
      → size (insert_group g gs) ≡ length g.1 + size gs
  unfolding size insert_group
  size-insert_group g [] = refl
  size-insert_group g ((j, rs) ∷ gs) = elim (Bool-cases (key_le g.0 j)) [
    | inl e ↦ rw e refl
    | inr e ↦ rw e (omega (arith, size-insert_group g gs))
  ]

  size-sort_groups : (gs : Groups F) → size (sort_groups gs) ≡ size gs
  unfolding size sort_groups
  size-sort_groups [] = refl
  size-sort_groups (g ∷ gs) =
      omega (arith, size-insert_group g (sort_groups gs), size-sort_groups gs)

  pub has_group-append_group :
      (k j : Key) (r : UsageRecord F) (gs : Groups F)
      → has_group k (append_group j r gs) ≡ same_key j k || has_group k gs
  unfolding has_group append_group
  has_group-append_group k j r [] = refl
  has_group-append_group k j r ((i, rs) ∷ gs) = elim (Bool-cases (same_key i j)) [
    | inl e ↦ rw e (ground (arith, ap (λ x. same_key x k) (same_key-eq i j e)))
    | inr e ↦ rw e (ground (arith, has_group-append_group k j r gs))
  ]

  pub append_group-Distinct :
      (k : Key) (r : UsageRecord F) (gs : Groups F) → Distinct gs → Distinct (append_group k r gs)
  unfolding has_group append_group
  append_group-Distinct k r [] d = (refl, tt)
  append_group-Distinct k r ((j, rs) ∷ gs) d = elim (Bool-cases (same_key j k)) [
    | inl e ↦ rw e d
    | inr e ↦ rw e (
      ground (arith, has_group-append_group j k r gs, same_key_comm j k, d.0),
      append_group-Distinct k r gs d.1,
    )
  ]

  group_from-Distinct :
      (gs : Groups F) (rs : List (UsageRecord F)) → Distinct gs → Distinct (group_from gs rs)
  unfolding group_from
  group_from-Distinct gs [] d = d
  group_from-Distinct gs (r ∷ rs) d =
      group_from-Distinct (append_group (key_of r) r gs) rs
        (append_group-Distinct (key_of r) r gs d)

  has_group-insert_group :
      (k : Key) (g : Key × List (UsageRecord F)) (gs : Groups F)
      → has_group k (insert_group g gs) ≡ same_key g.0 k || has_group k gs
  unfolding has_group insert_group
  has_group-insert_group k g [] = refl
  has_group-insert_group k g ((j, rs) ∷ gs) = elim (Bool-cases (key_le g.0 j)) [
    | inl e ↦ rw e refl
    | inr e ↦ rw e (ground (arith, has_group-insert_group k g gs))
  ]

  insert_group-Distinct :
      (g : Key × List (UsageRecord F)) (gs : Groups F)
      → has_group g.0 gs ≡ false
      → Distinct gs
      → Distinct (insert_group g gs)
  unfolding has_group insert_group
  insert_group-Distinct g [] new d = (refl, tt)
  insert_group-Distinct g ((j, rs) ∷ gs) new d = elim (Bool-cases (key_le g.0 j)) [
    | inl e ↦ rw e (new, d)
    | inr e ↦ rw e (
      ground (arith, has_group-insert_group j g gs, same_key_comm g.0 j, d.0),
      insert_group-Distinct g gs (ground arith) d.1,
    )
  ]

  has_group-sort_groups : (k : Key) (gs : Groups F) → has_group k (sort_groups gs) ≡ has_group k gs
  unfolding has_group sort_groups
  has_group-sort_groups k [] = refl
  has_group-sort_groups k (g ∷ gs) =
      ground (arith, has_group-insert_group k g (sort_groups gs), has_group-sort_groups k gs)

  sort_groups-Distinct : (gs : Groups F) → Distinct gs → Distinct (sort_groups gs)
  unfolding sort_groups
  sort_groups-Distinct [] d = tt
  sort_groups-Distinct (g ∷ gs) d =
      insert_group-Distinct g (sort_groups gs) (has_group-sort_groups g.0 gs ∙ d.0)
        (sort_groups-Distinct gs d.1)

  -- The groups of all the records, sorted: each key once.
  pub grouped-Distinct : (rs : List (UsageRecord F)) → Distinct (sort_groups (group_from [] rs))
  grouped-Distinct rs = sort_groups-Distinct _ (group_from-Distinct [] rs tt)

  pub size-grouped : (rs : List (UsageRecord F)) → size (sort_groups (group_from [] rs)) ≡ length rs
  unfolding size
  size-grouped rs =
      size-sort_groups (group_from [] rs) ∙ size-group_from [] rs ∙ plus_zero (length rs)

  has_group-group_from :
      (k : Key) (gs : Groups F) (rs : List (UsageRecord F))
      → has_group k (group_from gs rs) ≡ has_group k gs || has_record k rs
  unfolding group_from has_record
  has_group-group_from k gs [] = ground arith
  has_group-group_from k gs (r ∷ rs) = ground (
    arith,
    has_group-group_from k (append_group (key_of r) r gs) rs,
    has_group-append_group k (key_of r) r gs,
  )

  -- A key has a group exactly if a record has the key.
  pub has_group-grouped :
      (k : Key) (rs : List (UsageRecord F))
      → has_group k (sort_groups (group_from [] rs)) ≡ has_record k rs
  unfolding has_group
  has_group-grouped k rs = has_group-sort_groups k (group_from [] rs) ∙ has_group-group_from k [] rs
