-- ===== src/Commercial/Invoice/Matching.antt =====
-- The records of each group.
use observability_kit.Prelude.{
  true, false, ◌||◌, List, [], ◌∷◌, ◌++◌, ◌≡◌, inl, inr, refl, ap, sym, subst, ◌∙◌, Bool-cases,
  arith, if◌then◌else◌,
}
use observability_kit.Commercial.Models.{UsageRecord}
use observability_kit.Commercial.Invoice.{
  Key, same_key, key_le, Groups, key_of, append_group, group_from, insert_group, sort_groups,
}
use observability_kit.Commercial.Invoice.Grouping.{
  append_nil, same_key-eq, same_key_refl, same_key_comm, records_of, has_group, Distinct, Matches,
  has_group-append_group, append_group-Distinct,
}

module _ {F : Type 0} where
  records_of-append :
      (k : Key) (rs : List (UsageRecord F)) (r : UsageRecord F)
      → records_of k (rs ++ r ∷ [])
        ≡ records_of k rs ++ (if same_key (key_of r) k then r ∷ [] else [])
  unfolding records_of
  records_of-append k [] r = refl
  records_of-append k (q ∷ rs) r = elim (Bool-cases (same_key (key_of q) k)) [
    | inl e ↦ rw e (ap (λ xs. q ∷ xs) (records_of-append k rs r))
    | inr e ↦ rw e (records_of-append k rs r)
  ]

  records_of-other :
      (k : Key) (rs : List (UsageRecord F)) (r : UsageRecord F)
      → same_key (key_of r) k ≡ false
      → records_of k (rs ++ r ∷ []) ≡ records_of k rs
  records_of-other k rs r h = records_of-append k rs r ∙ rw h (append_nil (records_of k rs))

  records_of-same :
      (k : Key) (rs : List (UsageRecord F)) (r : UsageRecord F)
      → same_key (key_of r) k ≡ true
      → records_of k (rs ++ r ∷ []) ≡ records_of k rs ++ r ∷ []
  records_of-same k rs r h = records_of-append k rs r ∙ rw h refl

  -- A key without a group has no record yet.
  abbrev Covers : List (UsageRecord F) → Groups F → Type 0
  Covers seen gs = (k : Key) → has_group k gs ≡ false → records_of k seen ≡ []

  append_group-Covers :
      (seen : List (UsageRecord F)) (r : UsageRecord F) (gs : Groups F)
      → Covers seen gs
      → Covers (seen ++ r ∷ []) (append_group (key_of r) r gs)
  append_group-Covers seen r gs h k absent =
      let both : same_key (key_of r) k || has_group k gs ≡ false =
        sym (has_group-append_group k (key_of r) r gs) ∙ absent in
      records_of-other k seen r (ground arith) ∙ h k (ground arith)

  Matches-other :
      (seen : List (UsageRecord F)) (r : UsageRecord F) (gs : Groups F)
      → has_group (key_of r) gs ≡ false
      → Matches seen gs
      → Matches (seen ++ r ∷ []) gs
  unfolding has_group
  Matches-other seen r [] absent m = tt
  Matches-other seen r ((j, rs) ∷ gs) absent m = (
    m.0 ∙ sym (records_of-other j seen r (ground (arith, same_key_comm j (key_of r)))),
    Matches-other seen r gs (ground arith) m.1,
  )

  append_group-Matches :
      (seen : List (UsageRecord F)) (r : UsageRecord F) (gs : Groups F)
      → (has_group (key_of r) gs ≡ false → records_of (key_of r) seen ≡ [])
      → Distinct gs
      → Matches seen gs
      → Matches (seen ++ r ∷ []) (append_group (key_of r) r gs)
  unfolding append_group has_group
  append_group-Matches seen r [] h d m =
      (sym (records_of-same (key_of r) seen r (same_key_refl (key_of r)) ∙ rw (h refl) refl), tt)
  append_group-Matches seen r ((j, rs) ∷ gs) h d m = elim (Bool-cases (same_key j (key_of r))) [
    | inl e ↦ rw e (
      rw m.0 (sym (records_of-same j seen r (same_key_comm (key_of r) j ∙ e))),
      Matches-other seen r gs (ap (λ k. has_group k gs) (sym (same_key-eq j (key_of r) e)) ∙ d.0)
          m.1,
    )
    | inr e ↦ rw e (
      m.0 ∙ sym (records_of-other j seen r (same_key_comm (key_of r) j ∙ e)),
      append_group-Matches seen r gs (λ absent. h (ground arith)) d.1 m.1,
    )
  ]

  append_assoc :
      (xs : List (UsageRecord F)) (y : UsageRecord F) (zs : List (UsageRecord F))
      → (xs ++ y ∷ []) ++ zs ≡ xs ++ y ∷ zs
  append_assoc [] y zs = refl
  append_assoc (x ∷ xs) y zs = ap (λ ys. x ∷ ys) (append_assoc xs y zs)

  group_from-Matches :
      (seen : List (UsageRecord F)) (gs : Groups F) (rs : List (UsageRecord F))
      → Covers seen gs
      → Distinct gs
      → Matches seen gs
      → Matches (seen ++ rs) (group_from gs rs)
  unfolding group_from
  group_from-Matches seen gs [] h d m = subst (λ xs. Matches xs gs) (sym (append_nil seen)) m
  group_from-Matches seen gs (r ∷ rs) h d m =
      subst (λ xs. Matches xs (group_from (append_group (key_of r) r gs) rs))
        (append_assoc seen r rs)
        (group_from-Matches (seen ++ r ∷ []) (append_group (key_of r) r gs) rs
          (append_group-Covers seen r gs h) (append_group-Distinct (key_of r) r gs d)
          (append_group-Matches seen r gs (h (key_of r)) d m))

  insert_group-Matches :
      (seen : List (UsageRecord F)) (g : Key × List (UsageRecord F)) (gs : Groups F)
      → g.1 ≡ records_of g.0 seen
      → Matches seen gs
      → Matches seen (insert_group g gs)
  unfolding insert_group
  insert_group-Matches seen g [] h m = (h, tt)
  insert_group-Matches seen g ((j, rs) ∷ gs) h m = elim (Bool-cases (key_le g.0 j)) [
    | inl e ↦ rw e (h, m)
    | inr e ↦ rw e (m.0, insert_group-Matches seen g gs h m.1)
  ]

  sort_groups-Matches :
      (seen : List (UsageRecord F)) (gs : Groups F)
      → Matches seen gs
      → Matches seen (sort_groups gs)
  unfolding sort_groups
  sort_groups-Matches seen [] m = tt
  sort_groups-Matches seen (g ∷ gs) m =
      insert_group-Matches seen g (sort_groups gs) m.0 (sort_groups-Matches seen gs m.1)

  pub grouped-Matches : (rs : List (UsageRecord F)) → Matches rs (sort_groups (group_from [] rs))
  unfolding records_of
  grouped-Matches rs =
      sort_groups-Matches rs (group_from [] rs) (group_from-Matches [] [] rs (λ k h. refl) tt tt)
