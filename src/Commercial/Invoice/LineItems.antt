-- ===== src/Commercial/Invoice/LineItems.antt =====
-- The line items of the groups.
use observability_kit.Prelude.{
  ℕ, ◌+◌, Bool, false, ◌||◌, List, [], ◌∷◌, some, ◌≡◌, refl, ap, sym, subst, ◌∙◌, length, arith,
}
use observability_kit.Prelude.Dict.{lookup}
use observability_kit.Prelude.Exec.{ok}
use observability_kit.Prelude.Raise.{or_raise, bind-ok, or_raise-ok, ok-inj}
use observability_kit.Commercial.Models.{Numbers, UsageRecord, DimensionBinding, dimension_bindings}
use observability_kit.Commercial.Invoice.{
  key_error, BillingPlan, InvoiceLineItem, Key, same_key, Groups, group_from, sort_groups, sum,
  overage_units_of, values_of, line_item, line_items_of,
}
use observability_kit.Commercial.Invoice.Grouping.{
  records_of, size, has_group, Distinct, Matches, grouped-Distinct,
}
use observability_kit.Commercial.Invoice.Matching.{grouped-Matches}

module _ {F : Type 0} where
  abbrev pub item_key : InvoiceLineItem F → Key
  item_key x = record { dimension = x.dimension; signal = x.signal }

  unfoldable pub has_item : Key → List (InvoiceLineItem F) → Bool
  has_item k [] = false
  has_item k (x ∷ xs) = same_key (item_key x) k || has_item k xs

  -- No two line items have one dimension and signal.
  abbrev pub Once : List (InvoiceLineItem F) → Type 0
  Once [] = Unit
  Once (x ∷ xs) = (has_item (item_key x) xs ≡ false) × Once xs

  unfoldable pub record_count : List (InvoiceLineItem F) → ℕ
  record_count [] = 0
  record_count (x ∷ xs) = x.source_record_count + record_count xs

module _ {F : Type 0} (n : Numbers F) (plan : BillingPlan F) where
  -- The item aggregates the given records of its dimension and signal.
  pub record IsItem (records : List (UsageRecord F)) (x : InvoiceLineItem F) : Type 0 where
    pub quantity :
        x.quantity ≡ n.round_units (sum n (values_of n (records_of (item_key x) records)))
    pub overage :
        overage_units_of n x.dimension x.signal (values_of n (records_of (item_key x) records)) plan
        ≡ ok x.overage_units
    pub count : x.source_record_count ≡ length (records_of (item_key x) records)
    pub unit :
        (b : DimensionBinding) × (lookup x.dimension dimension_bindings ≡ some b)
        × (x.unit ≡ b.unit)

  abbrev pub AllItems : List (UsageRecord F) → List (InvoiceLineItem F) → Type 0
  AllItems records [] = Unit
  AllItems records (x ∷ xs) = IsItem records x × AllItems records xs

  -- The item of one group.
  record FromGroup (key : Key) (group : List (UsageRecord F)) (x : InvoiceLineItem F) : Type 0 where
    keyed : item_key x ≡ key
    quantity : x.quantity ≡ n.round_units (sum n (values_of n group))
    overage :
        overage_units_of n key.dimension key.signal (values_of n group) plan ≡ ok x.overage_units
    count : x.source_record_count ≡ length group
    unit :
        (b : DimensionBinding) × (lookup key.dimension dimension_bindings ≡ some b)
        × (x.unit ≡ b.unit)

  line_item-FromGroup :
      (key : Key) (group : List (UsageRecord F)) (x : InvoiceLineItem F)
      → line_item n plan key group ≡ ok x
      → FromGroup key group x
  unfolding line_item
  line_item-FromGroup key group x h =
      let (binding, bound, h) =
        bind-ok (or_raise (lookup key.dimension dimension_bindings) key_error) _ x h in
      let (overage, over, same) =
        bind-ok (overage_units_of n key.dimension key.signal (values_of n group) plan) _ x h in
      subst (FromGroup key group) (ok-inj same) (record {
        keyed = refl;
        quantity = refl;
        overage = over;
        count = refl;
        unit = (binding, or_raise-ok _ key_error binding bound, refl);
      })

  FromGroup-IsItem :
      (records : List (UsageRecord F)) (key : Key) (group : List (UsageRecord F))
      (x : InvoiceLineItem F)
      → FromGroup key group x
      → group ≡ records_of key records
      → IsItem records x
  FromGroup-IsItem records key group x made matched =
      let aggregated : group ≡ records_of (item_key x) records =
        matched ∙ ap (λ k. records_of k records) (sym made.keyed) in
      record {
        quantity = made.quantity ∙ ap (λ g. n.round_units (sum n (values_of n g))) aggregated;
        overage =
            subst
              (λ g.
                overage_units_of n x.dimension x.signal (values_of n g) plan ≡ ok x.overage_units)
              aggregated
              (ap (λ k. overage_units_of n k.dimension k.signal (values_of n group) plan) made.keyed
                ∙ made.overage);
        count = made.count ∙ ap length aggregated;
        unit = (
          made.unit.0,
          ap (λ k. lookup k.dimension dimension_bindings) made.keyed ∙ made.unit.1,
          made.unit.2,
        );
      }

  -- What the items of sorted groups are.
  pub record AreItems (records : List (UsageRecord F)) (gs : Groups F)
      (xs : List (InvoiceLineItem F)) : Type 0 where
    pub all_items : AllItems records xs
    pub keys : (k : Key) → has_item k xs ≡ has_group k gs
    pub once : Once xs
    pub counted : record_count xs ≡ size gs

  cons-AreItems :
      (records : List (UsageRecord F)) (key : Key) (group : List (UsageRecord F)) (gs : Groups F)
      (x : InvoiceLineItem F) (xs : List (InvoiceLineItem F))
      → FromGroup key group x
      → group ≡ records_of key records
      → has_group key gs ≡ false
      → AreItems records gs xs
      → AreItems records ((key, group) ∷ gs) (x ∷ xs)
  unfolding has_item has_group record_count size
  cons-AreItems records key group gs x xs made matched new rest = record {
    all_items = (FromGroup-IsItem records key group x made matched, rest.all_items);
    keys = λ k. rw (made.keyed, rest.keys k) refl;
    once = (ap (λ k. has_item k xs) made.keyed ∙ rest.keys key ∙ new, rest.once);
    counted = omega (arith, made.count, rest.counted);
  }

  line_items_of-AreItems :
      (records : List (UsageRecord F)) (gs : Groups F) (xs : List (InvoiceLineItem F))
      → line_items_of n plan gs ≡ ok xs
      → Distinct gs
      → Matches records gs
      → AreItems records gs xs
  unfolding line_items_of has_item has_group record_count size
  line_items_of-AreItems records [] xs h d m =
      subst (AreItems records []) (ok-inj h)
        (record { all_items = tt; keys = λ k. refl; once = tt; counted = refl })
  line_items_of-AreItems records ((key, group) ∷ gs) xs h d m =
      let (x, made, h) = bind-ok (line_item n plan key group) _ xs h in
      let (ys, rest, same) = bind-ok (line_items_of n plan gs) _ xs h in
      subst (AreItems records ((key, group) ∷ gs)) (ok-inj same) (
        cons-AreItems records key group gs x ys (line_item-FromGroup key group x made) m.0 d.0
          (line_items_of-AreItems records gs ys rest d.1 m.1))

  pub grouped-AreItems :
      (records : List (UsageRecord F)) (xs : List (InvoiceLineItem F))
      → line_items_of n plan (sort_groups (group_from [] records)) ≡ ok xs
      → AreItems records (sort_groups (group_from [] records)) xs
  grouped-AreItems records xs h =
      line_items_of-AreItems records _ xs h (grouped-Distinct records) (grouped-Matches records)
