-- ===== src/AiRuntime/Redaction/Clean.antt =====
-- What a redacted value holds.
use observability_kit.Prelude.{
  String, Bool, true, false, Option, none, some, ◌≡◌, refl, ap, if◌then◌else◌,
}
use mathlib.Core.Path.{subst}
use observability_kit.Json.{
  Json, null, bool, int, float, str, arr, obj, Items, nil, cons, Fields, end, field, get_item,
}
use observability_kit.AiRuntime.Redaction.{
  or_null, mask, is_restricted, is_secret, put_field, keep_item, walk, walk_items, walk_fields,
  redact,
}
use observability_kit.AiRuntime.Redaction.Domain.{
  some-inj, IsDict, AreDicts, HasDicts, DomainFree, walk_fields-DomainFree,
}

-- No record of a restricted domain, and no secret field but the mask, at any depth.
abbrev mutual
  pub IsClean : Json → Type 0
  IsClean (arr xs) = AreClean xs
  IsClean (obj fs) = (is_restricted (get_item "domain" fs) ≡ false) × HasClean fs
  IsClean _ = Unit

  pub AreClean : Items → Type 0
  AreClean nil = Unit
  AreClean (cons x xs) = IsClean x × AreClean xs

  pub HasClean : Fields → Type 0
  HasClean end = Unit
  HasClean (field k v fs) = (is_secret k ≡ true → v ≡ mask) × IsClean v × HasClean fs

put_field-HasClean :
    (b : Bool) (k : String) (o : Option Json) (fs : Fields)
    → is_secret k ≡ b
    → ((r : Json) → o ≡ some r → IsClean r)
    → HasClean fs
    → HasClean (put_field b k o fs)
put_field-HasClean true k o fs e h hs = ((λ s. refl), tt, hs)
put_field-HasClean false k none fs e h hs = hs
put_field-HasClean false k (some v) fs e h hs = ((λ s. cc), h v refl, hs)

keep_item-AreClean :
    (o : Option Json) (xs : Items)
    → ((r : Json) → o ≡ some r → IsClean r)
    → AreClean xs
    → AreClean (keep_item o xs)
keep_item-AreClean none xs h hs = hs
keep_item-AreClean (some x) xs h hs = (h x refl, hs)

kept-IsClean :
    (b : Bool) (fs : Fields) (r : Json)
    → (b ≡ false → DomainFree fs)
    → HasClean fs
    → (if b then none else some (obj fs)) ≡ some r
    → IsClean r
kept-IsClean true fs r free h e = cc
kept-IsClean false fs r free h e = subst IsClean (some-inj e) (free refl, h)

mutual
  unfolding walk

  walk-IsClean : (j : Json) → IsDict j → (r : Json) → walk j ≡ some r → IsClean r
  walk-IsClean (arr xs) d r e = subst IsClean (some-inj e) (walk_items-AreClean xs d)
  walk-IsClean (obj fs) d r e =
      kept-IsClean (is_restricted (get_item "domain" fs)) (walk_fields fs) r
        (λ free. walk_fields-DomainFree fs d free) (walk_fields-HasClean fs d) e
  walk-IsClean null d r e = subst IsClean (some-inj e) tt
  walk-IsClean (bool x) d r e = subst IsClean (some-inj e) tt
  walk-IsClean (int x) d r e = subst IsClean (some-inj e) tt
  walk-IsClean (float x) d r e = subst IsClean (some-inj e) tt
  walk-IsClean (str x) d r e = subst IsClean (some-inj e) tt

  walk_items-AreClean : (xs : Items) → AreDicts xs → AreClean (walk_items xs)
  walk_items-AreClean nil d = tt
  walk_items-AreClean (cons x xs) d =
      keep_item-AreClean (walk x) (walk_items xs) (walk-IsClean x d.0) (walk_items-AreClean xs d.1)

  walk_fields-HasClean : (fs : Fields) → HasDicts fs → HasClean (walk_fields fs)
  walk_fields-HasClean end d = tt
  walk_fields-HasClean (field k v fs) d =
      put_field-HasClean (is_secret k) k (walk v) (walk_fields fs) refl (walk-IsClean v d.1)
        (walk_fields-HasClean fs d.2)

or_null-IsClean : (o : Option Json) → ((r : Json) → o ≡ some r → IsClean r) → IsClean (or_null o)
or_null-IsClean none h = tt
or_null-IsClean (some r) h = h r refl

-- For JSON whose objects have each key once, the redacted value has, at any depth, no object whose
-- "domain" is restricted, and no secret key with a value other than the mask.
pub redact-IsClean : (j : Json) → IsDict j → IsClean (redact j).value
unfolding redact
redact-IsClean j d = or_null-IsClean (walk j) (walk-IsClean j d)

-- A node that stays as it is.
put_field-eq :
    (b : Bool) (k : String) (v : Json) (o : Option Json) (fs gs : Fields)
    → is_secret k ≡ b
    → (is_secret k ≡ true → v ≡ mask)
    → o ≡ some v
    → gs ≡ fs
    → put_field b k o gs ≡ field k v fs
put_field-eq true k v o fs gs s h e w = rw (w, h s) refl
put_field-eq false k v o fs gs s h e w = rw (e, w) refl

mutual
  unfolding walk

  walk-clean : (j : Json) → IsClean j → walk j ≡ some j
  walk-clean (arr xs) c = ap (λ ys. some (arr ys)) (walk_items-clean xs c)
  walk-clean (obj fs) c = rw (c.0, walk_fields-clean fs c.1) refl
  walk-clean null c = refl
  walk-clean (bool x) c = refl
  walk-clean (int x) c = refl
  walk-clean (float x) c = refl
  walk-clean (str x) c = refl

  walk_items-clean : (xs : Items) → AreClean xs → walk_items xs ≡ xs
  walk_items-clean nil c = refl
  walk_items-clean (cons x xs) c = rw (walk-clean x c.0, walk_items-clean xs c.1) refl

  walk_fields-clean : (fs : Fields) → HasClean fs → walk_fields fs ≡ fs
  walk_fields-clean end c = refl
  walk_fields-clean (field k v fs) c =
      put_field-eq (is_secret k) k v (walk v) fs (walk_fields fs) refl c.0 (walk-clean v c.1)
        (walk_fields-clean fs c.2)

clean-redact : (j : Json) → IsClean j → (redact j).value ≡ j
unfolding redact
clean-redact j c = rw (walk-clean j c) refl

-- Redacting a redacted value changes nothing more: for JSON whose objects have each key once, the
-- value of a second redaction is the value of the first.
pub redact-redact : (j : Json) → IsDict j → (redact (redact j).value).value ≡ (redact j).value
redact-redact j d = clean-redact (redact j).value (redact-IsClean j d)
