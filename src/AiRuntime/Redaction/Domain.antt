-- ===== src/AiRuntime/Redaction/Domain.antt =====
-- A redacted object has no restricted domain of its own.
use observability_kit.Prelude.{
  String, Bool, true, false, Option, none, some, ◌==◌, ◌≡◌, refl, ap, sym, ◌∙◌, inl, inr, arith,
  Bool-cases, eq_iff, if◌then◌else◌,
}
use mathlib.Core.Path.{subst}
use observability_kit.Json.{
  Json, null, str, arr, obj, Items, nil, cons, Fields, end, field, get_item, has_key,
}
use observability_kit.AiRuntime.Redaction.{is_restricted, is_secret, put_field, walk, walk_fields}

-- A Python dict has each key once, at every depth.
abbrev mutual
  pub IsDict : Json → Type 0
  IsDict (arr xs) = AreDicts xs
  IsDict (obj fs) = HasDicts fs
  IsDict _ = Unit

  pub AreDicts : Items → Type 0
  AreDicts nil = Unit
  AreDicts (cons x xs) = IsDict x × AreDicts xs

  pub HasDicts : Fields → Type 0
  HasDicts end = Unit
  HasDicts (field k v fs) = (has_key k fs ≡ false) × IsDict v × HasDicts fs

pub some-inj : {a c : Json} → ◌≡◌ {A = Option Json} (some a) (some c) → a ≡ c
some-inj e = cc

has_key-put_field :
    (b : Bool) (j k : String) (o : Option Json) (fs : Fields)
    → (k == j) ≡ false
    → has_key j fs ≡ false
    → has_key j (put_field b k o fs) ≡ false
has_key-put_field true j k o fs e h = rw (e, h) refl
has_key-put_field false j k none fs e h = h
has_key-put_field false j k (some v) fs e h = rw (e, h) refl

has_key-walk_fields :
    (j : String) (fs : Fields) → has_key j fs ≡ false → has_key j (walk_fields fs) ≡ false
unfolding walk_fields
has_key-walk_fields j end h = refl
has_key-walk_fields j (field k v fs) h =
    has_key-put_field (is_secret k) j k (walk v) (walk_fields fs) (ground arith)
      (has_key-walk_fields j fs (ground arith))

get_item-null : (k : String) (fs : Fields) → has_key k fs ≡ false → get_item k fs ≡ null
get_item-null k end h = refl
get_item-null k (field j v fs) h = ground (arith, get_item-null k fs)

restricted-null :
    (fs : Fields) → has_key "domain" fs ≡ false → is_restricted (get_item "domain" fs) ≡ false
unfolding is_restricted
restricted-null fs h = rw (get_item-null "domain" fs h) refl

abbrev is_kept_restricted : Option Json → Bool
is_kept_restricted none = false
is_kept_restricted (some r) = is_restricted r

kept-if : (b : Bool) (fs : Fields) → is_kept_restricted (if b then none else some (obj fs)) ≡ false
unfolding is_restricted
kept-if true fs = refl
kept-if false fs = refl

kept-walk : (v : Json) → is_restricted v ≡ false → is_kept_restricted (walk v) ≡ false
unfolding walk is_restricted
kept-walk (arr xs) h = h
kept-walk (obj fs) h = kept-if (is_restricted (get_item "domain" fs)) (walk_fields fs)
kept-walk (str s) h = h
kept-walk _ h = h

abbrev pub DomainFree : Fields → Type 0
DomainFree fs = is_restricted (get_item "domain" fs) ≡ false

-- The loop's turn on the key "domain", which is no secret, and on another key.
domain-put_field :
    (o : Option Json) (fs : Fields)
    → is_kept_restricted o ≡ false
    → has_key "domain" fs ≡ false
    → DomainFree (put_field (is_secret "domain") "domain" o fs)
unfolding is_secret
domain-put_field none fs h free = restricted-null fs free
domain-put_field (some r) fs h free = h

other-put_field :
    (b : Bool) (k : String) (o : Option Json) (fs : Fields)
    → (k == "domain") ≡ false
    → DomainFree fs
    → DomainFree (put_field b k o fs)
other-put_field true k o fs e h = rw e h
other-put_field false k none fs e h = h
other-put_field false k (some v) fs e h = rw e h

restricted-then :
    (b : Bool) (v w : Json)
    → b ≡ true
    → is_restricted (if b then v else w) ≡ false
    → is_restricted v ≡ false
restricted-then true v w e h = h
restricted-then false v w e h = cc

restricted-else :
    (b : Bool) (v w : Json)
    → b ≡ false
    → is_restricted (if b then v else w) ≡ false
    → is_restricted w ≡ false
restricted-else true v w e h = cc
restricted-else false v w e h = h

pub walk_fields-DomainFree :
    (fs : Fields) → HasDicts fs → DomainFree fs → DomainFree (walk_fields fs)
unfolding walk_fields
walk_fields-DomainFree end d h = h
walk_fields-DomainFree (field k v fs) d h = elim (Bool-cases (k == "domain")) [
  | inl e ↦
      let is_domain = (eq_iff k "domain").0 e in
      subst
        (λ j.
          is_restricted (get_item "domain" (put_field (is_secret j) j (walk v) (walk_fields fs)))
          ≡ false)
        (sym is_domain)
        (domain-put_field (walk v) (walk_fields fs)
          (kept-walk v (restricted-then (k == "domain") v (get_item "domain" fs) e h))
          (has_key-walk_fields "domain" fs (sym (ap (λ j. has_key j fs) is_domain) ∙ d.0)))
  | inr e ↦
      other-put_field (is_secret k) k (walk v) (walk_fields fs) e (
        walk_fields-DomainFree fs d.2
          (restricted-else (k == "domain") v (get_item "domain" fs) e h))
]
