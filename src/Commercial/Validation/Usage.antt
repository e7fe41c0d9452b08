-- ===== src/Commercial/Validation/Usage.antt =====
-- What an accepted usage record is, and what its checks mean of a field.
use observability_kit.Prelude.{
  ℕ, pos, all, String, Bool, true, false, ◌&&◌, not, List, [], ◌∷◌, some, ◌==◌, ◌≡◌, refl, ap, sym,
  ◌∙◌, Bool-cases, inl, inr, null, elem, eq_iff, arith, if◌then◌else◌,
}
use observability_kit.Prelude.Dict.{lookup}
use Prim.Native.String.{◌++◌ as text_append}
use observability_kit.Commercial.Invoice.{prefix_of}
use observability_kit.Json.{
  Json, int, float, zero_float, positive, infinity, nan, str, Fields, end, field, keys, get_item,
  has_key,
}
use observability_kit.Regex.Patterns.{is_tenant_id}
use observability_kit.Commercial.Models.{DimensionBinding, dimension_bindings}
use observability_kit.Commercial.Validation.{
  Problem, when, unknown_in, missing_in, is_member, is_text_with, is_measure, reference_problems,
}

-- The values that the check accepts: integers and floats from 0 on, and NaN.
pub data IsMeasure : Json → Type 0 where
  whole : (n : ℕ) → IsMeasure (int (pos n))
  zero : IsMeasure (float zero_float)
  above : (digits : String) → IsMeasure (float (positive digits))
  infinite : IsMeasure (float infinity)
  not_a_number : IsMeasure (float nan)

-- A record of a tenant, for a dimension with one of its signals and its unit, and with the id of its
-- own tenant, dimension, signal and day; it has the required fields and no other.
pub record IsUsage (fs : Fields) : Type 0 where
  pub closed :
      all
        (λ k. elem k (
          "record_id" ∷ "tenant_id" ∷ "dimension" ∷ "signal" ∷ "value" ∷ "unit" ∷ "window_start"
          ∷ "window_end" ∷ "source_reference" ∷ "collected_at" ∷ "collector_version" ∷ []))
        (keys fs)
      ≡ true
  pub complete :
      all
        (λ k. has_key k fs)
        ("record_id" ∷ "tenant_id" ∷ "dimension" ∷ "signal" ∷ "value" ∷ "unit" ∷ "window_start"
          ∷ "window_end" ∷ "source_reference" ∷ "collected_at" ∷ "collector_version" ∷ [])
      ≡ true
  pub value : IsMeasure (get_item "value" fs)
  pub reference : reference_problems (get_item "source_reference" fs) ≡ []
  pub attributed :
      (t d s w : String) × (b : DimensionBinding) × (get_item "tenant_id" fs ≡ str t)
      × (get_item "dimension" fs ≡ str d)
      × (get_item "signal" fs ≡ str s)
      × (get_item "window_start" fs ≡ str w)
      × (is_tenant_id t ≡ true)
      × (lookup d dimension_bindings ≡ some b)
      × (elem s b.signals ≡ true)
      × (get_item "unit" fs ≡ str b.unit)
      × (get_item "record_id" fs
          ≡ str (
              text_append t (
                text_append ":" (
                  text_append d
                    (text_append ":" (text_append s (text_append ":" (prefix_of 10 w))))))))

pub measure-IsMeasure : (j : Json) → is_measure j ≡ true → IsMeasure j
measure-IsMeasure (int (pos n)) h = whole n
measure-IsMeasure (float zero_float) h = zero
measure-IsMeasure (float (positive digits)) h = above digits
measure-IsMeasure (float infinity) h = infinite
measure-IsMeasure (float nan) h = not_a_number
measure-IsMeasure _ h = ground arith

pub none_missing :
    (b : Bool) (x : String) (xs : List String)
    → (if b then xs else x ∷ xs) ≡ []
    → (b ≡ true) × (xs ≡ [])
none_missing true x xs h = (refl, h)
none_missing false x xs h = cc

pub unknown_in-all :
    (known : List String) (fs : Fields)
    → unknown_in known fs ≡ []
    → all (λ k. elem k known) (keys fs) ≡ true
unfolding unknown_in
unknown_in-all known end h = refl
unknown_in-all known (field k v fs) h =
    let (own, rest) = none_missing (elem k known) k (unknown_in known fs) h in
    rw (own, unknown_in-all known fs rest) refl

pub missing_in-all :
    (fs : Fields) (ks : List String) → missing_in fs ks ≡ [] → all (λ k. has_key k fs) ks ≡ true
unfolding missing_in
missing_in-all fs [] h = refl
missing_in-all fs (k ∷ ks) h =
    let (own, rest) = none_missing (has_key k fs) k (missing_in fs ks) h in
    rw (own, missing_in-all fs ks rest) refl

pub when-eq-nil : (b : Bool) (x : Problem) → when b x ≡ [] → b ≡ false
when-eq-nil b x h = ground arith

pub null-eq-nil : {A : Type 0} (xs : List A) → not (null xs) ≡ false → xs ≡ []
null-eq-nil [] h = refl
null-eq-nil (x ∷ xs) h = cc

pub passes :
    (k : String) (p : Json → Bool) (fs : Fields)
    → has_key k fs ≡ true
    → (has_key k fs && not (p (get_item k fs))) ≡ false
    → p (get_item k fs) ≡ true
passes k p fs h e = ground arith

pub missing_in-nil :
    (fs : Fields) (ks : List String) (k : String)
    → missing_in fs ks ≡ []
    → elem k ks ≡ true
    → has_key k fs ≡ true
unfolding missing_in
missing_in-nil fs [] k h e = ground arith
missing_in-nil fs (j ∷ ks) k h e =
    let (there, rest) = none_missing (has_key j fs) j (missing_in fs ks) h in
    elim (Bool-cases (j == k)) [
      | inl same ↦ ap (λ x. has_key x fs) (sym ((eq_iff j k).0 same)) ∙ there
      | inr other ↦ missing_in-nil fs ks k rest (ground arith)
    ]

pub text_with :
    (p : String → Bool) (j : Json)
    → is_text_with p j ≡ true
    → (s : String) × (j ≡ str s) × (p s ≡ true)
text_with p (str s) h = (s, refl, h)
text_with p _ h = ground arith

pub member :
    (ss : List String) (j : Json)
    → is_member ss j ≡ true
    → (s : String) × (j ≡ str s) × (elem s ss ≡ true)
member ss (str s) h = (s, refl, h)
member ss _ h = ground arith

pub one_member : (s : String) (j : Json) → is_member (s ∷ []) j ≡ true → j ≡ str s
one_member s (str t) h = ap str (sym ((eq_iff s t).0 (ground arith)))
one_member s _ h = ground arith
