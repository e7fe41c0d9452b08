-- ===== src/Commercial/Validation/Sound.antt =====
-- What an accepted usage record satisfies.
use observability_kit.Prelude.{
  String, Bool, true, false, ◌&&◌, not, [], ◌∷◌, some, ◌≡◌, refl, ap, sym, ◌∙◌, Option-cases, inl,
  inr, elem, append-eq-nil, eq_iff, arith, if◌then◌else◌,
}
use observability_kit.Prelude.Dict.{lookup}
use observability_kit.Json.{Json, str, Fields, get_item, has_key}
use observability_kit.Regex.Patterns.{is_tenant_id, is_datetime}
use observability_kit.Commercial.Models.{DimensionBinding, dimension_bindings}
use observability_kit.Commercial.Validation.{
  required_record_fields, dimensions, signals, unknown_in, missing_in, is_member, is_text_with,
  is_measure, is_record_id, reference_problems, expected_id, id_problems, signal_not_allowed,
  wrong_unit, bound_problems, binding_problems, validate_record,
}
use observability_kit.Commercial.Validation.Usage.{
  IsUsage, measure-IsMeasure, unknown_in-all, missing_in-all, when-eq-nil, null-eq-nil, passes,
  missing_in-nil, text_with, member, one_member,
}

known-binding :
    (d : String)
    → elem d dimensions ≡ true
    → (b : DimensionBinding) × (lookup d dimension_bindings ≡ some b)
unfolding lookup
known-binding d h = elim (Option-cases (lookup d dimension_bindings)) [
  | inl e ↦ absurd (ground (arith, e))
  | inr found ↦ found
]

bindings-nil :
    (is_one : String → Bool) (d : String) (b : DimensionBinding) (fs : Fields)
    → lookup d dimension_bindings ≡ some b
    → binding_problems is_one (str d) fs ≡ []
    → ((has_key "signal" fs && not (is_member b.signals (get_item "signal" fs))) ≡ false)
      × ((has_key "unit" fs && not (is_member (b.unit ∷ []) (get_item "unit" fs))) ≡ false)
unfolding binding_problems bound_problems
bindings-nil is_one d b fs found h =
    let bound = ap (λ o. bound_problems is_one d o fs) (sym found) ∙ h in
    let (rest, _) = append-eq-nil _ _ bound in
    let (signal, unit) = append-eq-nil _ _ rest in
    (when-eq-nil _ signal_not_allowed signal, when-eq-nil _ wrong_unit unit)

id-nil :
    (r t d s w : String)
    → is_tenant_id t ≡ true
    → elem d dimensions ≡ true
    → elem s signals ≡ true
    → is_datetime w ≡ true
    → id_problems (str r) (str t) (str d) (str s) (str w) ≡ []
    → r ≡ expected_id t d s w
unfolding id_problems
id-nil r t d s w tenant dimension signal start h = (eq_iff r (expected_id t d s w)).0 (ground arith)

module _ (is_one : String → Bool) (fs : Fields) (h : validate_record is_one fs ≡ []) where
  -- What the parts of the check have found, if they have found nothing.
  record Silent : Type 0 where
    unknown : unknown_in required_record_fields fs ≡ []
    missing : missing_in fs required_record_fields ≡ []
    tenant :
        (has_key "tenant_id" fs && not (is_text_with is_tenant_id (get_item "tenant_id" fs)))
        ≡ false
    identifier :
        (has_key "record_id" fs && not (is_text_with is_record_id (get_item "record_id" fs)))
        ≡ false
    dimension :
        (has_key "dimension" fs && not (is_member dimensions (get_item "dimension" fs))) ≡ false
    signal : (has_key "signal" fs && not (is_member signals (get_item "signal" fs))) ≡ false
    measure : (has_key "value" fs && not (is_measure (get_item "value" fs))) ≡ false
    starts :
        (has_key "window_start" fs && not (is_text_with is_datetime (get_item "window_start" fs)))
        ≡ false
    bound : binding_problems is_one (get_item "dimension" fs) fs ≡ []
    id :
        id_problems
          (get_item "record_id" fs)
          (get_item "tenant_id" fs)
          (get_item "dimension" fs)
          (get_item "signal" fs)
          (get_item "window_start" fs)
        ≡ []
    source :
        (if has_key "source_reference" fs
          then reference_problems (get_item "source_reference" fs)
          else [])
        ≡ []

  silent : Silent
  unfolding validate_record
  silent =
      let (rest, source) = append-eq-nil _ _ h in
      let (rest, id) = append-eq-nil _ _ rest in
      let (rest, _) = append-eq-nil _ _ rest in
      let (rest, bound) = append-eq-nil _ _ rest in
      let (rest, _) = append-eq-nil _ _ rest in
      let (rest, _) = append-eq-nil _ _ rest in
      let (rest, _) = append-eq-nil _ _ rest in
      let (rest, starts) = append-eq-nil _ _ rest in
      let (rest, measure) = append-eq-nil _ _ rest in
      let (rest, _) = append-eq-nil _ _ rest in
      let (rest, signal) = append-eq-nil _ _ rest in
      let (rest, dimension) = append-eq-nil _ _ rest in
      let (rest, identifier) = append-eq-nil _ _ rest in
      let (rest, tenant) = append-eq-nil _ _ rest in
      let (rest, _) = append-eq-nil _ _ rest in
      let (unknown, missing) = append-eq-nil _ _ rest in
      record {
        unknown = null-eq-nil _ (when-eq-nil _ _ unknown);
        missing = null-eq-nil _ (when-eq-nil _ _ missing);
        tenant = when-eq-nil _ _ tenant;
        identifier = when-eq-nil _ _ identifier;
        dimension = when-eq-nil _ _ dimension;
        signal = when-eq-nil _ _ signal;
        measure = when-eq-nil _ _ measure;
        starts = when-eq-nil _ _ starts;
        bound = bound;
        id = id;
        source = source;
      }

  there : (k : String) → elem k required_record_fields ≡ true → has_key k fs ≡ true
  there k e = missing_in-nil fs required_record_fields k silent.missing e

  valid :
      (k : String) (p : Json → Bool)
      → elem k required_record_fields ≡ true
      → (has_key k fs && not (p (get_item k fs))) ≡ false
      → p (get_item k fs) ≡ true
  valid k p e f = passes k p fs (there k e) f

  source_valid : reference_problems (get_item "source_reference" fs) ≡ []
  source_valid =
      sym (
        ap (λ b. if b then reference_problems (get_item "source_reference" fs) else [])
          (there "source_reference" refl))
      ∙ silent.source

  -- The texts of the identity.
  attributed_of :
      (r t d s w : String)
      → get_item "record_id" fs ≡ str r
      → get_item "tenant_id" fs ≡ str t
      → get_item "dimension" fs ≡ str d
      → get_item "signal" fs ≡ str s
      → get_item "window_start" fs ≡ str w
      → is_tenant_id t ≡ true
      → elem d dimensions ≡ true
      → elem s signals ≡ true
      → is_datetime w ≡ true
      → IsUsage fs
  unfolding expected_id
  attributed_of r t d s w record_is tenant_is dimension_is signal_is start_is tenant dimension
        signal start =
      let (b, bound) = known-binding d dimension in
      let (allowed, unit) =
        bindings-nil is_one d b fs bound
          (ap (λ j. binding_problems is_one j fs) (sym dimension_is) ∙ silent.bound) in
      let own = passes "signal" (is_member b.signals) fs (there "signal" refl) allowed in
      let expected : id_problems (str r) (str t) (str d) (str s) (str w) ≡ [] =
        sym (rw (record_is, tenant_is, dimension_is, signal_is, start_is) refl) ∙ silent.id in
      record {
        closed = unknown_in-all required_record_fields fs silent.unknown;
        complete = missing_in-all fs required_record_fields silent.missing;
        value = measure-IsMeasure _ (valid "value" is_measure refl silent.measure);
        reference = source_valid;
        attributed = (
          t,
          d,
          s,
          w,
          b,
          tenant_is,
          dimension_is,
          signal_is,
          start_is,
          tenant,
          bound,
          sym (ap (is_member b.signals) signal_is) ∙ own,
          one_member b.unit (get_item "unit" fs)
              (passes "unit" (is_member (b.unit ∷ [])) fs (there "unit" refl) unit),
          record_is ∙ ap str (id-nil r t d s w tenant dimension signal start expected),
        );
      }

  usage : IsUsage fs
  usage =
      let (t, tenant_is, tenant) =
        text_with is_tenant_id _
          (valid "tenant_id" (is_text_with is_tenant_id) refl silent.tenant) in
      let (r, record_is, _) =
        text_with is_record_id _
          (valid "record_id" (is_text_with is_record_id) refl silent.identifier) in
      let (d, dimension_is, dimension) =
        member dimensions _ (valid "dimension" (is_member dimensions) refl silent.dimension) in
      let (s, signal_is, signal) =
        member signals _ (valid "signal" (is_member signals) refl silent.signal) in
      let (w, start_is, start) =
        text_with is_datetime _
          (valid "window_start" (is_text_with is_datetime) refl silent.starts) in
      attributed_of r t d s w record_is tenant_is dimension_is signal_is start_is tenant dimension
        signal start

-- A usage record document without errors has the eleven required fields and no other; it names a
-- tenant by a well-formed id, a dimension of the contract with one of its signals and its unit, and
-- has the id tenant:dimension:signal:day of its own fields and the first ten characters of its window.
-- Its value is an integer or a float from 0 on, or NaN; its source
-- reference has no error.
pub validate_record-IsUsage :
    (is_one : String → Bool) (fs : Fields) → validate_record is_one fs ≡ [] → IsUsage fs
validate_record-IsUsage is_one fs h = usage is_one fs h
