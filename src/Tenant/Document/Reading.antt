-- ===== src/Tenant/Document/Reading.antt =====
-- What it means of a field that a check reports nothing.
use observability_kit.Prelude.{
  ℕ, ◌≤◌, String, Bool, true, false, ◌||◌, ◌&&◌, ◌==◌, not, List, [], ◌∷◌, ◌++◌, some, ltb, ◌≡◌,
  ◌⊎◌, inl, inr, refl, pos, negsuc, length, elem, codes, arith, append-eq-nil,
}
use observability_kit.Json.{
  positive, infinity, nan, float, arr, Items, nil, cons, is_nonempty_text, Json, null, bool, int,
  str, Fields, end, field, get_item, has_key, keys, is_null,
}
use observability_kit.Tenant.Errors.{Context, Violation}
use observability_kit.Tenant.Document.{
  is_bool, is_int_within, is_int_from_one, is_positive_number, is_region_list, all_nonempty_text,
}
use observability_kit.Tenant.Document.Checks.{
  value_violations, when, missing_keys, unknown_keys, check_keys, Shape, any_text, is_choice,
  is_too_long, text_violations, require_str,
}
use observability_kit.Tenant.Document.Spec.{
  All, HasKeys, TextField, OneOf, IsNonempty, Days, AreTexts, IsRegionList, IsQuota, whole, above,
  infinite, not_a_number,
}

-- A text as the keyword arguments of _require_str want it.
abbrev Fits : Shape → String → Type 0
Fits shape s =
    (shape.min_length ≤ length (codes s))
    × (is_too_long shape.max_length (length (codes s)) ≡ false)
    × (shape.pattern s ≡ true)
    × (is_choice shape.choices s ≡ true)

pub when-eq-nil : (b : Bool) (v : Violation) → when b v ≡ [] → b ≡ false
when-eq-nil b v h = ground arith

pub when-not-eq-nil : (b : Bool) (v : Violation) → when (not b) v ≡ [] → b ≡ true
when-not-eq-nil b v h = ground arith

pub short-eq-nil : (m n : ℕ) (v : Violation) → when (ltb n m) v ≡ [] → m ≤ n
short-eq-nil m n v h = ground arith

pub missing_keys-eq-nil :
    (fs : Fields) (ks : List String) (ctx : Context)
    → missing_keys fs ks ctx ≡ []
    → All (λ k. has_key k fs ≡ true) ks
unfolding missing_keys
missing_keys-eq-nil fs [] ctx h = tt
missing_keys-eq-nil fs (k ∷ ks) ctx h =
    let (here, later) = append-eq-nil _ _ h in
    (when-not-eq-nil (has_key k fs) _ here, missing_keys-eq-nil fs ks ctx later)

pub unknown_keys-eq-nil :
    (allowed : List String) (fs : Fields) (ctx : Context)
    → unknown_keys allowed fs ctx ≡ []
    → All (λ k. elem k allowed ≡ true) (keys fs)
unfolding unknown_keys
unknown_keys-eq-nil allowed end ctx h = tt
unknown_keys-eq-nil allowed (field k v fs) ctx h =
    let (here, later) = append-eq-nil _ _ h in
    (when-not-eq-nil (elem k allowed) _ here, unknown_keys-eq-nil allowed fs ctx later)

pub check_keys-HasKeys :
    (fs : Fields) (required optional : List String) (ctx : Context)
    → check_keys fs required optional ctx ≡ []
    → HasKeys required optional fs
unfolding check_keys
check_keys-HasKeys fs required optional ctx h =
    let (a, b) = append-eq-nil _ _ h in
    record {
      present = missing_keys-eq-nil fs required ctx a;
      known = unknown_keys-eq-nil (required ++ optional) fs ctx b;
    }

pub text_violations-Fits :
    (s key : String) (ctx : Context) (shape : Shape)
    → text_violations s key ctx shape ≡ []
    → Fits shape s
unfolding text_violations
text_violations-Fits s key ctx shape h =
    let (rest, other) = append-eq-nil _ _ h in
    let (rest, bad) = append-eq-nil _ _ rest in
    let (short, long) = append-eq-nil _ _ rest in
    (
      short-eq-nil _ _ _ short,
      when-eq-nil _ _ long,
      when-not-eq-nil (shape.pattern s) _ bad,
      when-not-eq-nil (is_choice shape.choices s) _ other,
    )

pub value-Fits :
    (j : Json) (fs : Fields) (key : String) (ctx : Context) (shape : Shape)
    → get_item key fs ≡ j
    → require_str fs key ctx shape ≡ []
    → TextField key (Fits shape) fs
unfolding require_str value_violations
value-Fits (str s) fs key ctx shape e h = (s, e, text_violations-Fits s key ctx shape (rw e at h))
value-Fits _ fs key ctx shape e h = cc

pub require_str-Fits :
    (fs : Fields) (key : String) (ctx : Context) (shape : Shape)
    → require_str fs key ctx shape ≡ []
    → TextField key (Fits shape) fs
require_str-Fits fs key ctx shape = value-Fits (get_item key fs) fs key ctx shape refl

pub null-cases : (b : Bool) (j : Json) → (is_null j || b) ≡ true → (j ≡ null) ⊎ (b ≡ true)
null-cases b null h = inl refl
null-cases b _ h = inr h

pub is_bool-cases : (j : Json) → is_bool j ≡ true → (b : Bool) × (j ≡ bool b)
is_bool-cases (bool b) h = (b, refl)
is_bool-cases _ h = cc

pub is_int_within-Days : (j : Json) → is_int_within 1 3650 j ≡ true → Days j
is_int_within-Days (int (pos n)) h = (n, refl, ground arith, ground arith)
is_int_within-Days (int (negsuc n)) h = cc
is_int_within-Days _ h = cc

pub is_int_from_one-cases :
    (j : Json) → is_int_from_one j ≡ true → (n : ℕ) × (j ≡ int (pos n)) × (1 ≤ n)
is_int_from_one-cases (int (pos n)) h = (n, refl, ground arith)
is_int_from_one-cases (int (negsuc n)) h = cc
is_int_from_one-cases _ h = cc

-- Of a text field the conditions that were asked for.
pub IsNonempty-field :
    (fs : Fields) (key : String) (ctx : Context)
    → require_str fs key ctx (record any_text { min_length = 1 }) ≡ []
    → TextField key IsNonempty fs
IsNonempty-field fs key ctx h =
    let (s, e, f) = require_str-Fits fs key ctx (record any_text { min_length = 1 }) h in
    (s, e, f.0)

pub choice_field :
    (fs : Fields) (key : String) (ctx : Context) (ss : List String)
    → require_str fs key ctx (record any_text { choices = some ss }) ≡ []
    → TextField key (OneOf ss) fs
choice_field fs key ctx ss h =
    let (s, e, f) = require_str-Fits fs key ctx (record any_text { choices = some ss }) h in
    (s, e, f.3)

pub pattern_field :
    (fs : Fields) (key : String) (ctx : Context) (p : String → Bool)
    → require_str fs key ctx (record any_text { pattern = p }) ≡ []
    → TextField key (λ s. p s ≡ true) fs
pattern_field fs key ctx p h =
    let (s, e, f) = require_str-Fits fs key ctx (record any_text { pattern = p }) h in (s, e, f.2)

pub is_positive_number-IsQuota : (j : Json) → is_positive_number j ≡ true → IsQuota j
is_positive_number-IsQuota (int (pos n)) h = whole n (ground arith)
is_positive_number-IsQuota (float (positive d)) h = above d
is_positive_number-IsQuota (float infinity) h = infinite
is_positive_number-IsQuota (float nan) h = not_a_number
is_positive_number-IsQuota _ h = ground arith

nonempty-positive : (s : String) → not (s == "") ≡ true → 1 ≤ length (codes s)
nonempty-positive String.[] h = cc
nonempty-positive (String.◌∷◌ c s) h = omega arith

text_item : (x : Json) → is_nonempty_text x ≡ true → (s : String) × (x ≡ str s) × IsNonempty s
text_item (str s) h = (s, refl, nonempty-positive s h)
text_item _ h = cc

both : (b c : Bool) → (b && c) ≡ true → (b ≡ true) × (c ≡ true)
both b c h = (ground arith, ground arith)

text_items : (xs : Items) → all_nonempty_text xs ≡ true → AreTexts xs
text_items nil h = tt
text_items (cons x xs) h =
    let (here, later) = both (is_nonempty_text x) (all_nonempty_text xs) h in
    (text_item x here, text_items xs later)

pub is_region_list-IsRegionList : (j : Json) → is_region_list j ≡ true → IsRegionList j
is_region_list-IsRegionList (arr (cons x xs)) h =
    let (here, later) = both (is_nonempty_text x) (all_nonempty_text xs) h in
    (x, xs, refl, (text_item x here, text_items xs later))
is_region_list-IsRegionList (arr nil) h = cc
is_region_list-IsRegionList _ h = cc
