-- ===== src/AiRuntime/Policy/Response.antt =====
-- What a valid payload of a tool service has.
use observability_kit.Prelude.{
  ℕ, ◌≤◌, String, Bool, true, ◌&&◌, not, List, [], ◌∷◌, ◌≡◌, refl, all, elem, pos, append-eq-nil,
  arith,
}
use observability_kit.Json.{
  Json, int, float, zero_float, positive, str, obj, Fields, get_item, has_key, is_truthy,
}
use observability_kit.AiRuntime.Policy.{
  Flaw, bad_confidence, bad_safety_class, bad_time_window, missing_flaws, is_unit_number,
  is_safety_class, is_window, flaw_if, validate_tool_response, tool_response_required_fields,
}

module _ (le_one : String → Bool) where
  -- A number from 0 to 1.
  pub data IsUnit : Json → Type 0 where
    whole : (n : ℕ) → n ≤ 1 → IsUnit (int (pos n))
    zero : IsUnit (float zero_float)
    fraction : (digits : String) → le_one digits ≡ true → IsUnit (float (positive digits))

  -- A payload that a caller may be served.
  pub record IsResponse (fs : Fields) : Type 0 where
    pub present :
        all
          (λ k. has_key k fs)
          ("schema_version" ∷ "summary" ∷ "structured_data" ∷ "evidence_handles" ∷ "confidence"
            ∷ "time_window" ∷ "safety_class" ∷ "next_recommended_tools" ∷ [])
        ≡ true
    pub confidence : IsUnit (get_item "confidence" fs)
    pub safety_class :
        (name : String) × (get_item "safety_class" fs ≡ str name)
        × (elem name (
              "read.safe" ∷ "read.sensitive" ∷ "write.low-risk" ∷ "write.high-risk"
              ∷ "write.critical" ∷ [])
            ≡ true)
    pub time_window :
        (window : Fields) × (get_item "time_window" fs ≡ obj window)
        × (is_truthy (get_item "start" window) ≡ true)
        × (is_truthy (get_item "end" window) ≡ true)

  unit_number : (j : Json) → is_unit_number le_one j ≡ true → IsUnit j
  unit_number (int (pos n)) h = whole n (ground arith)
  unit_number (float zero_float) h = zero
  unit_number (float (positive digits)) h = fraction digits h
  unit_number _ h = ground arith

  safety_name :
      (j : Json)
      → is_safety_class le_one j ≡ true
      → (name : String) × (j ≡ str name)
        × (elem name (
              "read.safe" ∷ "read.sensitive" ∷ "write.low-risk" ∷ "write.high-risk"
              ∷ "write.critical" ∷ [])
            ≡ true)
  safety_name (str s) h = (s, refl, h)
  safety_name _ h = ground arith

  window_of :
      (j : Json)
      → is_window le_one j ≡ true
      → (window : Fields) × (j ≡ obj window)
        × (is_truthy (get_item "start" window) ≡ true)
        × (is_truthy (get_item "end" window) ≡ true)
  window_of (obj fs) h = (fs, refl, ground arith, ground arith)
  window_of _ h = ground arith

  missing-all :
      (fs : Fields) (ks : List String)
      → missing_flaws fs ks ≡ []
      → all (λ k. has_key k fs) ks ≡ true
  unfolding missing_flaws
  missing-all fs [] h = refl
  missing-all fs (k ∷ ks) h = ground (arith, missing-all fs ks)

  flawless : (b c : Bool) (x : Flaw) → flaw_if le_one (b && not c) x ≡ [] → b ≡ true → c ≡ true
  flawless b c x h e = ground arith

  pub validate_tool_response-IsResponse :
      (fs : Fields) → validate_tool_response le_one fs ≡ [] → IsResponse fs
  unfolding validate_tool_response
  validate_tool_response-IsResponse fs h =
      let (rest, no_window) = append-eq-nil _ _ h in
      let (rest, no_class) = append-eq-nil _ _ rest in
      let (missing, no_confidence) = append-eq-nil _ _ rest in
      let present = missing-all fs tool_response_required_fields missing in
      record {
        present = present;
        confidence = unit_number _ (
            flawless (has_key "confidence" fs) _ bad_confidence no_confidence
              (ground (arith, present)));
        safety_class = safety_name _ (
            flawless (has_key "safety_class" fs) _ bad_safety_class no_class
              (ground (arith, present)));
        time_window = window_of _ (
            flawless (has_key "time_window" fs) _ bad_time_window no_window
              (ground (arith, present)));
      }
