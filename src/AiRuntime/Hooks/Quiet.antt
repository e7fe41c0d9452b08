-- ===== src/AiRuntime/Hooks/Quiet.antt =====
-- A key that was dispatched stays quiet for the dedupe window.
use observability_kit.Prelude.{
  ℕ, ◌+◌, ◌≤◌, ◌<◌, String, Bool, true, false, List, some, ◌==◌, ◌≡◌, refl, ap, sym, ◌∙◌,
  Bool-cases, inl, inr, ltb, length, eq_iff, arith, if◌then◌else◌,
}
use observability_kit.Prelude.Dict.{lookup, put, lookup-put, lookup-put_self}
use observability_kit.Prelude.Exec.{Result, ok, raised}
use observability_kit.AiRuntime.Hooks.{
  Enriched, Untracked, Output, silent, dispatched, summarized, Processor, dedupe_window,
  burst_window, burst_max_per_window, recent, entries_of, is_within, burst, single, throttle,
}

-- The key was dispatched at `t`, or later.
abbrev pub Recent : String → ℕ → Processor → Type 0
Recent key t p = (u : ℕ) × (lookup key p.last_dispatch_ts ≡ some u) × (t ≤ u)

-- The output dispatches an event of the key on its own.
abbrev pub is_single : String → Output → Bool
is_single key silent = false
is_single key (dispatched k hook_id e) = k == key
is_single key (summarized k hook_id e n first last) = false

abbrev pub dispatches : String → Result Untracked Output → Bool
dispatches key (ok out) = is_single key out
dispatches key (raised x) = false

-- What is known of a step within the window of a dispatch at `t`.
abbrev pub IsQuiet : String → ℕ → Bool → Processor → Type 0
IsQuiet key t single_one after = (single_one ≡ false) × Recent key t after

put-Recent :
    (key k : String) (t now : ℕ) (p : Processor)
    → t ≤ now
    → Recent key t p
    → Recent key t (record p { last_dispatch_ts = put k now p.last_dispatch_ts })
put-Recent key k t now p later (u, last, h) =
    let found = lookup-put k key now p.last_dispatch_ts in
    elim (Bool-cases (k == key)) [
      | inl same ↦ (now, found ∙ rw same refl, later)
      | inr other ↦ (u, found ∙ rw other last, h)
    ]

out_of_window : (now t u : ℕ) → t ≤ u → now < t + dedupe_window → ltb now (u + dedupe_window) ≡ true
out_of_window now t u h within = ground (arith, h, within)

within_last :
    (key k : String) (t now : ℕ) (p : Processor)
    → now < t + dedupe_window
    → Recent key t p
    → (k == key) ≡ true
    → is_within dedupe_window now (lookup k p.last_dispatch_ts) ≡ true
within_last key k t now p within (u, last, h) same =
    ap (λ o. is_within dedupe_window now o)
      (ap (λ j. lookup j p.last_dispatch_ts) ((eq_iff k key).0 same) ∙ last)
    ∙ out_of_window now t u h within

not_key : (b w : Bool) → w ≡ false → (b ≡ true → w ≡ true) → b ≡ false
not_key true w h k = sym (k refl) ∙ h
not_key false w h k = refl

single-IsQuiet :
    (key k hook_id : String) (e : Enriched) (t now : ℕ) (p : Processor)
    → t ≤ now
    → now < t + dedupe_window
    → Recent key t p
    → IsQuiet key t (is_single key (single k hook_id e now p).0) (single k hook_id e now p).1
unfolding single
single-IsQuiet key k hook_id e t now p later within r =
    elim (Bool-cases (is_within dedupe_window now (lookup k p.last_dispatch_ts))) [
      | inl w ↦ rw w (refl, r)
      | inr w ↦ rw w (
        not_key (k == key) _ w (within_last key k t now p within r),
        put-Recent key k t now p later r,
      )
    ]

burst-IsQuiet :
    (key k hook_id : String) (e : Enriched) (entries : List (ℕ × String)) (t now : ℕ)
    (p : Processor)
    → t ≤ now
    → Recent key t p
    → IsQuiet key t
        (is_single key (burst k hook_id e entries now p).0)
        (burst k hook_id e entries now p).1
unfolding burst
burst-IsQuiet key k hook_id e entries t now p later r =
    elim (Bool-cases (is_within burst_window now (lookup k p.burst_emitted_ts))) [
      | inl w ↦ rw w (refl, r)
      | inr w ↦ rw w (refl, put-Recent key k t now p later r)
    ]

pub throttle-IsQuiet :
    (key k hook_id : String) (e : Enriched) (t now : ℕ) (p : Processor)
    → t ≤ now
    → now < t + dedupe_window
    → Recent key t p
    → IsQuiet key t (is_single key (throttle k hook_id e now p).0) (throttle k hook_id e now p).1
unfolding throttle
throttle-IsQuiet key k hook_id e t now p later within r =
    let entries = recent now (entries_of (lookup k p.window)) in
    elim (Bool-cases (ltb burst_max_per_window (length entries + 1))) [
      | inl many ↦ rw many (burst-IsQuiet key k hook_id e entries t now _ later r)
      | inr few ↦ rw few (single-IsQuiet key k hook_id e t now _ later within r)
    ]

-- A step that dispatches the key is remembered with its time.
abbrev pub IsRemembered : String → ℕ → Output × Processor → Type 0
IsRemembered key now s = is_single key s.0 ≡ true → Recent key now s.1

kept_if :
    (key : String) (now : ℕ) (b : Bool) (x y : Output × Processor)
    → IsRemembered key now x
    → IsRemembered key now y
    → IsRemembered key now (if b then x else y)
kept_if key now true x y h k = h
kept_if key now false x y h k = k

nothing : {A : Type 0} → false ≡ true → A
nothing h = cc

single-dispatches :
    (key k hook_id : String) (e : Enriched) (now : ℕ) (p : Processor)
    → IsRemembered key now (single k hook_id e now p)
unfolding single
single-dispatches key k hook_id e now p =
    kept_if key now (is_within dedupe_window now (lookup k p.last_dispatch_ts)) _ _ nothing (λ h. (
      now,
      ap (λ j. lookup j (put k now p.last_dispatch_ts)) (sym ((eq_iff k key).0 h))
          ∙ lookup-put_self k now p.last_dispatch_ts,
      omega arith,
    ))

burst-dispatches :
    (key k hook_id : String) (e : Enriched) (entries : List (ℕ × String)) (now : ℕ) (p : Processor)
    → IsRemembered key now (burst k hook_id e entries now p)
unfolding burst
burst-dispatches key k hook_id e entries now p =
    kept_if key now (is_within burst_window now (lookup k p.burst_emitted_ts)) _ _ nothing nothing

pub throttle-dispatches :
    (key k hook_id : String) (e : Enriched) (now : ℕ) (p : Processor)
    → IsRemembered key now (throttle k hook_id e now p)
unfolding throttle
throttle-dispatches key k hook_id e now p =
    let entries = recent now (entries_of (lookup k p.window)) in
    kept_if key now (ltb burst_max_per_window (length entries + 1)) _ _
      (burst-dispatches key k hook_id e entries now _) (single-dispatches key k hook_id e now _)
