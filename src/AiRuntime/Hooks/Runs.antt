-- ===== src/AiRuntime/Hooks/Runs.antt =====
-- The events of a processor over time.
use observability_kit.Prelude.{
  ℕ, ◌+◌, ◌≤◌, ◌<◌, String, Bool, true, false, List, [], ◌∷◌, Option, none, some, ◌==◌, ◌≡◌, refl,
  elem, if◌then◌else◌,
}
use observability_kit.Prelude.Exec.{Result, ok, raised}
use observability_kit.Prelude.Sort.{All}
use observability_kit.AiRuntime.Hooks.{
  RawEvent, match_hook, Enriched, Untracked, Output, Processor, dedupe_window, dedupe_key, enrich,
  track, matched, process_uid, process, no_uid,
}
use observability_kit.AiRuntime.Hooks.Quiet.{
  Recent, dispatches, throttle-IsQuiet, throttle-dispatches,
}

abbrev pub Step : Type 0
Step = Result Untracked Output × Processor

-- What a step does to a key that was dispatched at `t`.
abbrev StaysQuiet : String → ℕ → Step → Type 0
StaysQuiet key t s = (dispatches key s.0 ≡ false) × Recent key t s.1

-- What a step that dispatches the key at `now` leaves.
abbrev Remembers : String → ℕ → Step → Type 0
Remembers key now s = dispatches key s.0 ≡ true → Recent key now s.1

quiet_if :
    (key : String) (t : ℕ) (b : Bool) (x y : Step)
    → StaysQuiet key t x
    → StaysQuiet key t y
    → StaysQuiet key t (if b then x else y)
quiet_if key t true x y h k = h
quiet_if key t false x y h k = k

either_if :
    (key : String) (now : ℕ) (b : Bool) (x y : Step)
    → Remembers key now x
    → Remembers key now y
    → Remembers key now (if b then x else y)
either_if key now true x y h k = h
either_if key now false x y h k = k

nothing : {A : Type 0} → false ≡ true → A
nothing h = cc

module _ (digest : String → String) (cluster : String) where
  track-quiet :
      (key : String) (t now : ℕ) (r : Result Untracked Enriched) (hook_id : String) (p : Processor)
      → t ≤ now
      → now < t + dedupe_window
      → Recent key t p
      → StaysQuiet key t (track digest cluster r hook_id now p)
  track-quiet key t now (raised x) hook_id p later within r = (refl, r)
  track-quiet key t now (ok e) hook_id p later within r =
      throttle-IsQuiet key (dedupe_key e) hook_id e t now p later within r

  matched-quiet :
      (key : String) (t now : ℕ) (o : Option String) (uid : String) (e : RawEvent) (p : Processor)
      → t ≤ now
      → now < t + dedupe_window
      → Recent key t p
      → StaysQuiet key t (matched digest cluster o uid e now p)
  matched-quiet key t now none uid e p later within r = (refl, r)
  matched-quiet key t now (some hook_id) uid e p later within r =
      track-quiet key t now (enrich digest cluster uid e) hook_id p later within r

  process_uid-quiet :
      (key : String) (t now : ℕ) (uid : String) (e : RawEvent) (p : Processor)
      → t ≤ now
      → now < t + dedupe_window
      → Recent key t p
      → StaysQuiet key t (process_uid digest cluster uid e now p)
  process_uid-quiet key t now uid e p later within r =
      quiet_if key t (uid == "") _ _ (refl, r)
        (quiet_if key t (elem uid p.seen_uids) _ _ (refl, r)
          (matched-quiet key t now (match_hook e) uid e _ later within r))

  process-quiet :
      (key : String) (t now : ℕ) (e : RawEvent) (p : Processor)
      → t ≤ now
      → now < t + dedupe_window
      → Recent key t p
      → StaysQuiet key t (process digest cluster e now p)
  unfolding process
  process-quiet key t now e p later within r = go e.uid
    where
      go :
          (o : Option String)
          → StaysQuiet key t (elim o [
            | none ↦ (raised no_uid, p)
            | some uid ↦ process_uid digest cluster uid e now p
          ])
      go none = (refl, r)
      go (some uid) = process_uid-quiet key t now uid e p later within r

  track-Remembers :
      (key : String) (now : ℕ) (r : Result Untracked Enriched) (hook_id : String) (p : Processor)
      → Remembers key now (track digest cluster r hook_id now p)
  track-Remembers key now (raised x) hook_id p h = nothing h
  track-Remembers key now (ok e) hook_id p h =
      throttle-dispatches key (dedupe_key e) hook_id e now p h

  matched-Remembers :
      (key : String) (now : ℕ) (o : Option String) (uid : String) (e : RawEvent) (p : Processor)
      → Remembers key now (matched digest cluster o uid e now p)
  matched-Remembers key now none uid e p h = nothing h
  matched-Remembers key now (some hook_id) uid e p h =
      track-Remembers key now (enrich digest cluster uid e) hook_id p h

  process-Remembers :
      (key : String) (now : ℕ) (e : RawEvent) (p : Processor)
      → Remembers key now (process digest cluster e now p)
  unfolding process
  process-Remembers key now e p = go e.uid
    where
      go :
          (o : Option String)
          → Remembers key now (elim o [
            | none ↦ (raised no_uid, p)
            | some uid ↦ process_uid digest cluster uid e now p
          ])
      go none = nothing
      go (some uid) = either_if key now (uid == "") _ _ nothing (
          either_if key now (elem uid p.seen_uids) _ _ nothing
            (matched-Remembers key now (match_hook e) uid e _))

  -- The results of the events, each with its reading of the clock.
  unfoldable pub results : List (RawEvent × ℕ) → Processor → List (Result Untracked Output)
  results [] p = []
  results ((e, now) ∷ es) p =
      let (r, after) = process digest cluster e now p in r ∷ results es after

  -- The event comes within the dedupe window of `t`.
  abbrev pub IsWithin : ℕ → RawEvent × ℕ → Type 0
  IsWithin t event = (t ≤ event.1) × (event.1 < t + dedupe_window)

  results-quiet :
      (key : String) (t : ℕ) (es : List (RawEvent × ℕ)) (p : Processor)
      → All (IsWithin t) es
      → Recent key t p
      → All (λ r. dispatches key r ≡ false) (results es p)
  unfolding results
  results-quiet key t [] p h r = tt
  results-quiet key t ((e, now) ∷ es) p h r =
      let (quiet, still) = process-quiet key t now e p h.0.0 h.0.1 r in
      (quiet, results-quiet key t es _ h.1 still)

  -- Once an event of a dedupe key is dispatched, no event of that key is dispatched on its own for the
  -- next 300 seconds, whatever other events come in between and whichever bursts are summarized.
  pub process-results :
      (key : String) (now : ℕ) (e : RawEvent) (p : Processor) (es : List (RawEvent × ℕ))
      → dispatches key (process digest cluster e now p).0 ≡ true
      → All (IsWithin now) es
      → All (λ r. dispatches key r ≡ false) (results es (process digest cluster e now p).1)
  process-results key now e p es sent within =
      results-quiet key now es _ within (process-Remembers key now e p sent)
