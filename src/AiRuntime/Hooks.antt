-- ===== src/AiRuntime/Hooks.antt =====
-- EventProcessor of services/ai/airuntime/khook.py: dedupe and burst control of cluster events.
use observability_kit.Prelude.{
  ℕ, ◌+◌, ◌*◌, String, Bool, false, ◌&&◌, List, [], ◌∷◌, ◌++◌, Option, none, some, ◌==◌, ltb, elem,
  length, if◌then◌else◌,
}
use observability_kit.Prelude.Dict.{Dict, lookup, put}
use observability_kit.Prelude.Exec.{Result, ok, raised}
use observability_kit.Time.{second}
use Prim.Native.String.{◌++◌ as text_append}
pub mod Quiet
pub mod Runs
mod Tests

-- What process reads of an Event of the cluster's API, whose fields are texts: none if absent, and
-- an absent message is empty.
pub record RawEvent : Type 0 where
  pub uid : Option String
  pub kind : Option String
  pub name : Option String
  pub reason : Option String
  pub message : String
  pub last_timestamp : Option String
  pub event_time : Option String
  pub creation_timestamp : Option String
  pub object_namespace : Option String
  pub metadata_namespace : Option String

pub record Hook : Type 0 where
  pub kind : String
  pub reason : String
  pub severity : String

abbrev hook : String → String → String → Hook
hook kind reason severity = record { kind = kind; reason = reason; severity = severity }

abbrev pub hooks : Dict Hook
hooks =
    ("pod-restart", hook "Pod" "Restarted" "high")
    ∷ ("oom-kill", hook "Pod" "OOMKilled" "critical")
    ∷ ("probe-failed", hook "Pod" "Unhealthy" "medium")
    ∷ ("pod-pending", hook "Pod" "FailedScheduling" "medium")
    ∷ ("node-not-ready", hook "Node" "NodeNotReady" "critical")
    ∷ []

abbrev is_some_text : String → Option String → Bool
is_some_text t none = false
is_some_text t (some s) = s == t

unfoldable pub find_hook : RawEvent → Dict Hook → Option String
find_hook e [] = none
find_hook e ((hook_id, h) ∷ more) =
    let rest = find_hook e more in
    if is_some_text h.kind e.kind && is_some_text h.reason e.reason then some hook_id else rest

abbrev pub match_hook : RawEvent → Option String
match_hook e = find_hook e hooks

pub record Enriched : Type 0 where
  pub event_id : String
  pub event_timestamp : String
  pub cluster : String
  pub namespace : String
  pub object_kind : String
  pub object_name : String
  pub reason : String
  pub message : String
  pub incident_correlation_key : String

-- `a or b`
abbrev or_text : Option String → Option String → Option String
or_text none b = b
or_text (some s) b = if s == "" then b else some s

abbrev text_or : Option String → String → String
text_or none t = t
text_or (some s) t = s

unfoldable pub joined : List String → String
joined [] = ""
joined (s ∷ []) = s
joined (s ∷ t ∷ ss) = text_append s (text_append "|" (joined (t ∷ ss)))

-- The raised ValueError of an event that cannot be tracked.
pub data Untracked : Type 0 where
  no_uid missing_fields : Untracked

-- The envelope that is sent, with the dedupe key of its event; the envelope's constant fields are
-- left out.
pub data Output : Type 0 where
  silent : Output
  dispatched : (key hook_id : String) → Enriched → Output
  summarized :
      (key hook_id : String)
      → Enriched
      → (suppressed_event_count : ℕ) (first_seen_at last_seen_at : String) → Output

-- The counters are left out.
pub record Processor : Type 0 where
  pub seen_uids : List String
  pub last_dispatch_ts : Dict ℕ
  pub window : Dict (List (ℕ × String))
  pub burst_emitted_ts : Dict ℕ

abbrev pub dedupe_window : ℕ
dedupe_window = 300 * second

abbrev pub burst_window : ℕ
burst_window = 60 * second

abbrev pub burst_max_per_window : ℕ
burst_max_per_window = 10

unfoldable pub recent : ℕ → List (ℕ × String) → List (ℕ × String)
recent now [] = []
recent now ((at, stamp) ∷ more) =
    let rest = recent now more in if ltb now (at + burst_window) then (at, stamp) ∷ rest else rest

abbrev pub entries_of : Option (List (ℕ × String)) → List (ℕ × String)
entries_of none = []
entries_of (some entries) = entries

-- `now_ts - last < window`, of a time that may not be there
abbrev pub is_within : ℕ → ℕ → Option ℕ → Bool
is_within window now none = false
is_within window now (some last) = ltb now (last + window)

abbrev first_of : List (ℕ × String) → String → String
first_of [] stamp = stamp
first_of ((at, first) ∷ more) stamp = first

-- More events than a window may have: one summary for a window.
unfoldable pub burst :
    String → String → Enriched → List (ℕ × String) → ℕ → Processor → Output × Processor
burst key hook_id e entries now p =
    if is_within burst_window now (lookup key p.burst_emitted_ts) then (silent, p) else (
      summarized key hook_id e (length entries) (first_of entries e.event_timestamp)
          e.event_timestamp,
      record p {
        burst_emitted_ts = put key now p.burst_emitted_ts;
        last_dispatch_ts = put key now p.last_dispatch_ts;
      },
    )

unfoldable pub single : String → String → Enriched → ℕ → Processor → Output × Processor
single key hook_id e now p =
    if is_within dedupe_window now (lookup key p.last_dispatch_ts)
    then (silent, p)
    else (dispatched key hook_id e, record p { last_dispatch_ts = put key now p.last_dispatch_ts })

-- The event enters its key's window; `entries` are those before it that are still recent.
unfoldable pub throttle : String → String → Enriched → ℕ → Processor → Output × Processor
throttle key hook_id e now p =
    let entries = recent now (entries_of (lookup key p.window)) in
    let after = record p { window = put key (entries ++ (now, e.event_timestamp) ∷ []) p.window } in
    if ltb burst_max_per_window (length entries + 1)
    then burst key hook_id e entries now after
    else single key hook_id e now after

unfoldable pub dedupe_key : Enriched → String
dedupe_key e = joined (e.incident_correlation_key ∷ e.reason ∷ e.object_kind ∷ e.object_name ∷ [])

-- `digest` is the hexadecimal sha256 of a text.
module _ (digest : String → String) (cluster : String) where
  unfoldable pub enrich : String → RawEvent → Result Untracked Enriched
  enrich uid e =
      let stamp = or_text e.last_timestamp (or_text e.event_time e.creation_timestamp) in
      let namespace = text_or (or_text e.object_namespace e.metadata_namespace) "" in
      elim stamp [
        | none ↦ raised missing_fields
        | some event_timestamp ↦ elim e.name [
          | none ↦ raised missing_fields
          | some object_name ↦
              let object_kind = text_or e.kind "" in
              let reason = text_or e.reason "" in
              ok (record {
                event_id = uid;
                event_timestamp = event_timestamp;
                cluster = cluster;
                namespace = namespace;
                object_kind = object_kind;
                object_name = object_name;
                reason = reason;
                message = e.message;
                incident_correlation_key =
                    digest (joined (cluster ∷ namespace ∷ object_kind ∷ object_name ∷ reason ∷ []));
              })
        ]
      ]

  abbrev pub track :
      Result Untracked Enriched → String → ℕ → Processor → Result Untracked Output × Processor
  track (raised x) hook_id now p = (raised x, p)
  track (ok e) hook_id now p =
      let (out, after) = throttle (dedupe_key e) hook_id e now p in (ok out, after)

  abbrev pub matched :
      Option String → String → RawEvent → ℕ → Processor → Result Untracked Output × Processor
  matched none uid e now p = (ok silent, p)
  matched (some hook_id) uid e now p = track (enrich uid e) hook_id now p

  abbrev pub process_uid : String → RawEvent → ℕ → Processor → Result Untracked Output × Processor
  process_uid uid e now p =
      if uid == ""
      then (raised no_uid, p)
      else if elem uid p.seen_uids
      then (ok silent, p)
      else matched (match_hook e) uid e now (record p { seen_uids = uid ∷ p.seen_uids })

  unfoldable pub process : RawEvent → ℕ → Processor → Result Untracked Output × Processor
  process e now p = elim e.uid [ none ↦ (raised no_uid, p) | some uid ↦ process_uid uid e now p ]
