-- ===== src/Commercial/Job/Gated.antt =====
-- What a run of the metering job writes.
use observability_kit.Prelude.{
  ℕ, String, Bool, true, List, [], ◌∷◌, map, null, append-eq-nil, none, some, ◌++◌, false, ◌==◌,
  ◌≡◌, ◌⊎◌, inl, inr, refl, ap, sym, subst, ◌∙◌, arith, if◌then◌else◌,
}
use observability_kit.Prelude.Exec.{Result, ok, raised}
use Prim.Native.String.{◌++◌ as text_append}
use text.Mathlib.TextLemmas.{cons-append}
use observability_kit.Prelude.Sort.{All}
use observability_kit.Json.{Json, Fields}
use observability_kit.Prelude.Dict.{lookup, put, lookup-put, lookup-put_self}
use observability_kit.Text.{starts_with}
use observability_kit.Commercial.Models.{UsageRecord}
use observability_kit.Commercial.Metering.{
  DayWindow, IngestStat, TenantRetention, QueryVolumeStat, build_usage_records,
}
use observability_kit.Commercial.Validation.{Problem}
use observability_kit.Commercial.Validation.Usage.{IsUsage}
use observability_kit.Commercial.Validation.Sound.{validate_record-IsUsage}
use observability_kit.Commercial.Job.{
  JobError, invalid, usage_index_for, ensure_control_plane_index, Written, Sink, in_memory, files,
  keep, extend, record_dict, named, record_problems, ensure_valid_records, write, after_write,
  gated, run_job,
}

starts_with-append :
    (p s t : String) → starts_with p s ≡ true → starts_with p (text_append s t) ≡ true
starts_with-append String.[] s t h = refl
starts_with-append (String.◌∷◌ c p) String.[] t h = ground arith
starts_with-append (String.◌∷◌ c p) (String.◌∷◌ d s) t h =
    rw (cons-append d s t) (ground (arith, starts_with-append p s t))

ensure_control_plane_index-usage :
    (w : DayWindow) → ensure_control_plane_index (usage_index_for w) ≡ ok tt
unfolding ensure_control_plane_index
ensure_control_plane_index-usage w =
    rw (starts_with-append "control-tenancy-" "control-tenancy-usage-v1-" w.index_suffix refl) refl

module _ {F : Type 0} (of_value : F → Json) where
  write-usage :
      (sink : Sink) (w : DayWindow) (records : List (UsageRecord F)) (written : Written)
      → write of_value sink (usage_index_for w) records written
        ≡ (ok tt, keep sink (usage_index_for w) (map (record_dict of_value) records) written)
  unfolding write
  write-usage sink w records written = rw (ensure_control_plane_index-usage w, write) refl

  -- The document of the record is a usage record.
  abbrev pub IsRecorded : UsageRecord F → Type 0
  IsRecorded r = IsUsage (record_dict of_value r)

  named-eq-nil : (id : String) (ps : List Problem) → named of_value id ps ≡ [] → ps ≡ []
  named-eq-nil id [] h = refl
  named-eq-nil id (p ∷ ps) h = cc

  record_problems-nil :
      (is_one : String → Bool) (rs : List (UsageRecord F))
      → record_problems of_value is_one rs ≡ []
      → All IsRecorded rs
  unfolding record_problems
  record_problems-nil is_one [] h = tt
  record_problems-nil is_one (r ∷ rs) h =
      let (own, rest) = append-eq-nil _ _ h in
      (
        validate_record-IsUsage is_one (record_dict of_value r) (named-eq-nil r.record_id _ own),
        record_problems-nil is_one rs rest,
      )

  -- The documents of an index after a write to it.
  abbrev pub Holds : Sink → String → List Fields → Written → Written → Type 0
  Holds in_memory index documents before after =
      (lookup index before ≡ none → lookup index after ≡ some documents)
      × ((there : List Fields)
          → lookup index before ≡ some there
          → lookup index after ≡ some (there ++ documents))
  Holds files index documents before after = lookup index after ≡ some documents

  -- The run has raised the errors of its records before its sink was written, or it has written all
  -- its records, and no other index.
  abbrev pub IsRun :
      Sink
      → (String → Bool)
      → DayWindow
      → List (UsageRecord F)
      → Written
      → Result JobError (List (UsageRecord F))
      → Written
      → Type 0
  IsRun sink is_one w records before r after =
      ((null (record_problems of_value is_one records) ≡ false)
        × (r ≡ raised (invalid (record_problems of_value is_one records)))
        × (after ≡ before))
      ⊎ ((r ≡ ok records)
          × All IsRecorded records
          × Holds sink (text_append "control-tenancy-usage-v1-" w.index_suffix)
              (map (record_dict of_value) records) before after
          × ((index : String)
              → (text_append "control-tenancy-usage-v1-" w.index_suffix == index) ≡ false
              → lookup index after ≡ lookup index before))

  keep-Holds :
      (sink : Sink) (index : String) (documents : List Fields) (before : Written)
      → Holds sink index documents before (keep sink index documents before)
  unfolding keep extend
  keep-Holds in_memory index documents before = (
    λ e. rw e (lookup-put_self index documents before),
    λ there e. rw e (lookup-put_self index (there ++ documents) before),
  )
  keep-Holds files index documents before = lookup-put_self index documents before

  put-other :
      (k j : String) (v : List Fields) (m : Written)
      → (k == j) ≡ false
      → lookup j (put k v m) ≡ lookup j m
  put-other k j v m e = lookup-put k j v m ∙ ap (λ b. if b then some v else lookup j m) e

  keep-other :
      (sink : Sink) (index : String) (documents : List Fields) (before : Written) (other : String)
      → (index == other) ≡ false
      → lookup other (keep sink index documents before) ≡ lookup other before
  unfolding keep extend
  keep-other in_memory index documents before other e = put-other index other _ before e
  keep-other files index documents before other e = put-other index other _ before e

  gated-IsRun :
      (sink : Sink) (is_one : String → Bool) (w : DayWindow) (records : List (UsageRecord F))
      (before : Written) (problems : List (String × Problem))
      → record_problems of_value is_one records ≡ problems
      → IsRun sink is_one w records before
          (gated of_value sink
            (if null problems then ok tt else raised (invalid problems))
            (usage_index_for w)
            records
            before).0
          (gated of_value sink
            (if null problems then ok tt else raised (invalid problems))
            (usage_index_for w)
            records
            before).1
  gated-IsRun sink is_one w records before [] h =
      let wrote = write-usage sink w records before in
      let documents = map (record_dict of_value) records in
      let after = ap (λ q. (after_write of_value records q).1) wrote in
      inr (
        ap (λ q. (after_write of_value records q).0) wrote,
        record_problems-nil is_one records h,
        subst (Holds sink (usage_index_for w) documents before) (sym after)
            (keep-Holds sink (usage_index_for w) documents before),
        λ other e.
            ap (lookup other) after ∙ keep-other sink (usage_index_for w) documents before other e,
      )
  gated-IsRun sink is_one w records before (p ∷ ps) h =
      inl (ap null h, ap (λ x. raised (invalid x)) (sym h), refl)

  -- A run of the metering job over the in-memory sink or the file sink ends in one of two ways. The
  -- records of the window have errors; then exactly these are raised, and the sink is as it was. Or
  -- all the records are returned, each of them a valid usage record, and exactly their documents have
  -- been written to the control-plane index of the window's day: the in-memory sink has them behind
  -- the documents of that index, the file sink has them in place of its file, and every other index is
  -- as it was. No run is refused for its index.
  pub run_job-IsRun :
      (sink : Sink) (is_one : String → Bool) (of_nat gigabytes : ℕ → F) (w : DayWindow)
      (collected_at version : String) (stats : List IngestStat) (retentions : List TenantRetention)
      (queries : List QueryVolumeStat) (before : Written)
      → IsRun sink is_one w
          (build_usage_records of_nat gigabytes w collected_at version stats retentions queries)
          before
          (run_job of_value sink is_one of_nat gigabytes w collected_at version stats retentions
            queries before).0
          (run_job of_value sink is_one of_nat gigabytes w collected_at version stats retentions
            queries before).1
  unfolding run_job ensure_valid_records
  run_job-IsRun sink is_one of_nat gigabytes w collected_at version stats retentions queries
        before =
      let records =
        build_usage_records of_nat gigabytes w collected_at version stats retentions queries in
      gated-IsRun sink is_one w records before (record_problems of_value is_one records) refl
