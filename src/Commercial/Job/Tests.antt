-- ===== src/Commercial/Job/Tests.antt =====
-- A day with the queries of one tenant.
use observability_kit.Prelude.{ℕ, String, Bool, false, List, [], ◌∷◌, pos}
use observability_kit.Json.{Json, int}
use observability_kit.Commercial.Metering.{DayWindow, QueryVolumeStat, build_usage_records}
use observability_kit.Commercial.Job.{files, run_job}
use observability_kit.Commercial.Job.Gated.{IsRun, run_job-IsRun}

abbrev window : DayWindow
window = record { day = "2026-07-09"; next_day = "2026-07-10"; index_suffix = "2026.07.09" }

abbrev queries : List QueryVolumeStat
queries = record { tenant_id = "acme"; query_count = 40; indices = [] } ∷ []

abbrev written_value : ℕ → Json
written_value k = int (pos k)

abbrev never : String → Bool
never digits = false

abbrev same : ℕ → ℕ
same k = k

run_job-IsRun_example :
    IsRun written_value files never window
      (build_usage_records same same window "2026-07-10T01:00:00Z" "v1" [] [] queries)
      []
      (run_job written_value files never same same window "2026-07-10T01:00:00Z" "v1" [] [] queries
        []).0
      (run_job written_value files never same same window "2026-07-10T01:00:00Z" "v1" [] [] queries
        []).1
run_job-IsRun_example =
    run_job-IsRun written_value files never same same window "2026-07-10T01:00:00Z" "v1" [] []
      queries []
