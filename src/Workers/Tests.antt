-- ===== src/Workers/Tests.antt =====
-- The theorems on workers at concrete inputs.
use waverless.Base.{◌≡◌, refl, true, false, none, [], ◌∷◌, String, pos, Time}
use waverless.Store.{WorkerRow}
use waverless.Tasks.Table.{assigned_to}
use waverless.Tasks.Service.{Faults, new_task}
use waverless.Workers.{State, Setting, Report, pull_jobs, cleanup_offline_workers}
use waverless.Workers.Draining.{GivesNone, pull_jobs-GivesNone}
use waverless.Workers.Offline.{cleanup_offline_workers-idle}

abbrev worker : String → Time → WorkerRow
worker status beat = record {
  worker_id = "w";
  endpoint = "e";
  pod_name = "w";
  status = status;
  failure_type = "";
  failure_reason = "";
  failure_details = "";
  failure_occurred_at = none;
  current_jobs = pos 0;
  last_heartbeat = beat;
  last_task_time = none;
}

abbrev draining : State
draining = record { workers = worker "DRAINING" 900 ∷ []; tasks = new_task 1 "a" "e" "" 500 ∷ [] }

abbrev setting : Setting
setting = record {
  heartbeat_fails = false;
  get_fails = false;
  status_fails = false;
  commits = true;
  is_terminating = λ pod. false;
}

abbrev report : Report
report = record { named = 0; count = pos 0 }

pull_jobs-GivesNone_example :
    GivesNone "w" draining
      (pull_jobs setting 1000 "w" "e" report (pos 1) draining).1
      (pull_jobs setting 1000 "w" "e" report (pos 1) draining).0
pull_jobs-GivesNone_example =
    pull_jobs-GivesNone setting 1000 "w" "e" report (pos 1) draining
      (record { row = worker "DRAINING" 900; there = refl; draining = refl })

-- The worker of a running task has been silent for an hour.
abbrev lost : State
lost = record {
  workers = worker "BUSY" 1000 ∷ [];
  tasks = assigned_to "w" 1000 (new_task 1 "a" "e" "" 500) ∷ [];
}

abbrev faultless : Faults
faultless = record { reads = false; writes = false; events = false }

cleanup_offline_workers-idle_example :
    (cleanup_offline_workers 60000000000 faultless 3600000001000 3600000002000
      (λ w. 3600000003000)
      lost).tasks
    ≡ lost.tasks
cleanup_offline_workers-idle_example =
    cleanup_offline_workers-idle 60000000000 faultless 3600000001000 3600000002000
      (λ w. 3600000003000) lost (refl, tt) (refl, tt)
