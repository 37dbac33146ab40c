-- ===== src/Crm/Worker.antt =====
-- The worker of the queue of pushes: app/services/crm_worker.py, with dequeue_crm_push of
-- app/services/redis.py.
use leadpulse.Prelude.{◌+◌, Option, none, some, List, [], ◌∷◌, ◌++◌, if◌then◌else◌}
use leadpulse.Prelude.Text.{Text, text}
use leadpulse.Crm.{Attempt, returned, raised, PushResult, retry_with_backoff}
use leadpulse.Crm.Push.{
  Systems, Outbox, Job, PushedLead, PushLog, log_crm_push, log_entry, resolve_integration,
  enqueue_crm_push,
}

abbrev keep_left : Job → Option (Job × List Job) → Option (Job × List Job)
keep_left j none = some (j, [])
keep_left j (some taken) = some (taken.0, j ∷ taken.1)

-- `brpop`: the job at the right end, and the rest.
unfoldable pub brpop : List Job → Option (Job × List Job)
brpop [] = none
brpop (j ∷ q) = keep_left j (brpop q)

abbrev job_lead : Job → PushedLead
job_lead j = record { tenant_id = j.tenant_id; session_id = j.session_id; lead_data = j.lead_data }

abbrev worker_failed : Job → Text → PushLog
worker_failed j e =
    log_entry (job_lead j) j.integration_type (text "worker_failed") (j.attempt + 1) (some e)

-- What the retries gave, in the log; an exception is in the log as well.
abbrev pub log_result : Job → Attempt PushResult → Outbox → Outbox
log_result j (returned r) b =
    log_crm_push
      (log_entry (job_lead j) j.integration_type r.status (j.attempt + 1) r.error_message) b
log_result j (raised e) b = log_crm_push (worker_failed j e) b

-- `process_push`. A log that cannot be written is an exception, which the worker outlives.
unfoldable pub process_push : Systems → Job → Outbox → Outbox
process_push w j b =
    if w.writes_log
    then elim (resolve_integration w j.tenant_id) [
      | raised e ↦ log_crm_push (worker_failed j e) b
      | returned i ↦ log_result j (retry_with_backoff w.jitter 5000 (w.calls i j.lead_data) 2).0 b
    ]
    else b

-- `dequeue_crm_push`, within its timeout: the job, and what is left in the queue.
unfoldable pub dequeue_crm_push : Outbox → Option (Job × Outbox)
dequeue_crm_push b = elim b.queue [
  | none ↦ none
  | some q ↦ elim (brpop q) [
    | none ↦ none
    | some taken ↦ some (taken.0, record b { queue = some taken.1 })
  ]
]

-- What happens between the web server and the worker: a push is queued, or the worker polls.
pub data QueueEvent : Type 0 where
  queued : Job → QueueEvent
  polled : Systems → QueueEvent

-- One event: the jobs that the worker took, and the log and the queue after it.
unfoldable pub queue_step : QueueEvent → Outbox → List Job × Outbox
unfolding enqueue_crm_push dequeue_crm_push
queue_step (queued j) b = ([], enqueue_crm_push j b)
queue_step (polled w) b = elim (dequeue_crm_push b) [
  | none ↦ ([], b)
  | some taken ↦ (taken.0 ∷ [], process_push w taken.0 taken.1)
]

abbrev pub also : List Job → List Job × Outbox → List Job × Outbox
also js r = (js ++ r.0, r.1)

-- The loop of `run_worker` among the pushes of the web server.
unfoldable pub run : List QueueEvent → Outbox → List Job × Outbox
unfolding queue_step
run [] b = ([], b)
run (e ∷ es) b = let s = queue_step e b in also s.0 (run es s.1)
