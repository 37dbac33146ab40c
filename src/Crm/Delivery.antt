-- ===== src/Crm/Delivery.antt =====
-- What becomes of a lead: app/agent/tools/crm.py, app/services/redis.py and crm_worker.py.
use mathlib.Core.List.{reverse-cons, append_assoc}
use leadpulse.Prelude.{
  ℕ, suc, ◌≤◌, ◌<◌, true, false, ◌≡◌, refl, sym, inl, inr, some, List, [], ◌∷◌, ◌++◌, reverse,
  length, or_else, Bool-cases, arith,
}
use leadpulse.Prelude.Text.{Text, text}
use leadpulse.Crm.{Dict, PushResult, Attempt, returned, raised, retry_with_backoff}
use leadpulse.Crm.Push.{
  Systems, Integration, integration_type, resolve_integration, Outbox, try_log, status_of, error_of,
  log_entry, Job, PushedLead, PushLog, Report, pushed, failed, first_job, report, update_crm,
  enqueue_crm_push,
}
use leadpulse.Crm.Worker.{
  brpop, process_push, dequeue_crm_push, QueueEvent, queued, polled, queue_step, run,
}
use leadpulse.Crm.Calls.{retry_from-returned, retry_from-raised, Attempt-cases}

-- The first calls raised.
abbrev pub AllRaised : (ℕ → Attempt PushResult) → ℕ → Type 0
AllRaised calls n = (j : ℕ) → j < n → (e : Text) × (calls j ≡ raised e)

-- How a push ends, after the first four calls at most: the first of them that returned succeeded,
-- or it was refused, or all of them raised; in the last two cases the lead is a job at the left of
-- the queue.
pub data Ends (calls : ℕ → Attempt PushResult) (j : Job) (q : List Job) (end : Report × Outbox)
    : Type 0 where
  delivered :
      (k : ℕ) (r : PushResult)
      → k ≤ 3
      → AllRaised calls k
      → calls k ≡ returned r
      → r.success ≡ true
      → end.0 ≡ pushed r.status r.external_id
      → end.1.queue ≡ some q
      → Ends calls j q end
  refused :
      (k : ℕ) (r : PushResult)
      → k ≤ 3
      → AllRaised calls k
      → calls k ≡ returned r
      → r.success ≡ false
      → end.0 ≡ failed (or_else r.error_message [])
      → end.1.queue ≡ some (j ∷ q)
      → Ends calls j q end
  exhausted :
      AllRaised calls 4
      → end.0 ≡ failed (text "push_error")
      → end.1.queue ≡ some (j ∷ q)
      → Ends calls j q end

report-Ends :
    (jitter : ℕ → ℕ) (calls : ℕ → Attempt PushResult) (l : PushedLead) (t : Text)
    (x : Attempt PushResult) (b : Outbox) (q : List Job)
    → (retry_with_backoff jitter 1000 calls 3).0 ≡ x
    → b.queue ≡ some q
    → Ends calls (first_job l t) q (report l t x b)
unfolding enqueue_crm_push retry_with_backoff
report-Ends jitter calls l t (raised e) b q came h =
    let before = retry_from-raised jitter 1000 calls 3 0 e came in
    exhausted (λ j lt. before j (omega arith) (omega (arith, lt))) refl (ground arith)
report-Ends jitter calls l t (returned r) b q came h =
    let (k, bound, here, before) = retry_from-returned jitter 1000 calls 3 0 r came in
    let first : AllRaised calls k = λ j lt. before j (omega arith) lt in
    elim (Bool-cases r.success) [
      | inl e ↦ delivered k r bound first here e (ground arith) (ground arith)
      | inr e ↦ refused k r bound first here e (ground arith) (ground arith)
    ]

try_log-queue : (w : Systems) (l : PushLog) (b : Outbox) → (try_log w l b).queue ≡ b.queue
try_log-queue w l b = ground arith

-- A lead of a tenant whose integration can be resolved is not lost while Redis is there, and the
-- report tells what came of it: the first call of push_lead that returned, of four at most,
-- succeeded, and the queue stays as it is; or that call was refused, or all four raised, and the
-- lead is queued once for the worker and reported as failed.
pub update_crm-Ends :
    (w : Systems) (session : Text) (lead_data : Dict) (tenant : Text) (b : Outbox) (i : Integration)
    (q : List Job)
    → resolve_integration w tenant ≡ returned i
    → b.queue ≡ some q
    → Ends
        (w.calls i lead_data)
        (first_job
          (record { tenant_id = tenant; session_id = session; lead_data = lead_data })
          (integration_type i))
        q
        (update_crm w session lead_data (some tenant) b)
unfolding update_crm
update_crm-Ends w session lead_data tenant b i q resolved here =
    let l : PushedLead = record {
      tenant_id = tenant;
      session_id = session;
      lead_data = lead_data;
    } in
    let x = (retry_with_backoff w.jitter 1000 (w.calls i lead_data) 3).0 in
    let entry =
      log_entry l (integration_type i) (status_of x) 1
        (error_of (text "All retries exhausted") x) in
    rw resolved (
      report-Ends w.jitter (w.calls i lead_data) l (integration_type i) x (try_log w entry b) q refl
        (rw (try_log-queue w entry b) here))

brpop-append : (q : List Job) (j : Job) → brpop (q ++ j ∷ []) ≡ some (j, q)
unfolding brpop
brpop-append [] j = refl
brpop-append (k ∷ q) j = ground (arith, brpop-append q j)

process_push-queue : (w : Systems) (j : Job) (b : Outbox) → (process_push w j b).queue ≡ b.queue
unfolding process_push
process_push-queue w j b = elim (Bool-cases w.writes_log) [
  | inr off ↦ ground arith
  | inl on ↦ elim (Attempt-cases (resolve_integration w j.tenant_id)) [
    | inr (e, failed_) ↦ ground arith
    | inl (i, found) ↦
        elim (Attempt-cases (retry_with_backoff w.jitter 5000 (w.calls i j.lead_data) 2).0) [
          | inl (r, e) ↦ ground arith
          | inr (t, e) ↦ ground arith
        ]
  ]
]

dequeue_crm_push-last :
    (b : Outbox) (q : List Job) (j : Job)
    → b.queue ≡ some (q ++ j ∷ [])
    → dequeue_crm_push b ≡ some (j, record b { queue = some q })
unfolding dequeue_crm_push
dequeue_crm_push-last b q j h = ground (arith, brpop-append q j)

queue_step-polled :
    (w : Systems) (b : Outbox) (q : List Job) (j : Job)
    → b.queue ≡ some (q ++ j ∷ [])
    → ((queue_step (polled w) b).0 ≡ j ∷ []) × ((queue_step (polled w) b).1.queue ≡ some q)
unfolding queue_step
queue_step-polled w b q j h =
    let taken = dequeue_crm_push-last b q j h in
    (ground arith, ground (arith, process_push-queue w j (record b { queue = some q })))

-- How often the worker polls.
abbrev pub polls : List QueueEvent → ℕ
polls [] = 0
polls (queued j ∷ es) = polls es
polls (polled w ∷ es) = suc (polls es)

run-drains :
    (es : List QueueEvent) (b : Outbox) (newer older : List Job)
    → b.queue ≡ some (newer ++ reverse older)
    → length older ≤ polls es
    → (rest : List Job) × ((run es b).0 ≡ older ++ rest)
unfolding run
run-drains es b newer [] h bound = ((run es b).0, refl)
run-drains [] b newer (j ∷ older) h bound = ground arith
run-drains (queued k ∷ es) b newer (j ∷ older) h bound =
    run-drains es (queue_step (queued k) b).1 (k ∷ newer) (j ∷ older) (rw h refl) bound
run-drains (polled w ∷ es) b newer (j ∷ older) h bound =
    let (took, left) =
      queue_step-polled w b (newer ++ reverse older) j
        (rw (append_assoc newer (reverse older) (j ∷ []), sym (reverse-cons j older)) h) in
    let (rest, e) =
      run-drains es (queue_step (polled w) b).1 newer older left (omega (arith, bound)) in
    (rest, rw (took, e) refl)

-- Whatever the web server queues meanwhile and however the pushes end, as many polls as there are
-- jobs in the queue make the worker take each of these jobs once, the oldest first and before every
-- later one.
pub run-queue :
    (es : List QueueEvent) (b : Outbox) (older : List Job)
    → b.queue ≡ some (reverse older)
    → length older ≤ polls es
    → (rest : List Job) × ((run es b).0 ≡ older ++ rest)
run-queue es b older h bound = run-drains es b [] older h bound
