-- ===== src/Tests/Queue.antt =====
-- ecommerce_super/easyecom/queue: tests of the rows, the semaphore, the facade and the sweep.
use ecommerce_super.Base.{
  ◌+◌, ◌≤◌, ◌<◌, ◌≡◌, refl, ◌≢◌, ◌⊎◌, inl, true, false, none, some, [], ◌∷◌, map, str_eq, length,
  pos, ok,
}
use ecommerce_super.Queue.Job.{
  queued, Job, running, success, partial, failed, cancelled, validate, stamped, has_state,
}
use ecommerce_super.Queue.Job.Table.{◌⟶◌, validate-ok, unsaved, save, Saved-IsTerminal}
use ecommerce_super.Queue.Backoff.{compute_backoff}
use ecommerce_super.Queue.Backoff.Bounds.{compute_backoff_lem}
use ecommerce_super.Queue.Semaphore.{incr}
use ecommerce_super.Queue.Semaphore.Interleaving.{Pool}
use ecommerce_super.Queue.Rq.{RqCall, EnqueueReply, accepted}
use ecommerce_super.Queue.Facade.{Request, enqueue_easyecom_job, retry_job}
use ecommerce_super.Queue.Facade.Laws.{IsPaired, retry_job-IsPaired}
use ecommerce_super.Queue.Reclaim.{World, reclaim_running_orphans}
use ecommerce_super.Queue.Reclaim.{reclaim_queued_orphans}
use ecommerce_super.Queue.Reclaim.Queued.{IsRequeued, reclaim_queued_orphans-IsRequeued}
use ecommerce_super.Queue.Reclaim.Sweeping.{
  Swept, orphans, reclaim_running_orphans-Swept, reclaim_running_orphans-slots,
}
use ecommerce_super.Tests.Worker.{item_push, no_slots, failing_env, held}

compute_backoff_lem_test :
    (compute_backoff 7 7 ≤ compute_backoff 7 8)
    × (compute_backoff 7 7 ≤ 3600 + 7)
    × ((7 < 7) ⊎ (compute_backoff 7 7 ≡ 3600 + 7))
compute_backoff_lem_test = compute_backoff_lem 7 7

abbrev two_wait : Pool
two_wait = record {
  slots = no_slots;
  idle = 2;
  holding = 0;
  rolling = 0;
  dead_idle = 0;
  dead_counted = 0;
  released_extra = 0;
}

abbrev one_holds : Pool
one_holds = record two_wait { slots = (incr "Acme" no_slots).0; idle = 1; holding = 1 }

validate_pick :
    validate 200 (some item_push) (record item_push { state = running })
    ≡ ok (stamped 200 (record item_push { state = running }))
unfolding validate
validate_pick = refl

validate-ok_test :
    ((item_push.state ≡ running) ⊎ (item_push.state ⟶ running))
    × ((running ≢ partial) ⊎ ((0 < 0) × (0 < 0)))
    × (stamped 200 (record item_push { state = running })
        ≡ stamped 200 (record item_push { state = running }))
validate-ok_test = validate-ok 200 item_push (record item_push { state = running }) validate_pick

abbrev done : Job
done = record item_push { state = success }

save_done : validate 200 (some done) done ≡ ok (stamped 200 done)
unfolding validate
save_done = refl

Saved-IsTerminal_test : (stamped 200 done).state ≡ success
Saved-IsTerminal_test = Saved-IsTerminal 200 {j = done} (inl refl) (save done unsaved save_done)

abbrev request : Request
request = record {
  job_type = "Item Push";
  company = "Acme";
  target_name = some "ITEM-1";
  max_attempts = none;
  idempotency_key = some "k1";
}

-- A job type without a tier, and a request without a key, leave no row.
unknown_type :
    (enqueue_easyecom_job "QJ-9" 100
      (λ call. accepted none)
      (record request { job_type = "Nope" })).row
    ≡ none
unfolding enqueue_easyecom_job ecommerce_super.Queue.Routing.queue_for
unknown_type = refl

missing_key :
    (enqueue_easyecom_job "QJ-9" 100
      (λ call. accepted none)
      (record request { idempotency_key = some "" })).row
    ≡ none
unfolding enqueue_easyecom_job ecommerce_super.Queue.Routing.queue_for
missing_key = refl

abbrev failed_job : Job
failed_job = record item_push { state = failed; attempts = 3 }

abbrev reply : RqCall → EnqueueReply
reply call = accepted (some "rq-9")

retry_job-IsPaired_test :
    ((has_state failed (failed ∷ cancelled ∷ []) ≡ true)
      × IsPaired (retry_job 100 reply failed_job))
    ⊎ ((has_state failed (failed ∷ cancelled ∷ []) ≡ false)
        × ((retry_job 100 reply failed_job).row ≡ some failed_job)
        × ((retry_job 100 reply failed_job).tasks ≡ [])
        × ((retry_job 100 reply failed_job).raised ≢ none))
retry_job-IsPaired_test = retry_job-IsPaired 100 reply failed_job

abbrev world : World
world = record {
  env = failing_env;
  cutoff = 500;
  rq_job_alive = λ id. false;
  creation = λ j. 100;
  work_done = λ j. false;
}

abbrev stuck : Job
stuck = record item_push { state = running; last_attempted_at = some 300 }

reclaim_running_orphans-Swept_example :
    let s = reclaim_running_orphans world (stuck ∷ item_push ∷ []) held [] in
    Swept world (stuck ∷ item_push ∷ []) s.jobs
    × (length s.sent ≡ length {A = RqCall} [] + orphans world (stuck ∷ item_push ∷ []))
    × (s.reclaimed ≡ orphans world (stuck ∷ item_push ∷ []))
unfolding reclaim_running_orphans
reclaim_running_orphans-Swept_example =
    reclaim_running_orphans-Swept world (stuck ∷ item_push ∷ []) held [] refl

reclaim_running_orphans-slots_test :
    (reclaim_running_orphans world (stuck ∷ item_push ∷ []) held []).slots "Acme" ≡ pos 0
unfolding reclaim_running_orphans
reclaim_running_orphans-slots_test =
    reclaim_running_orphans-slots world (stuck ∷ item_push ∷ []) held [] "Acme" 0 refl refl

-- A row that RQ lost, and one whose work was done by another job.
abbrev lost : Job
lost = record item_push { name = "QJ-2"; target_name = some "ITEM-2" }

abbrev queue_world : World
queue_world = record world { work_done = λ j. str_eq j.name "QJ-1" }

queued_pass :
    map Job.state (reclaim_queued_orphans queue_world (item_push ∷ lost ∷ []) no_slots []).jobs
    ≡ success ∷ queued ∷ []
unfolding reclaim_queued_orphans
queued_pass = refl

reclaim_queued_orphans-IsRequeued_example :
    IsRequeued queue_world
      (item_push ∷ lost ∷ [])
      no_slots
      []
      (reclaim_queued_orphans queue_world (item_push ∷ lost ∷ []) no_slots [])
reclaim_queued_orphans-IsRequeued_example =
    reclaim_queued_orphans-IsRequeued queue_world (item_push ∷ lost ∷ []) no_slots []
