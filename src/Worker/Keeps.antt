-- ===== src/Worker/Keeps.antt =====
-- internal/worker/worker.go: statements about the job table that the marks of one job keep, through
-- everything that the worker does with that job.
use vaultkey.Prelude.{
  ℕ, ◌≡◌, refl, sym, subst, Bool, true, false, none, some, Option, List, [], ◌∷◌, Bytes, Bool-cases,
  Option-cases, inl, inr, arith,
}
use vaultkey.Prelude.Int.{pos, leb_ℤ}
use vaultkey.Prelude.Assoc.{lookup}
use vaultkey.Store.Wallets.{Wallet}
use vaultkey.Queue.Redis.{Job, ListStore, Codec}
use vaultkey.Worker.Jobs.{
  Status, pending, processing, completed, failed, dead, WebhookStatus, webhook_failed, SigningJob,
  set_where, get_signing_job, is_final, mark_processing, mark_completed, mark_failed, mark_dead,
  mark_webhook,
}
use vaultkey.Worker.Tables.{
  Round, World, Project, Signed, signed, refused, panicked, Signer, max_retries_or_3, answer_of,
  set_webhook, set_dead, set_failed, set_completed, write_audit, set_processing, refetch_project,
  fetch_job,
}
use vaultkey.Worker.{
  set_row, bury, retry, handle_job_failure, post_webhook, deliver_webhook, record_usage,
  record_cost, dispatch_webhook, discard, finish, sign_and_finish, attempt, with_project,
  with_wallet, open_job, by_status, with_job, process_job,
}

-- The updates that a worker makes to a row.
pub data Mark : Type 0 where
  to_processing : Mark
  to_completed to_failed to_dead : Bytes → Mark
  to_webhook : WebhookStatus → Mark

abbrev pub apply_mark : Mark → SigningJob → SigningJob
apply_mark to_processing = mark_processing
apply_mark (to_completed result) = mark_completed result
apply_mark (to_failed reason) = mark_failed reason
apply_mark (to_dead reason) = mark_dead reason
apply_mark (to_webhook ws) = mark_webhook ws

-- Closed under the marks of job `j`.
abbrev pub IsKept : ℕ → (List SigningJob → Type 0) → Type 0
IsKept j P = (m : Mark) (rows : List SigningJob) → P rows → P (set_where j (apply_mark m) rows)

module _ (redis : ListStore) (codec : Codec) (signer : Signer) where
  abbrev Here : Type 0
  Here = World redis.State signer.Env

  pub record_usage-jobs :
      (r : Round) (org : Option ℕ) (job : SigningJob) (e : Bytes) (w : Here)
      → (record_usage redis codec signer r.rejects org job e w).jobs ≡ w.jobs
  unfolding record_usage record_cost
  record_usage-jobs r none job e w = refl
  record_usage-jobs r (some org) job [] w = ground arith
  record_usage-jobs r (some org) job (c ∷ e) w = refl

  pub record_usage-projects :
      (r : Round) (org : Option ℕ) (job : SigningJob) (e : Bytes) (w : Here)
      → (record_usage redis codec signer r.rejects org job e w).projects ≡ w.projects
  unfolding record_usage record_cost
  record_usage-projects r none job e w = refl
  record_usage-projects r (some org) job [] w = ground arith
  record_usage-projects r (some org) job (c ∷ e) w = refl

  module _ (job : SigningJob) (P : List SigningJob → Type 0) (kept : IsKept job.id P) where
    set_row-keeps :
        (b : Bool) (m : Mark) (w : Here)
        → P w.jobs
        → P (set_row redis codec signer b job.id (apply_mark m) w).jobs
    unfolding set_row
    set_row-keeps true m w h = h
    set_row-keeps false m w h = kept m w.jobs h

    handle_job_failure-keeps :
        (r : Round) (q : Job) (e : Bytes) (w : Here)
        → P w.jobs
        → P (handle_job_failure redis codec signer r q job e w).jobs
    unfolding handle_job_failure bury retry
    handle_job_failure-keeps r q e w h =
        elim (Bool-cases (
          leb_ℤ
            (max_retries_or_3
              (answer_of (r.rejects refetch_project) (lookup job.project w.projects)))
            (pos job.attempts))) [
              | inl d ↦ rw d (set_row-keeps (r.rejects set_dead) (to_dead e) w h)
              | inr d ↦ rw d (set_row-keeps (r.rejects set_failed) (to_failed e) w h)
            ]

    deliver_webhook-keeps :
        (r : Round) (url : Bytes) (p : Project) (result : Option Bytes) (e : Bytes) (w : Here)
        → P w.jobs
        → P (deliver_webhook redis codec signer r url p job result e w).jobs
    unfolding deliver_webhook post_webhook
    deliver_webhook-keeps r [] p result e w h =
        set_row-keeps (r.rejects set_webhook) (to_webhook webhook_failed) w h
    deliver_webhook-keeps r (c ∷ url) p result e w h =
        set_row-keeps (r.rejects set_webhook) (to_webhook _) (record w { sent = _ }) h

    dispatch_webhook-keeps :
        (r : Round) (p : Project) (result : Option Bytes) (e : Bytes) (w : Here)
        → P w.jobs
        → P (dispatch_webhook redis codec signer r p job result e w).jobs
    unfolding dispatch_webhook
    dispatch_webhook-keeps r p result e w h = elim (Bool-cases p.cloud_managed) [
      | inl c ↦ simp c (
          deliver_webhook-keeps r p.webhook_url p result e
            (record_usage redis codec signer r.rejects p.org job e w)
            (subst P (sym (record_usage-jobs r p.org job e w)) h))
      | inr c ↦ simp c (deliver_webhook-keeps r p.webhook_url p result e w h)
    ]

    finish-keeps :
        (r : Round) (q : Job) (p : Project) (x : Signed) (w : Here)
        → P w.jobs
        → P (finish redis codec signer r q job p x w).jobs
    unfolding finish discard
    finish-keeps r q p (refused e) w h =
        dispatch_webhook-keeps r p none e _ (handle_job_failure-keeps r q e w h)
    finish-keeps r q p (signed result) w h =
        let marked = set_row-keeps (r.rejects set_completed) (to_completed result) w h in
        elim (Bool-cases (r.rejects write_audit)) [
          | inl a ↦ rw a (dispatch_webhook-keeps r p (some result) [] _ marked)
          | inr a ↦ rw a (dispatch_webhook-keeps r p (some result) [] _ marked)
        ]
    finish-keeps r q p panicked w h = h

    attempt-keeps :
        (r : Round) (q : Job) (wallet : Wallet) (p : Project) (w : Here)
        → P w.jobs
        → P (attempt redis codec signer r q job wallet p w).1.jobs
    unfolding attempt sign_and_finish
    attempt-keeps r q wallet p w h = elim (Bool-cases (r.rejects set_processing)) [
      | inl a ↦ rw a h
      | inr a ↦ rw a (finish-keeps r q p _ _ (set_row-keeps false to_processing w h))
    ]

    with_project-keeps :
        (r : Round) (q : Job) (wallet : Wallet) (p : Option Project) (w : Here)
        → P w.jobs
        → P (with_project redis codec signer r q job wallet p w).1.jobs
    unfolding with_project
    with_project-keeps r q wallet none w h = handle_job_failure-keeps r q _ w h
    with_project-keeps r q wallet (some p) w h = attempt-keeps r q wallet p w h

    with_wallet-keeps :
        (r : Round) (q : Job) (wallet : Option Wallet) (w : Here)
        → P w.jobs
        → P (with_wallet redis codec signer r q job wallet w).1.jobs
    unfolding with_wallet
    with_wallet-keeps r q none w h = handle_job_failure-keeps r q _ w h
    with_wallet-keeps r q (some wallet) w h = with_project-keeps r q wallet _ w h

    open_job-keeps :
        (r : Round) (q : Job) (w : Here)
        → P w.jobs
        → P (open_job redis codec signer r q job w).1.jobs
    unfolding open_job
    open_job-keeps r q w h = with_wallet-keeps r q _ w h

  -- It is enough that the marks of a job that is not final keep it.
  by_status-keeps :
      (P : List SigningJob → Type 0) (r : Round) (q : Job) (job : SigningJob) (s : Status)
      (w : Here)
      → (is_final s ≡ false → IsKept job.id P)
      → P w.jobs
      → P (by_status redis codec signer r q job s w).1.jobs
  unfolding by_status discard is_final
  by_status-keeps P r q job completed w kept h = h
  by_status-keeps P r q job dead w kept h = h
  by_status-keeps P r q job pending w kept h = open_job-keeps job P (kept refl) r q w h
  by_status-keeps P r q job processing w kept h = open_job-keeps job P (kept refl) r q w h
  by_status-keeps P r q job failed w kept h = open_job-keeps job P (kept refl) r q w h

  -- The whole of `process_job`, for any job that it may find.
  pub process_job-keeps :
      (P : List SigningJob → Type 0) (r : Round) (q : Job) (w : Here)
      → ((job : SigningJob)
          → get_signing_job q.id q.project w.jobs ≡ some job
          → is_final job.status ≡ false
          → IsKept job.id P)
      → P w.jobs
      → P (process_job redis codec signer r q w).1.jobs
  unfolding process_job with_job discard
  process_job-keeps P r q w kept h = elim (Bool-cases (r.rejects fetch_job)) [
    | inl f ↦ rw f h
    | inr f ↦ rw f (elim (Option-cases (get_signing_job q.id q.project w.jobs)) [
      | inl e ↦ rw e h
      | inr (mine, e) ↦ rw (e, with_job) (by_status-keeps P r q mine mine.status w (kept mine e) h)
    ])
  ]
