-- ===== src/Worker/Effects.antt =====
-- internal/worker/worker.go: what the end of a failed attempt (`handleJobFailure`) does to the table
-- of jobs, where the statements succeed.
use vaultkey.Prelude.{
  ℕ, ◌≡◌, refl, ap, ◌∙◌, Bool, true, false, Bool-cases, Option, some, inl, inr, [], ◌∷◌, Bytes,
}
use vaultkey.Prelude.Int.{pos, leb_ℤ}
use vaultkey.Prelude.Assoc.{lookup}
use vaultkey.Store.Wallets.{Wallet, get_wallet}
use vaultkey.Queue.Redis.{Job, ListStore, Codec}
use vaultkey.Worker.Jobs.{WebhookStatus, webhook_failed, SigningJob, set_where, mark_webhook}
use vaultkey.Worker.Tables.{
  Query, set_webhook, set_dead, set_failed, set_processing, refetch_project, fetch_wallet,
  fetch_project, Round, Project, Signer, done, max_retries_or_3, answer_of, wallet_of,
}
use vaultkey.Worker.{
  Here, set_row, bury, retry, handle_job_failure, post_webhook, deliver_webhook, record_usage,
  dispatch_webhook, finish, sign_and_finish, attempt, with_project, with_wallet, open_job,
}
use vaultkey.Worker.Keeps.{record_usage-jobs, record_usage-projects}
use vaultkey.Worker.Crashes.{stopped_in}
use vaultkey.Worker.Rows.{limit}

module _ (redis : ListStore) (codec : Codec) (signer : Signer) where
  set_row-jobs :
      (b : Bool) (i : ℕ) (f : SigningJob → SigningJob) (w : Here redis codec signer)
      → b ≡ false
      → ((set_row redis codec signer b i f w).jobs ≡ set_where i f w.jobs)
        × ((set_row redis codec signer b i f w).projects ≡ w.projects)
  unfolding set_row
  set_row-jobs true i f w e = cc
  set_row-jobs false i f w e = (refl, refl)

  deliver_webhook-jobs :
      (r : Round) (url : Bytes) (p : Project) (job : SigningJob) (result : Option Bytes) (e : Bytes)
      (w : Here redis codec signer)
      → r.rejects set_webhook ≡ false
      → (s : WebhookStatus) × ((deliver_webhook redis codec signer r url p job result e w).jobs
          ≡ set_where job.id (mark_webhook s) w.jobs)
        × ((deliver_webhook redis codec signer r url p job result e w).projects ≡ w.projects)
  unfolding deliver_webhook post_webhook
  deliver_webhook-jobs r [] p job result e w up =
      let (jobs, projects) =
        set_row-jobs (r.rejects set_webhook) job.id (mark_webhook webhook_failed) w up in
      (webhook_failed, jobs, projects)
  deliver_webhook-jobs r (c ∷ url) p job result e w up =
      let (jobs, projects) =
        set_row-jobs (r.rejects set_webhook) job.id (mark_webhook _) (record w { sent = _ }) up in
      (_, jobs, projects)

  pub dispatch_webhook-jobs :
      (r : Round) (p : Project) (job : SigningJob) (result : Option Bytes) (e : Bytes)
      (w : Here redis codec signer)
      → r.rejects set_webhook ≡ false
      → (s : WebhookStatus) × ((dispatch_webhook redis codec signer r p job result e w).jobs
          ≡ set_where job.id (mark_webhook s) w.jobs)
        × ((dispatch_webhook redis codec signer r p job result e w).projects ≡ w.projects)
  unfolding dispatch_webhook
  dispatch_webhook-jobs r p job result e w up = elim (Bool-cases p.cloud_managed) [
    | inr own ↦ simp own (deliver_webhook-jobs r p.webhook_url p job result e w up)
    | inl cloud ↦
        let (s, jobs, projects) =
          deliver_webhook-jobs r p.webhook_url p job result e
            (record_usage redis codec signer r.rejects p.org job e w) up in
        simp cloud (
          s,
          jobs
              ∙ ap (set_where job.id (mark_webhook s))
                  (record_usage-jobs redis codec signer r p.org job e w),
          projects ∙ record_usage-projects redis codec signer r p.org job e w,
        )
  ]

  pub handle_job_failure-jobs :
      (r : Round) (q : Job) (job : SigningJob) (e : Bytes) (p : Project) (max : ℕ)
      (w : Here redis codec signer)
      → ((x : Query) → r.rejects x ≡ false)
      → lookup job.project w.projects ≡ some p
      → p.max_retries ≡ pos max
      → ((handle_job_failure redis codec signer r q job e w).jobs
          ≡ set_where job.id (limit max job.attempts e) w.jobs)
        × ((handle_job_failure redis codec signer r q job e w).projects ≡ w.projects)
  unfolding handle_job_failure bury retry set_row max_retries_or_3 answer_of
  handle_job_failure-jobs r q job e p max w calm has_project most =
      elim (Bool-cases (leb_ℤ (pos max) (pos job.attempts))) [
        | inl d ↦
            simp (calm refetch_project, has_project, most)
              (rw d (simp (calm set_dead) (refl, refl)))
        | inr d ↦
            simp (calm refetch_project, has_project, most)
              (rw d (simp (calm set_failed) (refl, refl)))
      ]

  pub open_job_runs :
      (r : Round) (q : Job) (job : SigningJob) (wallet : Wallet) (p : Project)
      (w : Here redis codec signer)
      → r.rejects fetch_wallet ≡ false
      → r.rejects fetch_project ≡ false
      → r.rejects set_processing ≡ false
      → get_wallet job.wallet job.project (signer.wallets w.env) ≡ some wallet
      → lookup job.project w.projects ≡ some p
      → open_job redis codec signer r q job w ≡ (
        done,
        finish redis codec signer r q job p
            (signer.sign job wallet w.env).0
            (stopped_in redis codec signer job wallet w),
      )
  unfolding open_job with_wallet with_project attempt sign_and_finish set_row wallet_of answer_of
  open_job_runs r q job wallet p w ok_wallet ok_project ok_set has_wallet has_project =
      rw (ok_wallet, has_wallet, with_wallet, ok_project, has_project, with_project)
        (rw ok_set refl)
