-- ===== src/Worker/Burial.antt =====
-- internal/worker/worker.go: rounds over a job that signing always refuses.
use vaultkey.Prelude.{
  ℕ, zero, suc, ◌+◌, ◌≡◌, refl, ap, sym, subst, ◌∙◌, true, false, none, some, List, Bytes, ◌==◌,
  arith,
}
use vaultkey.Prelude.Int.{pos}
use vaultkey.Prelude.Assoc.{lookup}
use vaultkey.Store.Wallets.{Wallet, get_wallet}
use vaultkey.Queue.Redis.{Job, ListStore, Codec}
use vaultkey.Worker.Jobs.{
  Status, failed, dead, SigningJob, find_job, set_where, get_signing_job, is_final, mark_processing,
  mark_webhook,
}
use vaultkey.Worker.Tables.{
  Query, set_webhook, set_processing, fetch_job, fetch_wallet, fetch_project, Round, Project,
  Signed, signed, refused, panicked, Signer,
}
use vaultkey.Worker.{Here, handle_job_failure, finish, with_job, process_job}
use vaultkey.Worker.Finality.{find_job-id, find_job-get}
use vaultkey.Worker.Crashes.{stopped_in, by_status_open}
use vaultkey.Worker.Rows.{
  get_signing_job-found, get_signing_job-project, limit, IsAt, next_status, marks-IsAt,
}
use vaultkey.Worker.Effects.{dispatch_webhook-jobs, handle_job_failure-jobs, open_job_runs}

module _ (redis : ListStore) (codec : Codec) (signer : Signer) where
  -- The same envelope processed again and again, as `Requeue` and `Dequeue` bring it back.
  abbrev pub rounds : Round → Job → ℕ → Here redis codec signer → Here redis codec signer
  rounds r q zero w = w
  rounds r q (suc n) w = rounds r q n (process_job redis codec signer r q w).1

  module _ (r : Round) (q : Job) (p : Project) (max wallet : ℕ)
      (calm : (x : Query) → r.rejects x ≡ false) (most : p.max_retries ≡ pos max)
      (has_wallet : (e : signer.Env)
        → (w : Wallet) × (get_wallet wallet q.project (signer.wallets e) ≡ some w))
      (refuses : (job : SigningJob) (w : Wallet) (e : signer.Env)
        → (why : Bytes) × ((signer.sign job w e).0 ≡ refused why)) where
    finish-IsAt :
        (attempts : ℕ) (job : SigningJob) (a : Signed) (why : Bytes) (w : Here redis codec signer)
        (rows : List SigningJob)
        → a ≡ refused why
        → find_job q.id rows ≡ some job
        → job.id ≡ q.id
        → job.project ≡ q.project
        → job.wallet ≡ wallet
        → job.attempts ≡ attempts
        → lookup q.project w.projects ≡ some p
        → w.jobs ≡ set_where q.id mark_processing rows
        → let w' = finish redis codec signer r q job p a w in
          IsAt q.id q.project wallet (attempts + 1) (next_status max attempts) w'.jobs
          × (w'.projects ≡ w.projects)
    unfolding finish
    finish-IsAt attempts job (signed x) why w rows ea found hi hp hw ha has_project rows_now = cc
    finish-IsAt attempts job panicked why w rows ea found hi hp hw ha has_project rows_now = cc
    finish-IsAt attempts job (refused err) why w rows ea found hi hp hw ha has_project rows_now =
        let same_project : lookup job.project w.projects ≡ some p = rw hp has_project in
        let (failed_jobs, failed_projects) =
          handle_job_failure-jobs redis codec signer r q job err p max w calm same_project most in
        let (s, jobs, projects) =
          dispatch_webhook-jobs redis codec signer r p job none err
            (handle_job_failure redis codec signer r q job err w) (calm set_webhook) in
        let at = marks-IsAt q.id q.project wallet attempts max job err s rows found hp hw ha in
        let now : set_where job.id (mark_webhook s)
              (set_where job.id (limit max job.attempts err) w.jobs)
            ≡ set_where q.id (mark_webhook s)
                (set_where q.id (limit max attempts err) (set_where q.id mark_processing rows)) =
          rw (hi, ha, rows_now) refl in
        (
          subst (IsAt q.id q.project wallet (attempts + 1) (next_status max attempts))
              (sym (jobs ∙ ap (set_where job.id (mark_webhook s)) failed_jobs ∙ now)) at,
          projects ∙ failed_projects,
        )

    abbrev IsWaiting : ℕ → Status → Here redis codec signer → Type 0
    IsWaiting attempts status w =
        IsAt q.id q.project wallet attempts status w.jobs × (lookup q.project w.projects ≡ some p)

    -- One round of a job that is not final.
    process_job-IsWaiting :
        (attempts : ℕ) (status : Status) (w : Here redis codec signer)
        → is_final status ≡ false
        → IsWaiting attempts status w
        → IsWaiting
            (attempts + 1)
            (next_status max attempts)
            (process_job redis codec signer r q w).1
    unfolding process_job with_job
    process_job-IsWaiting attempts status w open_yet ((job, found, hp, hw, ha, hs), has_project) =
        let got = get_signing_job-found q.id q.project w.jobs job found hp in
        let (u, here) = has_wallet w.env in
        let (why, answer) = refuses job u w.env in
        let own_wallet : get_wallet job.wallet job.project (signer.wallets w.env) ≡ some u =
          rw (hw, hp) here in
        let own_project : lookup job.project w.projects ≡ some p = rw hp has_project in
        let open_job_status : is_final job.status ≡ false = rw hs open_yet in
        let hi : job.id ≡ q.id = same_id (find_job-id q.id w.jobs job found) in
        let rows_now : set_where job.id mark_processing w.jobs
            ≡ set_where q.id mark_processing w.jobs =
          rw hi refl in
        let (at, projects) =
          finish-IsAt attempts job _ why (stopped_in redis codec signer job u w) w.jobs answer found
            hi hp hw ha has_project rows_now in
        rw (calm fetch_job, got, with_job)
          (rw
            (
              by_status_open redis codec signer r q job job.status w open_job_status,
              open_job_runs redis codec signer r q job u p w (calm fetch_wallet)
                  (calm fetch_project) (calm set_processing) own_wallet own_project,
            )
            (at, ap (lookup q.project) projects ∙ has_project))
      where
        same_id : {a b : ℕ} → (a == b) ≡ true → a ≡ b
        same_id e = ground arith

    next_status_last : (attempts : ℕ) → attempts + 0 ≡ max → next_status max attempts ≡ dead
    next_status_last attempts e = ground arith

    next_status_more :
        (attempts left : ℕ) → attempts + suc left ≡ max → next_status max attempts ≡ failed
    next_status_more attempts left e = ground arith

    rounds-IsAt :
        (left attempts : ℕ) (status : Status) (w : Here redis codec signer)
        → attempts + left ≡ max
        → is_final status ≡ false
        → IsWaiting attempts status w
        → IsAt q.id q.project wallet (max + 1) dead (rounds r q (suc left) w).jobs
    unfolding is_final
    rounds-IsAt zero attempts status w total open_yet waiting =
        let (at, projects) = process_job-IsWaiting attempts status w open_yet waiting in
        let count : attempts + 1 ≡ max + 1 = omega arith in
        subst (λ n. IsAt q.id q.project wallet n dead (rounds r q 1 w).jobs) count
          (subst (λ s. IsAt q.id q.project wallet (attempts + 1) s (rounds r q 1 w).jobs)
            (next_status_last attempts total) at)
    rounds-IsAt (suc left) attempts status w total open_yet waiting =
        let waiting' = process_job-IsWaiting attempts status w open_yet waiting in
        let w' = (process_job redis codec signer r q w).1 in
        rounds-IsAt left (attempts + 1) failed w' (omega arith) refl (
          subst (λ s. IsWaiting (attempts + 1) s w') (next_status_more attempts left total)
            waiting')

-- Where statements succeed, a job that has been tried `attempts` times and is not final, whose project
-- allows `attempts + left` retries, and whose signing is refused every time, is dead after it has been
-- processed `left + 1` times: no job is tried for ever.
pub rounds-dead :
    (redis : ListStore) (codec : Codec) (signer : Signer) (r : Round) (q : Job) (p : Project)
    (wallet left attempts : ℕ) (job : SigningJob) (w : Here redis codec signer)
    → ((x : Query) → r.rejects x ≡ false)
    → p.max_retries ≡ pos (attempts + left)
    → ((e : signer.Env) → (u : Wallet) × (get_wallet wallet q.project (signer.wallets e) ≡ some u))
    → ((j : SigningJob) (u : Wallet) (e : signer.Env)
        → (why : Bytes) × ((signer.sign j u e).0 ≡ refused why))
    → get_signing_job q.id q.project w.jobs ≡ some job
    → job.wallet ≡ wallet
    → job.attempts ≡ attempts
    → is_final job.status ≡ false
    → lookup q.project w.projects ≡ some p
    → (row : SigningJob) × (find_job q.id (rounds redis codec signer r q (suc left) w).jobs
        ≡ some row)
      × (row.status ≡ dead)
rounds-dead redis codec signer r q p wallet left attempts job w calm most has_wallet refuses got hw
      ha open_yet has_project =
    let found = find_job-get q.id q.project w.jobs job got in
    let hp = get_signing_job-project q.id q.project w.jobs job got in
    let (row, at, a, b, c, is_dead) =
      rounds-IsAt redis codec signer r q p (attempts + left) wallet calm most has_wallet refuses
        left attempts job.status w refl open_yet ((job, found, hp, hw, ha, refl), has_project) in
    (row, at, is_dead)
