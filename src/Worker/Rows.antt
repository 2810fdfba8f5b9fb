-- ===== src/Worker/Rows.antt =====
-- internal/worker/worker.go and internal/storage/store.go: the row of one job, before and after the
-- updates of a failed attempt.
use vaultkey.Prelude.{
  ℕ, ◌+◌, ◌≡◌, refl, ap, ◌∙◌, true, Bool-cases, Option-cases, some, inl, inr, List, [], ◌∷◌, Bytes,
  ◌==◌, arith, if◌then◌else◌,
}
use vaultkey.Prelude.Int.{pos, leb_ℤ}
use vaultkey.Worker.Jobs.{
  Status, failed, dead, WebhookStatus, SigningJob, find_job, set_where, in_project, get_signing_job,
  mark_processing, mark_failed, mark_dead, mark_webhook,
}

pub find_job-set_where_self :
    (i : ℕ) (f : SigningJob → SigningJob) (rows : List SigningJob) (row : SigningJob)
    → ((r : SigningJob) → (f r).id ≡ r.id)
    → find_job i rows ≡ some row
    → find_job i (set_where i f rows) ≡ some (f row)
unfolding find_job set_where
find_job-set_where_self i f [] row same h = cc
find_job-set_where_self i f (r ∷ rows) row same h =
    ground (arith, same r, find_job-set_where_self i f rows row same)

pub get_signing_job-found :
    (i project : ℕ) (rows : List SigningJob) (job : SigningJob)
    → find_job i rows ≡ some job
    → job.project ≡ project
    → get_signing_job i project rows ≡ some job
unfolding get_signing_job in_project
get_signing_job-found i project rows job found hp =
    let own : (job.project == project) ≡ true = ground arith in rw found (rw own refl)

pub get_signing_job-project :
    (i project : ℕ) (rows : List SigningJob) (job : SigningJob)
    → get_signing_job i project rows ≡ some job
    → job.project ≡ project
unfolding get_signing_job in_project
get_signing_job-project i project rows job h = elim (Option-cases (find_job i rows)) [
  | inl e ↦ ground (arith, e, h)
  | inr (row, e) ↦ ground (arith, e, h)
]

abbrev pub limit : ℕ → ℕ → Bytes → SigningJob → SigningJob
limit max attempts e = if leb_ℤ (pos max) (pos attempts) then mark_dead e else mark_failed e

-- The row with id `i`, as far as it matters here.
abbrev pub IsAt : ℕ → ℕ → ℕ → ℕ → Status → List SigningJob → Type 0
IsAt i project wallet attempts status rows =
    (row : SigningJob) × (find_job i rows ≡ some row)
    × (row.project ≡ project)
    × (row.wallet ≡ wallet)
    × (row.attempts ≡ attempts)
    × (row.status ≡ status)

abbrev pub next_status : ℕ → ℕ → Status
next_status max attempts = if leb_ℤ (pos max) (pos attempts) then dead else failed

pub limit_row :
    (max attempts : ℕ) (e : Bytes) (row : SigningJob)
    → ((limit max attempts e row).id ≡ row.id)
      × ((limit max attempts e row).project ≡ row.project)
      × ((limit max attempts e row).wallet ≡ row.wallet)
      × ((limit max attempts e row).attempts ≡ row.attempts)
      × ((limit max attempts e row).status ≡ next_status max attempts)
unfolding mark_dead mark_failed
limit_row max attempts e row = elim (Bool-cases (leb_ℤ (pos max) (pos attempts))) [
  | inl d ↦ rw d (refl, refl, refl, refl, refl)
  | inr d ↦ rw d (refl, refl, refl, refl, refl)
]

pub marks-IsAt :
    (i project wallet attempts max : ℕ) (job : SigningJob) (e : Bytes) (s : WebhookStatus)
    (rows : List SigningJob)
    → find_job i rows ≡ some job
    → job.project ≡ project
    → job.wallet ≡ wallet
    → job.attempts ≡ attempts
    → IsAt i project wallet (attempts + 1) (next_status max attempts) (
        set_where i
          (mark_webhook s)
          (set_where i (limit max attempts e) (set_where i mark_processing rows)))
unfolding mark_processing mark_webhook
marks-IsAt i project wallet attempts max job e s rows found hp hw ha =
    let first = find_job-set_where_self i mark_processing rows job (λ r. refl) found in
    let row = mark_processing job in
    let l = limit_row max attempts e row in
    let second =
      find_job-set_where_self i (limit max attempts e) _ row (λ r. (limit_row max attempts e r).0)
        first in
    let third =
      find_job-set_where_self i (mark_webhook s) _ (limit max attempts e row) (λ r. refl) second in
    (
      mark_webhook s (limit max attempts e row),
      third,
      l.1 ∙ hp,
      l.2 ∙ hw,
      l.3 ∙ ap (λ n. n + 1) ha,
      l.4,
    )
