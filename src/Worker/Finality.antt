-- ===== src/Worker/Finality.antt =====
-- internal/worker/worker.go: deliveries of jobs that are completed or dead.
use vaultkey.Prelude.{
  ℕ, ◌≡◌, refl, sym, ap, ◌∙◌, true, false, some, List, [], ◌∷◌, ◌==◌, Bool-cases, Option-cases, inl,
  inr, arith,
}
use vaultkey.Queue.Redis.{Job, ListStore, Codec}
use vaultkey.Worker.Jobs.{
  SigningJob, find_job, set_where, in_project, get_signing_job, is_final, mark_processing,
  mark_completed, mark_failed, mark_dead, mark_webhook,
}
use vaultkey.Worker.Tables.{Round, World, Signer}
use vaultkey.Worker.Keeps.{
  Mark, to_processing, to_completed, to_failed, to_dead, to_webhook, apply_mark, process_job-keeps,
}
use vaultkey.Worker.{process_job}

pub apply_mark-id : (m : Mark) (row : SigningJob) → (apply_mark m row).id ≡ row.id
unfolding mark_processing mark_completed mark_failed mark_dead mark_webhook
apply_mark-id to_processing row = refl
apply_mark-id (to_completed e) row = refl
apply_mark-id (to_failed e) row = refl
apply_mark-id (to_dead e) row = refl
apply_mark-id (to_webhook ws) row = refl

find_job-set_where :
    (i j : ℕ) (f : SigningJob → SigningJob) (rows : List SigningJob)
    → ((row : SigningJob) → (f row).id ≡ row.id)
    → (j == i) ≡ false
    → find_job i (set_where j f rows) ≡ find_job i rows
unfolding find_job set_where
find_job-set_where i j f [] same ne = refl
find_job-set_where i j f (row ∷ rows) same ne =
    ground (arith, same row, find_job-set_where i j f rows same ne)

pub find_job-id :
    (i : ℕ) (rows : List SigningJob) (job : SigningJob)
    → find_job i rows ≡ some job
    → (job.id == i) ≡ true
unfolding find_job
find_job-id i [] job h = cc
find_job-id i (row ∷ rows) job h = ground (arith, find_job-id i rows job)

pub find_job-get :
    (i p : ℕ) (rows : List SigningJob) (job : SigningJob)
    → get_signing_job i p rows ≡ some job
    → find_job i rows ≡ some job
unfolding get_signing_job in_project
find_job-get i p rows job h = elim (Option-cases (find_job i rows)) [
  | inl e ↦ ground (arith, e, h)
  | inr (row, e) ↦ ground (arith, e, h)
]

same_job :
    (q : Job) (rows : List SigningJob) (i : ℕ) (job found : SigningJob)
    → find_job i rows ≡ some job
    → get_signing_job q.id q.project rows ≡ some found
    → (found.id == i) ≡ true
    → found ≡ job
same_job q rows i job found h k hit =
    let at = find_job-get q.id q.project rows found k in
    let own = find_job-id q.id rows found at in
    let same : q.id ≡ i = ground (arith, own, hit) in
    let both : some found ≡ some job = sym at ∙ ap (λ n. find_job n rows) same ∙ h in cc

module _ (redis : ListStore) (codec : Codec) (signer : Signer) where
  -- Whatever is processed and whatever fails, the row of a job that is completed or dead stays as it
  -- is.
  pub process_job-final :
      (r : Round) (q : Job) (w : World redis.State signer.Env) (i : ℕ) (job : SigningJob)
      → find_job i w.jobs ≡ some job
      → is_final job.status ≡ true
      → find_job i (process_job redis codec signer r q w).1.jobs ≡ some job
  process_job-final r q w i job found final =
      process_job-keeps redis codec signer (λ rows. find_job i rows ≡ some job) r q w
        (λ mine e open_yet m rows h.
          let other : (mine.id == i) ≡ false = elim (Bool-cases (mine.id == i)) [
            | inl hit ↦ let same = same_job q w.jobs i job mine found e hit in absurd (cc)
            | inr miss ↦ miss
          ] in
          find_job-set_where i mine.id (apply_mark m) rows (apply_mark-id m) other ∙ h)
        found
