-- ===== src/Worker/Crashes.antt =====
-- A job whose row is open.
use vaultkey.Prelude.{◌≡◌, refl, false}
use vaultkey.Store.Wallets.{Wallet}
use vaultkey.Queue.Redis.{Job, ListStore, Codec}
use vaultkey.Worker.Jobs.{
  SigningJob, Status, pending, processing, completed, failed, dead, is_final, set_where,
  mark_processing,
}
use vaultkey.Worker.Tables.{Round, Signer}
use vaultkey.Worker.{Here, open_job, by_status}

module _ (redis : ListStore) (codec : Codec) (signer : Signer) where
  -- The state at the panic.
  abbrev pub stopped_in : SigningJob → Wallet → Here redis codec signer → Here redis codec signer
  stopped_in job wallet w = record w {
    jobs = set_where job.id mark_processing w.jobs;
    env = (signer.sign job wallet w.env).1;
  }

  pub by_status_open :
      (r : Round) (q : Job) (job : SigningJob) (s : Status) (w : Here redis codec signer)
      → is_final s ≡ false
      → by_status redis codec signer r q job s w ≡ open_job redis codec signer r q job w
  unfolding by_status is_final
  by_status_open r q job pending w e = refl
  by_status_open r q job processing w e = refl
  by_status_open r q job failed w e = refl
  by_status_open r q job completed w e = cc
  by_status_open r q job dead w e = cc
