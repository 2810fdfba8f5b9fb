-- ===== src/Worker/Jobs.antt =====
-- The signing job's row and its updates in internal/storage/store.go.
use vaultkey.Prelude.{
  bytes_eq, ◌&&◌, ℕ, ◌+◌, Bool, true, false, Option, none, some, List, [], ◌∷◌, Bytes, ◌==◌,
  if◌then◌else◌,
}

-- The two CHECK constraints on text columns.
pub data Status : Type 0 where
  pending processing completed failed dead : Status

pub data WebhookStatus : Type 0 where
  webhook_pending webhook_delivered webhook_failed webhook_skipped : WebhookStatus

pub record SigningJob : Type 0 where
  pub id : ℕ
  pub project : ℕ
  pub wallet : ℕ
  pub idempotency_key : Option Bytes
  pub operation : Bytes
  pub payload : Bytes
  pub status : Status
  pub result : Option Bytes
  pub error : Option Bytes
  pub attempts : ℕ
  pub gasless : Bool
  pub webhook_status : WebhookStatus

-- The id is the primary key: at most one row has it.
unfoldable pub find_job : ℕ → List SigningJob → Option SigningJob
find_job i [] = none
find_job i (row ∷ rows) = let rest = find_job i rows in if row.id == i then some row else rest

-- UPDATE signing_jobs SET … WHERE id = $1
unfoldable pub set_where : ℕ → (SigningJob → SigningJob) → List SigningJob → List SigningJob
set_where i f [] = []
set_where i f (row ∷ rows) =
    let rest = set_where i f rows in if row.id == i then f row ∷ rows else row ∷ rest

unfoldable pub in_project : ℕ → Option SigningJob → Option SigningJob
in_project project none = none
in_project project (some job) = if job.project == project then some job else none

-- WHERE id = $1 AND project_id = $2
unfoldable pub get_signing_job : ℕ → ℕ → List SigningJob → Option SigningJob
unfolding in_project
get_signing_job i project rows = in_project project (find_job i rows)

unfoldable pub is_key : Bytes → Option Bytes → Bool
is_key k none = false
is_key k (some j) = bytes_eq j k

unfoldable pub find_key : ℕ → Bytes → List SigningJob → Option SigningJob
unfolding is_key
find_key project k [] = none
find_key project k (row ∷ rows) =
    let rest = find_key project k rows in
    if row.project == project && is_key k row.idempotency_key then some row else rest

-- UNIQUE (project_id, idempotency_key): NULL is in conflict with nothing.
unfoldable pub conflicting : ℕ → Option Bytes → List SigningJob → Option SigningJob
unfolding find_key
conflicting project none rows = none
conflicting project (some k) rows = find_key project k rows

-- What the caller inserts; the other columns have defaults.
pub record NewJob : Type 0 where
  pub project : ℕ
  pub wallet : ℕ
  pub operation : Bytes
  pub payload : Bytes
  pub key : Option Bytes
  pub gasless : Bool

unfoldable pub fresh_row : ℕ → NewJob → SigningJob
fresh_row id n = record {
  id = id;
  project = n.project;
  wallet = n.wallet;
  idempotency_key = n.key;
  operation = n.operation;
  payload = n.payload;
  status = pending;
  result = none;
  error = none;
  attempts = 0;
  gasless = n.gasless;
  webhook_status = webhook_pending;
}

unfoldable pub keep_or_insert :
    Option SigningJob → SigningJob → List SigningJob → SigningJob × List SigningJob
keep_or_insert none row rows = (row, row ∷ rows)
keep_or_insert (some old) row rows = (old, rows)

-- `CreateSigningJob`: INSERT … ON CONFLICT DO UPDATE SET updated_at RETURNING the row.
unfoldable pub create_signing_job : ℕ → NewJob → List SigningJob → SigningJob × List SigningJob
unfolding fresh_row keep_or_insert
create_signing_job id n rows =
    keep_or_insert (conflicting n.project n.key rows) (fresh_row id n) rows

unfoldable pub mark_processing : SigningJob → SigningJob
mark_processing job = record job { status = processing; attempts = job.attempts + 1 }

unfoldable pub mark_completed : Bytes → SigningJob → SigningJob
mark_completed result job = record job { status = completed; result = some result }

unfoldable pub mark_failed : Bytes → SigningJob → SigningJob
mark_failed reason job = record job { status = failed; error = some reason }

unfoldable pub mark_dead : Bytes → SigningJob → SigningJob
mark_dead reason job = record job { status = dead; error = some reason }

unfoldable pub mark_webhook : WebhookStatus → SigningJob → SigningJob
mark_webhook ws job = record job { webhook_status = ws }

unfoldable pub is_final : Status → Bool
is_final completed = true
is_final dead = true
is_final pending = false
is_final processing = false
is_final failed = false
