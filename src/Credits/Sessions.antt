-- ===== src/Credits/Sessions.antt =====
-- internal/credits/credits.go: the transactions of many debits at once. A transaction holds the row
-- of its organization from SELECT … FOR UPDATE to its end, and the tables change at its COMMIT.
use vaultkey.Prelude.{ℕ, Bool, true, false, List, [], ◌∷◌, ◌==◌, if◌then◌else◌}
use vaultkey.Prelude.Int.{ℤ, pos}
use vaultkey.Prelude.Assoc.{insert_new}
use vaultkey.Credits.Tables.{Accounts, Faults, Result, ok, err, finish, begin_stmt}
use vaultkey.Credits.{DebitParams, DebitResult, lock_or_create, debit_locked, charge}

-- One call of `Debit` whose price is known.
pub record Session : Type 0 where
  pub params : DebitParams
  pub cost : ℤ
  pub faults : Faults
  pub id : ℕ
  pub now : ℕ

pub data Phase : Type 0 where
  fresh ended : Phase
  -- the row is locked, and the SELECT has read this balance
  holding : ℤ → Phase

-- The committed tables, the organizations whose row is locked, and how far each session is.
pub record State : Type 0 where
  pub tables : Accounts
  pub lock : ℕ → Bool
  pub phase : ℕ → Phase

-- A session asks for its row, or it runs its writes and its COMMIT.
pub data Event : Type 0 where
  locks writes : ℕ → Event

unfoldable pub set_at : {A : Type 0} → ℕ → A → (ℕ → A) → ℕ → A
set_at i a f j = if i == j then a else f j

-- The row that a transaction makes where there is none becomes visible at its COMMIT.
unfoldable pub with_row : ℕ → Accounts → Accounts
with_row org s = record s { balances = insert_new org (pos 0) s.balances }

unfoldable pub add_if_holding : ℕ → Phase → List ℕ → List ℕ
add_if_holding i fresh is = is
add_if_holding i ended is = is
add_if_holding i (holding c) is = i ∷ is

module _ (job : ℕ → Session) where
  abbrev pub org_of : ℕ → ℕ
  org_of i = (job i).params.org

  unfoldable pub after_lock : ℕ → Result ℤ → State → State
  unfolding set_at
  after_lock i (err e) s = record s { phase = set_at i ended s.phase }
  after_lock i (ok c) s = record s {
    phase = set_at i (holding c) s.phase;
    lock = set_at (org_of i) true s.lock;
  }

  -- BEGIN and `SELECT … FOR UPDATE`, which waits while another transaction holds the row.
  unfoldable pub ask : ℕ → Phase → State → State
  unfolding after_lock
  ask i fresh s =
      if s.lock (org_of i)
      then s
      else if (job i).faults begin_stmt
      then record s { phase = set_at i ended s.phase }
      else after_lock i (lock_or_create (job i).faults (org_of i) s.tables).0 s
  ask i ended s = s
  ask i (holding c) s = s

  -- The writes with the balance that was read, and COMMIT or ROLLBACK.
  unfoldable pub write : ℕ → ℤ → Accounts → Result DebitResult × Accounts
  unfolding with_row
  write i c t =
      let x = job i in
      finish x.faults t
        (debit_locked x.faults x.params x.cost x.id x.now c (with_row x.params.org t))

  unfoldable pub end : ℕ → Phase → State → State
  unfolding write
  end i fresh s = s
  end i ended s = s
  end i (holding c) s = record {
    tables = (write i c s.tables).1;
    lock = set_at (org_of i) false s.lock;
    phase = set_at i ended s.phase;
  }

  unfoldable pub step : Event → State → State
  unfolding ask end
  step (locks i) s = ask i (s.phase i) s
  step (writes i) s = end i (s.phase i) s

  unfoldable pub run : List Event → State → State
  unfolding step
  run [] s = s
  run (e ∷ es) s = run es (step e s)

  -- The sessions in the order in which they end their writes.
  unfoldable pub served : List Event → State → List ℕ
  unfolding step add_if_holding
  served [] s = []
  served (locks i ∷ es) s = served es (step (locks i) s)
  served (writes i ∷ es) s = add_if_holding i (s.phase i) (served es (step (writes i) s))

  -- The same debits, one call after the other.
  unfoldable pub charge_all : List ℕ → Accounts → Accounts
  charge_all [] t = t
  charge_all (i ∷ is) t =
      let x = job i in charge_all is (charge x.faults x.params x.cost x.id x.now t).1

-- No debit has begun.
unfoldable pub start : Accounts → State
start t = record { tables = t; lock = λ o. false; phase = λ i. fresh }
