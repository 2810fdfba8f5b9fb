-- ===== src/Credits/Locking.antt =====
-- internal/credits/credits.go: locking or creating the row of a balance, and posting to it, whatever statements
-- fail.
use vaultkey.Prelude.{ℕ, ◌≡◌, sym, Option, none, some, [], ◌∷◌, ◌==◌, if◌then◌else◌, arith}
use vaultkey.Prelude.Int.{ℤ, pos, ◌≤ℤ◌}
use vaultkey.Prelude.Assoc.{Table, lookup, insert_new, lookup-insert_new, lookup-update}
use vaultkey.Credits.Tables.{Accounts, LedgerRow, Faults, ok, >>=-eq-ok, Stmt, lock_balance}
use vaultkey.Credits.{
  lock_or_create, ensure_and_lock, post, or_created, select_balance, balance_or_zero,
}

-- What `GetBalance` reads when the database answers.
abbrev pub balance : ℕ → Accounts → ℤ
balance o s = balance_or_zero (lookup o s.balances)

-- One balance is set, the others stay, and one row is written.
pub record Posted (org : ℕ) (new : ℤ) (row : LedgerRow) (s s' : Accounts) : Type 0 where
  pub balances : (o : ℕ) → balance o s' ≡ (if org == o then new else balance o s)
  pub ledger : s'.ledger ≡ row ∷ s.ledger

-- What the lock finds: the balance, with the row made where it was missing.
pub record Locked (org : ℕ) (c : ℤ) (s s' : Accounts) : Type 0 where
  pub read : c ≡ balance org s
  pub present : lookup org s'.balances ≡ some c
  pub unchanged : (o : ℕ) → balance o s' ≡ balance o s
  pub same_ledger : s'.ledger ≡ s.ledger

pub insert_new-old :
    (org : ℕ) (v c : ℤ) (t : Table ℤ) → lookup org t ≡ some c → insert_new org v t ≡ t
insert_new-old org v c [] e = cc
insert_new-old org v c ((j, w) ∷ t) e = ground (arith, insert_new-old org v c t)

balance-insert_new :
    (org o : ℕ) (t : Table ℤ)
    → balance_or_zero (lookup o (insert_new org (pos 0) t)) ≡ balance_or_zero (lookup o t)
unfolding balance_or_zero
balance-insert_new org o t = ground (arith, lookup-insert_new o org (pos 0) t)

or_created_ok :
    (faults : Faults) (org : ℕ) (v : Option ℤ) (s s' : Accounts) (c : ℤ)
    → lookup org s.balances ≡ v
    → or_created faults org v s ≡ (ok c, s')
    → Locked org c s s'
unfolding or_created balance_or_zero
or_created_ok faults org none s s' c k e = record {
  read = ground (arith, lookup-insert_new org org (pos 0) s.balances);
  present = ground (arith, lookup-insert_new org org (pos 0) s.balances);
  unchanged = λ o. ground (arith, balance-insert_new org o s.balances);
  same_ledger = ground arith;
}
or_created_ok faults org (some b) s s' c k e = record {
  read = ground arith;
  present = ground arith;
  unchanged = λ o. ground arith;
  same_ledger = ground arith;
}

select_balance_ok :
    (faults : Faults) (stmt : Stmt) (org : ℕ) (s s' : Accounts) (v : Option ℤ)
    → select_balance faults stmt org s ≡ (ok v, s')
    → (v ≡ lookup org s.balances) × (s' ≡ s)
unfolding select_balance
select_balance_ok faults stmt org s s' v e = (ground arith, ground arith)

pub lock_or_create_ok :
    (faults : Faults) (org : ℕ) (s s' : Accounts) (c : ℤ)
    → lock_or_create faults org s ≡ (ok c, s')
    → Locked org c s s'
unfolding lock_or_create
lock_or_create_ok faults org s s' c e =
    let (v, t, selected, rest) =
      >>=-eq-ok (select_balance faults lock_balance org) (or_created faults org) s e in
    let (p, q) = select_balance_ok faults lock_balance org s t v selected in
    or_created_ok faults org v s s' c (sym p) (rw q at rest)

pub ensure_and_lock_ok :
    (faults : Faults) (org : ℕ) (s s' : Accounts) (c : ℤ)
    → ensure_and_lock faults org s ≡ (ok c, s')
    → Locked org c s s'
unfolding ensure_and_lock balance_or_zero
ensure_and_lock_ok faults org s s' c e = record {
  read = ground (arith, lookup-insert_new org org (pos 0) s.balances);
  present = ground (arith, lookup-insert_new org org (pos 0) s.balances);
  unchanged = λ o. ground (arith, balance-insert_new org o s.balances);
  same_ledger = ground arith;
}

pub post_ok :
    (faults : Faults) (org : ℕ) (new c : ℤ) (row : LedgerRow) (id : ℕ) (s s' : Accounts)
    → lookup org s.balances ≡ some c
    → post faults org new row s ≡ (ok id, s')
    → (id ≡ row.id) × Posted org new row s s' × (pos 0 ≤ℤ new)
unfolding post balance_or_zero
post_ok faults org new c row id s s' k e = (
  ground arith,
  record {
    balances = λ o. ground (arith, lookup-update o org new s.balances);
    ledger = ground arith;
  },
  ground arith,
)
