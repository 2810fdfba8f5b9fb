-- ===== src/Credits.antt =====
-- internal/credits/credits.go: `Manager`. The tables that an operation touches are its state; each
-- SQL statement is a step that reads or writes them, and `Faults` says which statements the
-- database refuses. Row ids are only compared, so they are numbers; amounts are int64.
pub mod Tables
pub mod Locking
pub mod Posting
pub mod Relocking
pub mod Serial
pub mod Sessions
pub mod Settled
pub mod Progress
pub mod Invariant
pub mod Limits
mod Tests
mod SessionTests
use vaultkey.Prelude.{
  ℕ, String, Bool, true, false, ◌&&◌, ◌||◌, not, Option, none, some, List, [], ◌∷◌, ltb, ◌==◌,
  if◌then◌else◌,
}
use vaultkey.Prelude.Int.{ℤ, pos, ◌+ℤ◌, ◌-ℤ◌, ltb_ℤ, leb_ℤ, wrap64}
use vaultkey.Prelude.Assoc.{lookup, insert_new, update}
use text.Mathlib.Text.{◌==◌ as str_eq}
use Tables.{
  Accounts, LedgerRow, Stmt, get_cost_stmt, read_balance, lock_balance, create_row, relock_balance,
  update_balance_stmt, insert_ledger_stmt, Faults, Error, Result, ok, err, insufficient_credits,
  operation_not_found, invalid_amount, invalid_reason, internal, Action, pure, raise, run_stmt,
  ◌>>=◌, ◌>>◌, transaction,
}

pub record OperationCost : Type 0 where
  pub operation : String
  pub cost : ℤ
  pub active : Bool

find_cost : String → List OperationCost → Option OperationCost
find_cost op [] = none
find_cost op (c ∷ cs) = let rest = find_cost op cs in if str_eq c.operation op then some c else rest

checked_cost : Option OperationCost → Result OperationCost
checked_cost none = err operation_not_found
checked_cost (some oc) = if oc.active then ok oc else err operation_not_found

unfoldable pub get_cost : Faults → List OperationCost → String → Result OperationCost
unfolding find_cost checked_cost
get_cost faults costs op =
    if faults get_cost_stmt then err (internal get_cost_stmt) else checked_cost (find_cost op costs)

pub record DebitParams : Type 0 where
  pub org : ℕ
  pub operation : String
  pub ref_id : String
  -- `metadata->>'operation'`, the part of the metadata that a query reads
  pub tag : Option String

pub record DebitResult : Type 0 where
  pub ledger_id : ℕ
  pub balance_before : ℤ
  pub cost : ℤ
  pub balance_after : ℤ

-- `if p.RefID != "" { refID = &p.RefID }`
unfoldable pub nullable : String → Option String
nullable ref = if str_eq ref "" then none else some ref

-- SELECT balance … FOR UPDATE
select_balance : Faults → Stmt → ℕ → Action (Option ℤ)
select_balance faults stmt org = run_stmt faults stmt λ s. (lookup org s.balances, s)

insert_row : Faults → ℕ → Action (Unit {0})
insert_row faults org =
    run_stmt faults create_row λ s. (tt, record s { balances = insert_new org (pos 0) s.balances })

found : Stmt → Option ℤ → Action ℤ
found stmt none = raise (internal stmt)
found stmt (some balance) = pure balance

-- The row is created with 0 and locked again where the first SELECT finds none.
or_created : Faults → ℕ → Option ℤ → Action ℤ
unfolding insert_row found select_balance
or_created faults org (some balance) = pure balance
or_created faults org none = do
  insert_row faults org
  balance ← select_balance faults relock_balance org
  found relock_balance balance

pub lock_or_create : Faults → ℕ → Action ℤ
unfolding select_balance or_created
lock_or_create faults org = select_balance faults lock_balance org >>= or_created faults org

-- UPDATE … SET balance: the table has CHECK (balance >= 0).
update_balance : Faults → ℕ → ℤ → Action (Unit {0})
update_balance faults org balance =
    run_stmt (λ q. faults q || ltb_ℤ balance (pos 0)) update_balance_stmt
      λ s. (tt, record s { balances = update org balance s.balances })

-- INSERT INTO credit_ledger: the table has CHECK (balance_after >= 0) and CHECK (amount != 0).
insert_ledger : Faults → LedgerRow → Action ℕ
insert_ledger faults row =
    run_stmt
      (λ q.
        faults q
        || ltb_ℤ row.balance_after (pos 0)
        || leb_ℤ row.amount (pos 0) && leb_ℤ (pos 0) row.amount)
      insert_ledger_stmt λ s. (row.id, record s { ledger = row ∷ s.ledger })

-- The two writes that end both operations.
pub post : Faults → ℕ → ℤ → LedgerRow → Action ℕ
unfolding update_balance insert_ledger
post faults org balance row = update_balance faults org balance >> insert_ledger faults row

unfoldable pub debit_row : DebitParams → ℤ → ℤ → ℕ → ℕ → LedgerRow
debit_row p cost balance id now = record {
  id = id;
  org = p.org;
  amount = wrap64 (pos 0 -ℤ cost);
  balance_after = balance;
  reason = "operation";
  ref_id = nullable p.ref_id;
  tag = p.tag;
  created_at = now;
  expires_at = none;
}

covered : ℤ → ℤ → Action (Unit {0})
covered balance cost = if ltb_ℤ balance cost then raise insufficient_credits else pure tt

unfoldable pub debit_result : ℤ → ℤ → ℤ → ℕ → DebitResult
debit_result current cost balance ledger_id = record {
  ledger_id = ledger_id;
  balance_before = current;
  cost = cost;
  balance_after = balance;
}

-- The UPDATE and the INSERT of a debit that the balance `current` covers.
write_debit : Faults → DebitParams → ℤ → ℕ → ℕ → ℤ → Action DebitResult
unfolding post debit_row debit_result
write_debit faults p cost id now current = do
  let balance = wrap64 (current -ℤ cost)
  ledger_id ← post faults p.org balance (debit_row p cost balance id now)
  pure (debit_result current cost balance ledger_id)

pub debit_locked : Faults → DebitParams → ℤ → ℕ → ℕ → ℤ → Action DebitResult
unfolding covered write_debit
debit_locked faults p cost id now current =
    covered current cost >> write_debit faults p cost id now current

-- What `Debit` runs between BEGIN and COMMIT; the database chooses the row's id and time.
debit_body : Faults → DebitParams → ℤ → ℕ → ℕ → Action DebitResult
unfolding lock_or_create debit_locked
debit_body faults p cost id now = lock_or_create faults p.org >>= debit_locked faults p cost id now

-- `&DebitResult{Cost: 0}`
free_result : DebitResult
free_result = record { ledger_id = 0; balance_before = pos 0; cost = pos 0; balance_after = pos 0 }

-- `oc.Cost == 0`
unfoldable pub is_zero : ℤ → Bool
is_zero c = leb_ℤ c (pos 0) && leb_ℤ (pos 0) c

pub charge : Faults → DebitParams → ℤ → ℕ → ℕ → Action DebitResult
unfolding is_zero free_result debit_body transaction
charge faults p cost id now =
    if is_zero cost then pure free_result else transaction faults (debit_body faults p cost id now)

priced : Faults → DebitParams → ℕ → ℕ → Result OperationCost → Action DebitResult
unfolding charge
priced faults p id now (err e) = raise e
priced faults p id now (ok oc) = charge faults p oc.cost id now

-- `Manager.Debit`
unfoldable pub debit : Faults → List OperationCost → DebitParams → ℕ → ℕ → Action DebitResult
unfolding get_cost priced
debit faults costs p id now = priced faults p id now (get_cost faults costs p.operation)

pub record CreditParams : Type 0 where
  pub org : ℕ
  pub amount : ℤ
  pub reason : String
  pub ref_id : String
  pub tag : Option String
  pub expires_at : Option ℕ

valid_reason : String → Bool
valid_reason r = str_eq r "purchase" || str_eq r "refund" || str_eq r "free_grant"

unfoldable pub credit_row : CreditParams → ℤ → ℕ → ℕ → LedgerRow
credit_row p balance id now = record {
  id = id;
  org = p.org;
  amount = p.amount;
  balance_after = balance;
  reason = p.reason;
  ref_id = nullable p.ref_id;
  tag = p.tag;
  created_at = now;
  expires_at = p.expires_at;
}

-- The upsert and the SELECT … FOR UPDATE of `Credit`.
pub ensure_and_lock : Faults → ℕ → Action ℤ
unfolding insert_row select_balance found
ensure_and_lock faults org =
    insert_row faults org >> (select_balance faults lock_balance org >>= found lock_balance)

write_credit : Faults → CreditParams → ℕ → ℕ → ℤ → Action (Unit {0})
unfolding post credit_row
write_credit faults p id now current = do
  let balance = wrap64 (current +ℤ p.amount)
  ledger_id ← post faults p.org balance (credit_row p balance id now)
  pure tt

credit_body : Faults → CreditParams → ℕ → ℕ → Action (Unit {0})
unfolding ensure_and_lock write_credit
credit_body faults p id now = ensure_and_lock faults p.org >>= write_credit faults p id now

-- `Manager.Credit`
unfoldable pub credit : Faults → CreditParams → ℕ → ℕ → Action (Unit {0})
unfolding valid_reason credit_body transaction
credit faults p id now =
    if leb_ℤ p.amount (pos 0)
    then raise invalid_amount
    else if not (valid_reason p.reason)
    then raise invalid_reason
    else transaction faults (credit_body faults p id now)

-- `Manager.GetBalance`
unfoldable pub balance_or_zero : Option ℤ → ℤ
balance_or_zero none = pos 0
balance_or_zero (some b) = b

pub get_balance : Faults → ℕ → Accounts → Result ℤ
unfolding balance_or_zero
get_balance faults org s =
    if faults read_balance
    then err (internal read_balance)
    else ok (balance_or_zero (lookup org s.balances))
