-- ===== src/Credits/Progress.antt =====
-- internal/credits/credits.go: what `Debit` answers when the database answers.
use vaultkey.Prelude.{
  ℕ, zero, suc, ◌≡◌, refl, false, Option, none, some, inl, inr, Option-cases, Bool-cases,
  if◌then◌else◌, arith, ap, ◌∙◌,
}
use vaultkey.Prelude.Int.{
  ℤ, pos, negsuc, ◌-ℤ◌, ◌≤ℤ◌, ltb_ℤ, IsInt64, wrap64, wrap64_exact, int_laws,
}
use vaultkey.Prelude.Assoc.{lookup, insert_new, lookup-insert_new}
use vaultkey.Credits.Tables.{
  Accounts, Faults, Result, ok, err, insufficient_credits, transaction, finish, >>=_step,
}
use vaultkey.Credits.Locking.{balance}
use vaultkey.Credits.Posting.{debit_fits}
use vaultkey.Credits.{
  DebitParams, charge, is_zero, debit_row, debit_result, debit_body, debit_locked, write_debit,
  lock_or_create, or_created, select_balance, insert_row, found, covered, post, update_balance,
  insert_ledger, balance_or_zero,
}

abbrev pub no_faults : Faults
no_faults q = false

locked : ℕ → Accounts → Option ℤ → Accounts
locked org s none = record s { balances = insert_new org (pos 0) s.balances }
locked org s (some b) = s

lock_no_faults :
    (org : ℕ) (s : Accounts)
    → lock_or_create no_faults org s ≡ (ok (balance org s), locked org s (lookup org s.balances))
unfolding lock_or_create or_created select_balance insert_row found balance_or_zero locked
lock_no_faults org s = elim (Option-cases (lookup org s.balances)) [
  | inl e ↦ rw e (ground (arith, lookup-insert_new org org (pos 0) s.balances))
  | inr (b, e) ↦ rw e refl
]

amount_nonzero :
    (cost : ℤ)
    → pos 0 ≤ℤ cost
    → is_zero cost ≡ false
    → IsInt64 cost
    → is_zero (wrap64 (pos 0 -ℤ cost)) ≡ false
unfolding is_zero ◌-ℤ◌ wrap64
amount_nonzero (pos zero) h nz fits = cc
amount_nonzero (pos (suc n)) h nz fits = ground arith
amount_nonzero (negsuc n) h nz fits = absurd (omega arith)

write_no_faults :
    (p : DebitParams) (cost : ℤ) (id now : ℕ) (c : ℤ) (s : Accounts)
    → pos 0 ≤ℤ cost
    → is_zero cost ≡ false
    → IsInt64 c
    → IsInt64 cost
    → cost ≤ℤ c
    → (write_debit no_faults p cost id now c s).0 ≡ ok (debit_result c cost (c -ℤ cost) id)
unfolding write_debit post update_balance insert_ledger debit_row is_zero
write_no_faults p cost id now c s h nz fits fits' enough =
    let exact = wrap64_exact _ (debit_fits c cost h fits enough) in
    let nonneg : ltb_ℤ (c -ℤ cost) (pos 0) ≡ false = grind (int_laws) in
    rw (exact, nonneg, amount_nonzero cost h nz fits')

finish-no_faults :
    {A : Type 0} (before : Accounts) (x : Result A × Accounts) → (finish no_faults before x).0 ≡ x.0
unfolding finish
finish-no_faults before (ok a, s) = refl
finish-no_faults before (err e, s) = refl

debit_locked_decides :
    (p : DebitParams) (cost : ℤ) (id now : ℕ) (c : ℤ) (s : Accounts)
    → pos 0 ≤ℤ cost
    → is_zero cost ≡ false
    → IsInt64 cost
    → IsInt64 c
    → (debit_locked no_faults p cost id now c s).0
      ≡ (if ltb_ℤ c cost then err insufficient_credits else ok (debit_result c cost (c -ℤ cost) id))
unfolding debit_locked covered
debit_locked_decides p cost id now c s h nz fits fits' = elim (Bool-cases (ltb_ℤ c cost)) [
  | inl e ↦ rw e refl
  | inr e ↦ rw e (write_no_faults p cost id now c s h nz fits' fits (ground arith))
]

debit_body_decides :
    (p : DebitParams) (cost : ℤ) (id now : ℕ) (s : Accounts)
    → pos 0 ≤ℤ cost
    → is_zero cost ≡ false
    → IsInt64 cost
    → IsInt64 (balance p.org s)
    → (debit_body no_faults p cost id now s).0 ≡ (
        if ltb_ℤ (balance p.org s) cost
        then err insufficient_credits
        else ok (debit_result (balance p.org s) cost (balance p.org s -ℤ cost) id))
unfolding debit_body
debit_body_decides p cost id now s h nz fits fits' =
    ap (λ x. x.0)
      (>>=_step (lock_or_create no_faults p.org) (debit_locked no_faults p cost id now) s
        (lock_no_faults p.org s))
    ∙ debit_locked_decides p cost id now (balance p.org s) _ h nz fits fits'

-- Where no statement fails and the numbers fit an int64, a debit of a positive cost succeeds exactly when the balance covers it,
-- with the balances before and after, and is refused for lack of credits otherwise.
pub charge_decides :
    (p : DebitParams) (cost : ℤ) (id now : ℕ) (s : Accounts)
    → pos 0 ≤ℤ cost
    → is_zero cost ≡ false
    → IsInt64 cost
    → IsInt64 (balance p.org s)
    → (charge no_faults p cost id now s).0 ≡ (
        if ltb_ℤ (balance p.org s) cost
        then err insufficient_credits
        else ok (debit_result (balance p.org s) cost (balance p.org s -ℤ cost) id))
unfolding charge transaction
charge_decides p cost id now s h nz fits fits' = rw nz (
    finish-no_faults s (debit_body no_faults p cost id now s)
    ∙ debit_body_decides p cost id now s h nz fits fits')
