-- ===== src/Credits/Relocking.antt =====
-- internal/credits/credits.go: what a transaction read still holds when only rows of other organizations
-- have changed.
use vaultkey.Prelude.{
  ℕ, ◌||◌, ◌&&◌, false, Option, none, some, ◌∷◌, ◌≡◌, ◌≢◌, refl, sym, ap, ◌∙◌, arith, Bool-cases,
  inl, inr,
}
use vaultkey.Prelude.Int.{ℤ, pos, ◌-ℤ◌, wrap64, ltb_ℤ, leb_ℤ}
use vaultkey.Prelude.Assoc.{lookup, update, lookup-insert_new, lookup-update}
use vaultkey.Credits.Tables.{
  Accounts, Faults, Stmt, Action, ◌>>=◌, pure, run_stmt, LedgerRow, commit_stmt,
  update_balance_stmt, insert_ledger_stmt, Result, ok, err, finish, transaction, begin_stmt,
  create_row, relock_balance, lock_balance, >>=_step,
}
use vaultkey.Credits.Locking.{insert_new-old}
use vaultkey.Credits.{
  DebitParams, DebitResult, lock_or_create, or_created, select_balance, insert_row, found, post,
  covered, write_debit, update_balance, insert_ledger, debit_row, debit_result, debit_locked,
  debit_body, charge, is_zero,
}
use vaultkey.Credits.Sessions.{Session, with_row, org_of, write}

select_ok :
    (faults : Faults) (stmt : Stmt) (org : ℕ) (t : Accounts)
    → faults stmt ≡ false
    → select_balance faults stmt org t ≡ (ok (lookup org t.balances), t)
unfolding select_balance
select_ok faults stmt org t f = rw f refl

insert_ok :
    (faults : Faults) (org : ℕ) (t : Accounts)
    → faults create_row ≡ false
    → insert_row faults org t ≡ (ok tt, with_row org t)
unfolding insert_row with_row
insert_ok faults org t f = rw f refl

created :
    (faults : Faults) (org : ℕ) (t : Accounts)
    → faults create_row ≡ false
    → faults relock_balance ≡ false
    → lookup org t.balances ≡ none
    → or_created faults org none t ≡ (ok (pos 0), with_row org t)
unfolding or_created found
created faults org t f g missing =
    let relock = select_balance faults relock_balance org in
    let row : lookup org (with_row org t).balances ≡ some (pos 0) =
      unfold with_row in ground (arith, lookup-insert_new org org (pos 0) t.balances) in
    >>=_step (insert_row faults org) (λ _. relock >>= found relock_balance) t
      (insert_ok faults org t f)
    ∙ >>=_step relock (found relock_balance) (with_row org t)
        (select_ok faults relock_balance org (with_row org t) g)
    ∙ ap (λ v. found relock_balance v (with_row org t)) row

or_created_again :
    (faults : Faults) (org : ℕ) (v : Option ℤ) (s s' t : Accounts) (c : ℤ)
    → lookup org s.balances ≡ v
    → lookup org t.balances ≡ v
    → or_created faults org v s ≡ (ok c, s')
    → or_created faults org v t ≡ (ok c, with_row org t)
unfolding or_created with_row insert_row select_balance found
or_created_again faults org none s s' t c h k e = elim (Bool-cases (faults create_row)) [
  | inl f ↦ absurd (ground arith)
  | inr f ↦ elim (Bool-cases (faults relock_balance)) [
    | inl g ↦ absurd (ground arith)
    | inr g ↦
        let here = created faults org s f g h in
        let zero : c ≡ pos 0 = cc in rw zero (created faults org t f g k)
  ]
]
or_created_again faults org (some b) s s' t c h k e =
    let old = insert_new-old org (pos 0) b t.balances k in rw old (cc)

pub lock_or_create_again :
    (faults : Faults) (org : ℕ) (s s' t : Accounts) (c : ℤ)
    → lookup org t.balances ≡ lookup org s.balances
    → lock_or_create faults org s ≡ (ok c, s')
    → lock_or_create faults org t ≡ (ok c, with_row org t)
unfolding lock_or_create select_balance
lock_or_create_again faults org s s' t c same e = elim (Bool-cases (faults lock_balance)) [
  | inl f ↦ absurd (ground arith)
  | inr f ↦
      let lock = select_balance faults lock_balance org in
      let locked_s =
        >>=_step lock (or_created faults org) s (select_ok faults lock_balance org s f) in
      let locked_t =
        >>=_step lock (or_created faults org) t (select_ok faults lock_balance org t f) in
      locked_t
      ∙ rw same (
          or_created_again faults org (lookup org s.balances) s s' t c refl same (sym locked_s ∙ e))
]

-- An action that leaves the row of `o` as it is.
abbrev pub Keeps : {A : Type 0} → ℕ → Action A → Type 0
Keeps o m = (s : Accounts) → lookup o (m s).1.balances ≡ lookup o s.balances

>>=-Keeps :
    {A B : Type 0} (o : ℕ) (m : Action A) (f : A → Action B)
    → Keeps o m
    → ((a : A) → Keeps o (f a))
    → Keeps o (m >>= f)
>>=-Keeps {A} {B} o m f hm hf s = go (m s) (hm s)
  where
    next : Result A × Accounts → Result B × Accounts
    next (r, s') = elim r [ ok a ↦ f a s' | err e ↦ (err e, s') ]

    go :
        (x : Result A × Accounts)
        → lookup o x.1.balances ≡ lookup o s.balances
        → lookup o (next x).1.balances ≡ lookup o s.balances
    go (ok a, s') h = hf a s' ∙ h
    go (err e, s') h = h

run_stmt-Keeps :
    {A : Type 0} (faults : Faults) (stmt : Stmt) (f : Accounts → A × Accounts) (o : ℕ)
    → ((s : Accounts) → lookup o (f s).1.balances ≡ lookup o s.balances)
    → Keeps o (run_stmt faults stmt f)
run_stmt-Keeps faults stmt f o h s = elim (Bool-cases (faults stmt)) [
  | inl e ↦ rw e refl
  | inr e ↦ rw e (h s)
]

covered-Keeps : (c cost : ℤ) (o : ℕ) → Keeps o (covered c cost)
unfolding covered
covered-Keeps c cost o s = elim (Bool-cases (ltb_ℤ c cost)) [
  | inl e ↦ rw e refl
  | inr e ↦ rw e refl
]

post-Keeps :
    (faults : Faults) (org : ℕ) (new : ℤ) (row : LedgerRow) (o : ℕ)
    → org ≢ o
    → Keeps o (post faults org new row)
unfolding post update_balance insert_ledger
post-Keeps faults org new row o other =
    >>=-Keeps o (update_balance faults org new) (λ _. insert_ledger faults row)
      (run_stmt-Keeps (λ q. faults q || ltb_ℤ new (pos 0)) update_balance_stmt
        (λ s. (tt, record s { balances = update org new s.balances })) o
        (λ s. ground (arith, lookup-update o org new s.balances)))
      (λ _.
        run_stmt-Keeps
          (λ q.
            faults q
            || ltb_ℤ row.balance_after (pos 0)
            || leb_ℤ row.amount (pos 0) && leb_ℤ (pos 0) row.amount)
          insert_ledger_stmt (λ s. (row.id, record s { ledger = row ∷ s.ledger })) o (λ s. refl))

debit_locked-Keeps :
    (faults : Faults) (p : DebitParams) (cost : ℤ) (id now : ℕ) (c : ℤ) (o : ℕ)
    → p.org ≢ o
    → Keeps o (debit_locked faults p cost id now c)
unfolding debit_locked write_debit
debit_locked-Keeps faults p cost id now c o other =
    >>=-Keeps o (covered c cost) (λ _. write_debit faults p cost id now c) (covered-Keeps c cost o)
      (λ _.
        let new = wrap64 (c -ℤ cost) in
        >>=-Keeps o (post faults p.org new (debit_row p cost new id now))
          (λ n. pure (debit_result c cost new n))
          (post-Keeps faults p.org new (debit_row p cost new id now) o other) (λ n s. refl))

-- What a transaction writes does not reach the row of another organization.
pub write-Keeps : (job : ℕ → Session) (i o : ℕ) (c : ℤ) → org_of job i ≢ o → Keeps o (write job i c)
unfolding write with_row finish
write-Keeps job i o c other t =
    let x = job i in
    let org = x.params.org in
    ended (debit_locked x.faults x.params x.cost x.id x.now c (with_row org t)) (
      debit_locked-Keeps x.faults x.params x.cost x.id x.now c o other (with_row org t)
      ∙ ground (arith, lookup-insert_new o org (pos 0) t.balances))
  where
    ended :
        (r : Result DebitResult × Accounts)
        → lookup o r.1.balances ≡ lookup o t.balances
        → lookup o (finish (job i).faults t r).1.balances ≡ lookup o t.balances
    ended (err e, s) h = refl
    ended (ok a, s) h = elim (Bool-cases ((job i).faults commit_stmt)) [
      | inl e ↦ rw e refl
      | inr e ↦ rw e h
    ]

-- A transaction that wrote with the balance it would read now does what the whole call does now.
pub write-charge :
    (job : ℕ → Session) (i : ℕ) (c : ℤ) (t : Accounts)
    → let x = job i in
      is_zero x.cost ≡ false
      → x.faults begin_stmt ≡ false
      → lock_or_create x.faults x.params.org t ≡ (ok c, with_row x.params.org t)
      → write job i c t ≡ charge x.faults x.params x.cost x.id x.now t
unfolding write charge transaction debit_body
write-charge job i c t paid begun read =
    let x = job i in
    rw (paid, begun)
      (ap (finish x.faults t) (
        sym (
          >>=_step (lock_or_create x.faults x.params.org)
            (debit_locked x.faults x.params x.cost x.id x.now) t read)))
