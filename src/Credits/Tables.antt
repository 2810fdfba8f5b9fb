-- ===== src/Credits/Tables.antt =====
-- The two tables that debits and credits share, the statements that may fail, and transactions.
use vaultkey.Prelude.{
  ℕ, String, Bool, Option, List, ◌≡◌, refl, ap, inl, inr, Bool-cases, if◌then◌else◌,
}
use vaultkey.Prelude.Int.{ℤ}
use vaultkey.Prelude.Assoc.{Table}

-- credit_ledger
pub record LedgerRow : Type 0 where
  pub id : ℕ
  pub org : ℕ
  pub amount : ℤ
  pub balance_after : ℤ
  pub reason : String
  pub ref_id : Option String
  pub tag : Option String
  pub created_at : ℕ
  pub expires_at : Option ℕ

-- org_credit_balance, keyed by organization, and credit_ledger, newest row first.
pub record Accounts : Type 0 where
  pub balances : Table ℤ
  pub ledger : List LedgerRow

pub data Stmt : Type 0 where
  get_cost_stmt begin_stmt commit_stmt : Stmt
  read_balance lock_balance create_row relock_balance : Stmt
  update_balance_stmt insert_ledger_stmt : Stmt
  select_grant insert_grant list_orgs : Stmt

-- The statements at which the database returns an error, in one call.
abbrev pub Faults : Type 0
Faults = Stmt → Bool

pub data Error : Type 0 where
  insufficient_credits operation_not_found invalid_amount invalid_reason : Error
  internal : Stmt → Error

pub data Result {ℓ} (A : Type ℓ) : Type ℓ where
  ok : A → Result A
  err : Error → Result A

abbrev pub Action : Type 0 → Type 0
Action A = Accounts → Result A × Accounts

module _ {A : Type 0} where
  abbrev pub pure : A → Action A
  pure a s = (ok a, s)

  abbrev pub raise : Error → Action A
  raise e s = (err e, s)

  -- A statement either fails and writes nothing, or it runs.
  abbrev pub run_stmt : Faults → Stmt → (Accounts → A × Accounts) → Action A
  run_stmt faults stmt f s =
      let (a, s') = f s in if faults stmt then (err (internal stmt), s) else (ok a, s')

infixl 5 ◌>>=◌ ◌>>◌
abbrev pub ◌>>=◌ : {A B : Type 0} → Action A → (A → Action B) → Action B
◌>>=◌ m f s = let (r, s') = m s in elim r [ ok a ↦ f a s' | err e ↦ (err e, s') ]

abbrev pub ◌>>◌ : {A B : Type 0} → Action A → Action B → Action B
m >> k = m >>= λ _. k

pub >>=_step :
    {A B : Type 0} (m : Action A) (f : A → Action B) (s : Accounts) {a : A} {t : Accounts}
    → m s ≡ (ok a, t)
    → (m >>= f) s ≡ f a t
>>=_step {A} {B} m f s e = ap next e
  where
    next : Result A × Accounts → Result B × Accounts
    next (r, s') = elim r [ ok a ↦ f a s' | err q ↦ (err q, s') ]

pub >>=-eq-ok :
    {A B : Type 0} (m : Action A) (f : A → Action B) (s : Accounts) {b : B} {t : Accounts}
    → (m >>= f) s ≡ (ok b, t)
    → (a : A) × (s' : Accounts) × (m s ≡ (ok a, s')) × (f a s' ≡ (ok b, t))
>>=-eq-ok {A} {B} m f s {b} {t} e = go (m s) refl e
  where
    go :
        (x : Result A × Accounts)
        → m s ≡ x
        → (elim x.0 [ ok a ↦ f a x.1 | err q ↦ (err q, x.1) ]) ≡ (ok b, t)
        → (a : A) × (s' : Accounts) × (m s ≡ (ok a, s')) × (f a s' ≡ (ok b, t))
    go (ok a, s') q h = (a, s', q, h)
    go (err q', s') q h = cc

module _ {A : Type 0} where
  -- `tx.Commit()`, and the deferred `tx.Rollback()` on every other way out.
  unfoldable pub finish : Faults → Accounts → Result A × Accounts → Result A × Accounts
  finish faults before (err e, s) = (err e, before)
  finish faults before (ok a, s) =
      if faults commit_stmt then (err (internal commit_stmt), before) else (ok a, s)

  unfoldable pub transaction : Faults → Action A → Action A
  unfolding finish
  transaction faults body s =
      if faults begin_stmt then (err (internal begin_stmt), s) else finish faults s (body s)

  -- A call in a transaction fails and changes nothing, or ends as its body does.
  pub transaction_cases {ℓ} :
      (P : Result A × Accounts → Type ℓ) (faults : Faults) (body : Action A) (s : Accounts)
      → ((e : Error) → P (err e, s))
      → ((a : A) (s' : Accounts) → body s ≡ (ok a, s') → P (ok a, s'))
      → P (transaction faults body s)
  unfolding transaction finish
  transaction_cases P faults body s failed done = elim (Bool-cases (faults begin_stmt)) [
    | inl e ↦ rw e (failed _)
    | inr e ↦ rw e (go (body s) refl)
  ]
    where
      go : (x : Result A × Accounts) → body s ≡ x → P (finish faults s x)
      go (err e, s') _ = failed e
      go (ok a, s') q = elim (Bool-cases (faults commit_stmt)) [
        | inl c ↦ rw c (failed _)
        | inr c ↦ rw c (done a s' q)
      ]
