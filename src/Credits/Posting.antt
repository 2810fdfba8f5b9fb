-- ===== src/Credits/Posting.antt =====
-- internal/credits/credits.go: what `Debit` and `Credit` do to the tables, whatever statements fail.
use vaultkey.Prelude.{
  ℕ, ◌≡◌, refl, ap, ◌∙◌, false, subst, some, ◌∷◌, inl, inr, Bool-cases, not, arith,
}
use vaultkey.Prelude.Int.{
  ℤ, pos, ◌+ℤ◌, ◌-ℤ◌, ◌≤ℤ◌, leb_ℤ, IsInt64, wrap64, wrap64_exact, wrap64-IsInt64,
}
use vaultkey.Prelude.Assoc.{lookup}
use vaultkey.Credits.Tables.{
  Accounts, LedgerRow, Faults, Result, ok, err, pure, transaction_cases, >>=-eq-ok,
}
use vaultkey.Credits.{
  DebitParams, DebitResult, CreditParams, debit_row, credit_row, debit_result, write_debit,
  write_credit, debit_locked, debit_body, credit_body, lock_or_create, ensure_and_lock, post,
  charge, covered, is_zero, credit, valid_reason,
}
use vaultkey.Credits.Locking.{
  balance, Posted, Locked, lock_or_create_ok, ensure_and_lock_ok, post_ok,
}

-- How a debit of `cost` ended.
abbrev pub Debited : DebitParams → ℤ → ℕ → ℕ → Accounts → Result DebitResult × Accounts → Type 0
Debited p cost id now s (err e, s') = s' ≡ s
Debited p cost id now s (ok r, s') =
    (cost ≤ℤ balance p.org s)
    × (r ≡ debit_result (balance p.org s) cost (balance p.org s -ℤ cost) id)
    × Posted p.org (balance p.org s -ℤ cost) (debit_row p cost (balance p.org s -ℤ cost) id now) s
        s'

-- Moving a posting back over the lock that it followed.
Posted-Locked :
    (org : ℕ) (c new : ℤ) (row : LedgerRow) (s t s' : Accounts)
    → Locked org c s t
    → Posted org new row t s'
    → Posted org new row s s'
Posted-Locked org c new row s t s' l p = record {
  balances = λ o. ground (arith, p.balances o, l.unchanged o);
  ledger = p.ledger ∙ ap (λ rows. row ∷ rows) l.same_ledger;
}

covered_ok :
    (c cost : ℤ) (s s' : Accounts) (u : Unit {0})
    → covered c cost s ≡ (ok u, s')
    → (cost ≤ℤ c) × (s' ≡ s)
unfolding covered
covered_ok c cost s s' u e = (ground arith, ground arith)

write_debit_ok :
    (faults : Faults) (p : DebitParams) (cost : ℤ) (id now : ℕ) (c : ℤ) (s s' : Accounts)
    (r : DebitResult)
    → wrap64 (c -ℤ cost) ≡ c -ℤ cost
    → lookup p.org s.balances ≡ some c
    → write_debit faults p cost id now c s ≡ (ok r, s')
    → (r ≡ debit_result c cost (c -ℤ cost) id)
      × Posted p.org (c -ℤ cost) (debit_row p cost (c -ℤ cost) id now) s s'
unfolding write_debit debit_row
write_debit_ok faults p cost id now c s s' r exact k e =
    let row = debit_row p cost (c -ℤ cost) id now in
    let (w, t, posted, last) =
      >>=-eq-ok (post faults p.org (c -ℤ cost) row) (λ w. pure (debit_result c cost (c -ℤ cost) w))
        s (rw exact at e) in
    let (same_id, moved, _) = post_ok faults p.org (c -ℤ cost) c row w s t k posted in
    let ended : t ≡ s' = cc in (cc, subst (Posted p.org (c -ℤ cost) row s) ended moved)

pub debit_fits : (c cost : ℤ) → pos 0 ≤ℤ cost → IsInt64 c → cost ≤ℤ c → IsInt64 (c -ℤ cost)
unfolding ◌-ℤ◌
debit_fits c cost h fits enough = ground arith

debit_body_ok :
    (faults : Faults) (p : DebitParams) (cost : ℤ) (id now : ℕ) (s s' : Accounts) (r : DebitResult)
    → pos 0 ≤ℤ cost
    → IsInt64 (balance p.org s)
    → debit_body faults p cost id now s ≡ (ok r, s')
    → Debited p cost id now s (ok r, s')
unfolding debit_body debit_locked
debit_body_ok faults p cost id now s s' r h fits e =
    let (c, t, locked, rest) =
      >>=-eq-ok (lock_or_create faults p.org) (debit_locked faults p cost id now) s e in
    let l = lock_or_create_ok faults p.org s t c locked in
    let (u, t', paid, rest') =
      >>=-eq-ok (covered c cost) (λ _. write_debit faults p cost id now c) t rest in
    let (enough, same) = covered_ok c cost t t' u paid in
    let exact : wrap64 (c -ℤ cost) ≡ c -ℤ cost =
      wrap64_exact _ (debit_fits c cost h (rw (← l.read) at fits) enough) in
    let (result, moved) =
      write_debit_ok faults p cost id now c t s' r exact l.present (rw same at rest') in
    rw (← l.read) (enough, result, Posted-Locked p.org c _ _ s t s' l moved)

-- A debit of a positive cost, on a balance that fits an int64, fails and changes nothing, or the balance covered its cost, falls by exactly that, and one
-- ledger row records the cost with the new balance; every other balance stays.
pub charge-Debited :
    (faults : Faults) (p : DebitParams) (cost : ℤ) (id now : ℕ) (s : Accounts)
    → pos 0 ≤ℤ cost
    → is_zero cost ≡ false
    → IsInt64 (balance p.org s)
    → Debited p cost id now s (charge faults p cost id now s)
unfolding charge
charge-Debited faults p cost id now s h nz fits = rw nz (
    transaction_cases (Debited p cost id now s) faults (debit_body faults p cost id now) s
      (λ e. refl) (λ r s' e. debit_body_ok faults p cost id now s s' r h fits e))

-- How a credit ended.
abbrev pub Credited : CreditParams → ℕ → ℕ → Accounts → Result (Unit {0}) × Accounts → Type 0
Credited p id now s (err e, s') = s' ≡ s
Credited p id now s (ok _, s') =
    (pos 1 ≤ℤ p.amount)
    × IsInt64 (balance p.org s +ℤ p.amount)
    × Posted p.org (balance p.org s +ℤ p.amount) (credit_row p (balance p.org s +ℤ p.amount) id now)
        s s'

-- A sum of two non-negative int64 values that wraps around comes out negative.
wrap64_add :
    (a b : ℤ)
    → pos 0 ≤ℤ a
    → pos 0 ≤ℤ b
    → IsInt64 a
    → IsInt64 b
    → pos 0 ≤ℤ wrap64 (a +ℤ b)
    → wrap64 (a +ℤ b) ≡ a +ℤ b
unfolding ◌+ℤ◌ wrap64
wrap64_add (pos m) (pos n) h k fa fb e = ground arith
wrap64_add a b h k fa fb e = absurd (omega arith)

write_credit_ok :
    (faults : Faults) (p : CreditParams) (id now : ℕ) (c : ℤ) (s s' : Accounts) (u : Unit {0})
    → lookup p.org s.balances ≡ some c
    → write_credit faults p id now c s ≡ (ok u, s')
    → let new = wrap64 (c +ℤ p.amount) in
      Posted p.org new (credit_row p new id now) s s' × (pos 0 ≤ℤ new)
unfolding write_credit
write_credit_ok faults p id now c s s' u k e =
    let new = wrap64 (c +ℤ p.amount) in
    let row = credit_row p new id now in
    let (w, t, posted, last) = >>=-eq-ok (post faults p.org new row) (λ _. pure tt) s e in
    let (_, moved, nonneg) = post_ok faults p.org new c row w s t k posted in
    let ended : t ≡ s' = cc in (subst (Posted p.org new row s) ended moved, nonneg)

credit_body_ok :
    (faults : Faults) (p : CreditParams) (id now : ℕ) (s s' : Accounts) (u : Unit {0})
    → pos 1 ≤ℤ p.amount
    → IsInt64 p.amount
    → pos 0 ≤ℤ balance p.org s
    → IsInt64 (balance p.org s)
    → credit_body faults p id now s ≡ (ok u, s')
    → Credited p id now s (ok u, s')
unfolding credit_body
credit_body_ok faults p id now s s' u h fits h' fits' e =
    let (c, t, locked, rest) =
      >>=-eq-ok (ensure_and_lock faults p.org) (write_credit faults p id now) s e in
    let l = ensure_and_lock_ok faults p.org s t c locked in
    let (moved, nonneg) = write_credit_ok faults p id now c t s' u l.present rest in
    let exact = wrap64_add c p.amount (rw l.read h') (omega arith) (rw l.read fits') fits nonneg in
    rw (← l.read, ← exact)
      (h, wrap64-IsInt64 (c +ℤ p.amount), Posted-Locked p.org c _ _ s t s' l moved)

-- A credit to a balance that is not negative, both within int64, fails and changes nothing, or the balance grows by exactly the amount, and one ledger row
-- records it with the new balance; a sum that does not fit an int64 fails.
pub credit-Credited :
    (faults : Faults) (p : CreditParams) (id now : ℕ) (s : Accounts)
    → IsInt64 p.amount
    → pos 0 ≤ℤ balance p.org s
    → IsInt64 (balance p.org s)
    → Credited p id now s (credit faults p id now s)
unfolding credit
credit-Credited faults p id now s fits h' fits' = elim (Bool-cases (leb_ℤ p.amount (pos 0))) [
  | inl e ↦ rw e refl
  | inr e ↦ rw e (elim (Bool-cases (not (valid_reason p.reason))) [
    | inl bad ↦ rw bad refl
    | inr good ↦ rw good (
        transaction_cases (Credited p id now s) faults (credit_body faults p id now) s (λ q. refl)
          (λ u s' q. credit_body_ok faults p id now s s' u (ground arith) fits h' fits' q))
  ])
]
