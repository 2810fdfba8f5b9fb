-- ===== src/Credits/Invariant.antt =====
-- internal/credits/credits.go: balance rows against the sums of ledger rows.
use vaultkey.Prelude.{
  ℕ, String, ◌≡◌, refl, sym, some, List, [], ◌∷◌, inl, inr, Bool-cases, Option-cases, All, subst,
  ◌==◌, if◌then◌else◌, arith,
}
use vaultkey.Prelude.Int.{ℤ, pos, ◌+ℤ◌, ◌-ℤ◌, ◌≤ℤ◌, IsInt64, wrap64_exact, int_laws}
use text.Mathlib.Text.{◌==◌ as str_eq}
use vaultkey.Credits.Tables.{Accounts, LedgerRow, Faults, Result, ok, err}
use vaultkey.Credits.Locking.{balance, Posted}
use vaultkey.Credits.Posting.{Debited, Credited, charge-Debited, credit-Credited, debit_fits}
use vaultkey.Credits.{
  DebitParams, DebitResult, CreditParams, OperationCost, debit, credit, charge, is_zero, get_cost,
  find_cost, checked_cost, priced, debit_row, credit_row,
}

abbrev pub ledger_sum : ℕ → List LedgerRow → ℤ
ledger_sum o [] = pos 0
ledger_sum o (r ∷ rs) = let rest = ledger_sum o rs in if r.org == o then r.amount +ℤ rest else rest

-- `balance_after` of the newest row of an organization.
abbrev pub last_balance : ℕ → List LedgerRow → ℤ
last_balance o [] = pos 0
last_balance o (r ∷ rs) =
    let rest = last_balance o rs in if r.org == o then r.balance_after else rest

pub record IsConsistent (s : Accounts) : Type 0 where
  pub settled : (o : ℕ) → ledger_sum o s.ledger ≡ balance o s
  pub snapshot : (o : ℕ) → last_balance o s.ledger ≡ balance o s
  pub nonneg : (o : ℕ) → pos 0 ≤ℤ balance o s
  pub fits : (o : ℕ) → IsInt64 (balance o s)

-- CHECK (cost >= 0) on a BIGINT column.
abbrev pub IsPriced : List OperationCost → Type 0
IsPriced [] = Unit
IsPriced (c ∷ cs) = (pos 0 ≤ℤ c.cost) × IsInt64 c.cost × IsPriced cs

-- A posting whose amount is the change of the balance keeps the tables consistent.
Posted-IsConsistent :
    (org : ℕ) (delta new : ℤ) (row : LedgerRow) (s s' : Accounts)
    → IsConsistent s
    → row.org ≡ org
    → row.amount ≡ delta
    → row.balance_after ≡ new
    → delta +ℤ balance org s ≡ new
    → pos 0 ≤ℤ new
    → IsInt64 new
    → Posted org new row s s'
    → IsConsistent s'
Posted-IsConsistent org delta new row s s' v ro ra rb sum nn ft p = record {
  settled = λ o. rw p.ledger (ground (arith, v.settled o, p.balances o));
  snapshot = λ o. rw p.ledger (ground (arith, v.snapshot o, p.balances o));
  nonneg = λ o. rw (p.balances o) (ground (arith, v.nonneg o));
  fits = λ o. rw (p.balances o) (ground (arith, v.fits o));
}

found_price :
    (op : String) (costs : List OperationCost) (oc : OperationCost)
    → IsPriced costs
    → find_cost op costs ≡ some oc
    → (pos 0 ≤ℤ oc.cost) × IsInt64 oc.cost
unfolding find_cost
found_price op [] oc h e = cc
found_price op (c ∷ cs) oc h e = elim (Bool-cases (str_eq c.operation op)) [
  | inl hit ↦
      let same : c ≡ oc = ground arith in
      subst (λ x. (pos 0 ≤ℤ x.cost) × IsInt64 x.cost) same (h.0, h.1)
  | inr miss ↦ found_price op cs oc h.2 (ground arith)
]

get_cost_price :
    (faults : Faults) (op : String) (costs : List OperationCost) (oc : OperationCost)
    → IsPriced costs
    → get_cost faults costs op ≡ ok oc
    → (pos 0 ≤ℤ oc.cost) × IsInt64 oc.cost
unfolding get_cost checked_cost
get_cost_price faults op costs oc h e = elim (Option-cases (find_cost op costs)) [
  | inl none_found ↦ absurd (ground arith)
  | inr (c, hit) ↦ found_price op costs oc h (ground arith)
]

negated_fits : (cost : ℤ) → pos 0 ≤ℤ cost → IsInt64 cost → IsInt64 (pos 0 -ℤ cost)
unfolding ◌-ℤ◌
negated_fits cost h fits = ground arith

charge-IsConsistent :
    (faults : Faults) (p : DebitParams) (cost : ℤ) (id now : ℕ) (s : Accounts)
    → pos 0 ≤ℤ cost
    → IsInt64 cost
    → IsConsistent s
    → IsConsistent (charge faults p cost id now s).1
unfolding debit_row
charge-IsConsistent faults p cost id now s h fits v = elim (Bool-cases (is_zero cost)) [
  | inl free ↦ unfold charge in rw free v
  | inr paid ↦
      go (charge faults p cost id now s)
        (charge-Debited faults p cost id now s h paid (v.fits p.org))
]
  where
    go : (x : Result DebitResult × Accounts) → Debited p cost id now s x → IsConsistent x.1
    go (err e, s') same = subst IsConsistent (sym same) v
    go (ok r, s') (enough, _, posted) =
        let b = balance p.org s in
        Posted-IsConsistent p.org (pos 0 -ℤ cost) (b -ℤ cost) (debit_row p cost (b -ℤ cost) id now)
          s s' v refl (wrap64_exact _ (negated_fits cost h fits)) refl (omega int_laws)
          (omega int_laws) (debit_fits b cost h (v.fits p.org) enough) posted

-- Every debit, whatever it costs and whatever fails, keeps the tables consistent.
pub debit-IsConsistent :
    (faults : Faults) (costs : List OperationCost) (p : DebitParams) (id now : ℕ) (s : Accounts)
    → IsPriced costs
    → IsConsistent s
    → IsConsistent (debit faults costs p id now s).1
unfolding debit priced
debit-IsConsistent faults costs p id now s h v = go (get_cost faults costs p.operation) refl
  where
    go :
        (r : Result OperationCost)
        → get_cost faults costs p.operation ≡ r
        → IsConsistent (priced faults p id now r s).1
    go (err e) q = v
    go (ok oc) q =
        let (nonneg, fits) = get_cost_price faults p.operation costs oc h q in
        charge-IsConsistent faults p oc.cost id now s nonneg fits v

pub Credited-IsConsistent :
    (p : CreditParams) (id now : ℕ) (s : Accounts) (x : Result (Unit {0}) × Accounts)
    → IsConsistent s
    → Credited p id now s x
    → IsConsistent x.1
unfolding credit_row
Credited-IsConsistent p id now s (err e, s') v same = subst IsConsistent (sym same) v
Credited-IsConsistent p id now s (ok u, s') v (positive, in_range, posted) =
    let b = balance p.org s in
    Posted-IsConsistent p.org p.amount (b +ℤ p.amount) (credit_row p (b +ℤ p.amount) id now) s s' v
      refl refl refl (omega int_laws) (omega (int_laws, v.nonneg p.org)) in_range posted

pub credit-IsConsistent :
    (faults : Faults) (p : CreditParams) (id now : ℕ) (s : Accounts)
    → IsInt64 p.amount
    → IsConsistent s
    → IsConsistent (credit faults p id now s).1
credit-IsConsistent faults p id now s fits v =
    Credited-IsConsistent p id now s (credit faults p id now s) v
      (credit-Credited faults p id now s fits (v.nonneg p.org) (v.fits p.org))

pub data Call : Type 0 where
  debits : List OperationCost → DebitParams → Call
  credits : CreditParams → Call

-- One call with the statements that fail in it, and the id and time that the database assigns.
pub record Request : Type 0 where
  pub call : Call
  pub faults : Faults
  pub id : ℕ
  pub now : ℕ

abbrev pub IsLegal : Call → Type 0
IsLegal (debits costs p) = IsPriced costs
IsLegal (credits p) = IsInt64 p.amount

pub serve : Call → Faults → ℕ → ℕ → Accounts → Accounts
serve (debits costs p) faults id now s = (debit faults costs p id now s).1
serve (credits p) faults id now s = (credit faults p id now s).1

pub serve_all : List Request → Accounts → Accounts
unfolding serve
serve_all [] s = s
serve_all (r ∷ rs) s = serve_all rs (serve r.call r.faults r.id r.now s)

serve-IsConsistent :
    (c : Call) (faults : Faults) (id now : ℕ) (s : Accounts)
    → IsLegal c
    → IsConsistent s
    → IsConsistent (serve c faults id now s)
unfolding serve
serve-IsConsistent (debits costs p) faults id now s h v =
    debit-IsConsistent faults costs p id now s h v
serve-IsConsistent (credits p) faults id now s h v = credit-IsConsistent faults p id now s h v

-- From consistent tables, for costs that are int64 and not negative and credits that are int64:
-- after any sequence of debits and credits, with any statements failing in each, every balance is the
-- sum of its ledger rows and the snapshot of the newest one, is not negative and fits an int64.
pub serve_all-IsConsistent :
    (rs : List Request) (s : Accounts)
    → All (λ r. IsLegal r.call) rs
    → IsConsistent s
    → IsConsistent (serve_all rs s)
unfolding serve_all
serve_all-IsConsistent [] s h v = v
serve_all-IsConsistent (r ∷ rs) s (h, hs) v =
    serve_all-IsConsistent rs _ hs (serve-IsConsistent r.call r.faults r.id r.now s h v)
