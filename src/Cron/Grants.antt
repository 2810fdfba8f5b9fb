-- ===== src/Cron/Grants.antt =====
-- internal/cron/cron.go: what one grant does to an organization, with any failures.
use vaultkey.Prelude.{
  ℕ, String, suc, ◌+◌, ◌≤◌, ◌≡◌, refl, sym, ◌⊎◌, Bool, true, false, ◌&&◌, ◌||◌, none, some, List,
  [], ◌∷◌, inl, inr, Bool-cases, subst, ◌==◌, if◌then◌else◌, arith,
}
use vaultkey.Prelude.Int.{ℤ, IsInt64}
use text.Mathlib.Text.{◌==◌ as str_eq}
use text.Mathlib.TextEquality.{eq_iff}
use vaultkey.Credits.Tables.{LedgerRow, Faults, Result, ok, err, select_grant, insert_grant}
use vaultkey.Credits.Posting.{Credited, credit-Credited}
use vaultkey.Credits.Invariant.{IsConsistent, Credited-IsConsistent}
use vaultkey.Credits.{credit_row, nullable}
use vaultkey.Cron.{Cloud, marked, grant_params, grant_to_org}

-- The ledger rows of the grant of a period.
is_grant : ℕ → String → LedgerRow → Bool
is_grant o period r =
    r.org == o
    && str_eq r.reason "free_grant"
    && elim r.ref_id [ none ↦ false | some ref ↦ str_eq ref period ]

unfoldable pub granted_rows : ℕ → String → List LedgerRow → ℕ
unfolding is_grant
granted_rows o period [] = 0
granted_rows o period (r ∷ rs) =
    let rest = granted_rows o period rs in if is_grant o period r then suc rest else rest

pub record IsOnce (s : Cloud) : Type 0 where
  pub consistent : IsConsistent s.accounts
  pub once :
      (o : ℕ) (period : String)
      → granted_rows o period s.accounts.ledger ≤ (if marked o period s.grants then 1 else 0)

-- What one call did: nothing, or it marked the organization first and then tried the credit.
abbrev pub Granted : ℤ → ℕ → String → ℕ → ℕ → Cloud → Result (Unit {0}) × Cloud → Type 0
Granted amount org period id now s (r, s') =
    (s' ≡ s)
    ⊎ (marked org period s.grants ≡ false)
      × (s'.grants ≡ (org, period) ∷ s.grants)
      × Credited (grant_params amount org period) id now s.accounts (r, s'.accounts)

pub grant_to_org-Granted :
    (faults : Faults) (amount : ℤ) (org : ℕ) (period : String) (id now : ℕ) (s : Cloud)
    → IsInt64 amount
    → IsConsistent s.accounts
    → Granted amount org period id now s (grant_to_org faults amount org period id now s)
unfolding grant_to_org
grant_to_org-Granted faults amount org period id now s fits v =
    elim (Bool-cases (faults select_grant)) [
      | inl e ↦ rw e (inl refl)
      | inr e ↦ rw e (elim (Bool-cases (marked org period s.grants)) [
        | inl old ↦ rw old (inl refl)
        | inr new ↦ rw new (elim (Bool-cases (faults insert_grant)) [
          | inl f ↦ rw f (inl refl)
          | inr g ↦
              rw (g, new)
                (inr (
                  refl,
                  refl,
                  credit-Credited faults (grant_params amount org period) id now s.accounts fits
                      (v.nonneg org) (v.fits org),
                ))
        ])
      ])
    ]

granted_rows-cons :
    (o : ℕ) (period : String) (r : LedgerRow) (rs : List LedgerRow)
    → granted_rows o period (r ∷ rs) ≤ granted_rows o period rs + 1
unfolding granted_rows
granted_rows-cons o period r rs = ground arith

-- The row of a grant counts for its own organization and period only.
is_grant_others :
    (o org : ℕ) (p period : String) (amount b : ℤ) (id now : ℕ)
    → is_grant o p (credit_row (grant_params amount org period) b id now) ≡ true
    → (o ≡ org) × (p ≡ period)
unfolding is_grant credit_row grant_params nullable
is_grant_others o org p period amount b id now e = ground (arith, eq_iff period p)

marked-cons :
    (o org : ℕ) (p period : String) (gs : List (ℕ × String))
    → marked o p ((org, period) ∷ gs) ≡ (org == o && str_eq period p || marked o p gs)
unfolding marked
marked-cons o org p period gs = refl

-- One more mark and, for that mark only, one more row.
once_step :
    (o org : ℕ) (p period : String) (r : LedgerRow) (rs : List LedgerRow) (gs : List (ℕ × String))
    → marked org period gs ≡ false
    → (is_grant o p r ≡ true → (o ≡ org) × (p ≡ period))
    → granted_rows o p rs ≤ (if marked o p gs then 1 else 0)
    → granted_rows o p (r ∷ rs) ≤ (if marked o p ((org, period) ∷ gs) then 1 else 0)
unfolding granted_rows marked
once_step o org p period r rs gs new only h = elim (Bool-cases (is_grant o p r)) [
  | inl e ↦
      let (eo, ep) = only e in
      let unmarked : marked o p gs ≡ false = rw (eo, ep) new in
      rw e (ground (arith, (eq_iff period p).1 (sym ep)))
  | inr e ↦ rw e (ground arith)
]

pub grant_to_org-IsOnce :
    (faults : Faults) (amount : ℤ) (org : ℕ) (period : String) (id now : ℕ) (s : Cloud)
    → IsInt64 amount
    → IsOnce s
    → IsOnce (grant_to_org faults amount org period id now s).1
grant_to_org-IsOnce faults amount org period id now s fits v =
    go (grant_to_org faults amount org period id now s)
      (grant_to_org-Granted faults amount org period id now s fits v.consistent)
  where
    go : (x : Result (Unit {0}) × Cloud) → Granted amount org period id now s x → IsOnce x.1
    go (r, s') (inl same) = subst IsOnce (sym same) v
    go (err e, s') (inr (new, gs, same)) = record {
      consistent =
          Credited-IsConsistent (grant_params amount org period) id now s.accounts
            (err e, s'.accounts) v.consistent same;
      once = λ o p. rw (gs, same) (unfold marked in ground (arith, v.once o p));
    }
    go (ok u, s') (inr (new, gs, (positive, in_range, posted))) = record {
      consistent =
          Credited-IsConsistent (grant_params amount org period) id now s.accounts
            (ok u, s'.accounts) v.consistent (positive, in_range, posted);
      once = λ o p.
          rw (gs, posted.ledger)
            (once_step o org p period _ s.accounts.ledger s.grants new
              (is_grant_others o org p period amount _ id now) (v.once o p));
    }
