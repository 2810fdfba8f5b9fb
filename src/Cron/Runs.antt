-- ===== src/Cron/Runs.antt =====
-- Whole runs of the monthly grant, one after another.
use vaultkey.Prelude.{
  ℕ, String, suc, ◌≡◌, refl, true, false, List, [], ◌∷◌, inl, inr, Bool-cases, if◌then◌else◌, ◌≤◌,
  arith,
}
use vaultkey.Prelude.Int.{ℤ, IsInt64}
use text.Mathlib.TextEquality.{eq_iff}
use vaultkey.Credits.Tables.{Faults, Error, err, select_grant, insert_grant, list_orgs}
use vaultkey.Credits.{credit}
use vaultkey.Cron.Grants.{IsOnce, granted_rows, grant_to_org-IsOnce}
use vaultkey.Cron.{
  Cloud, Round, Tally, marked, grant_params, grant_to_org, grant_all, count_result,
  run_free_tier_grant,
}

grant_all-IsOnce :
    (env : ℕ → Round) (amount : ℤ) (period : String) (n : ℕ) (orgs : List ℕ) (t : Tally) (s : Cloud)
    → IsInt64 amount
    → IsOnce s
    → IsOnce (grant_all env amount period n orgs t s).1
unfolding grant_all
grant_all-IsOnce env amount period n [] t s fits v = v
grant_all-IsOnce env amount period n (org ∷ orgs) t s fits v = elim (Bool-cases (env n).cancelled) [
  | inl stop ↦ rw stop v
  | inr go ↦
      let x = grant_to_org (env n).faults amount org period (env n).id (env n).now s in
      rw go (
        grant_all-IsOnce env amount period (suc n) orgs (count_result x.0 t) x.1 fits
          (grant_to_org-IsOnce (env n).faults amount org period (env n).id (env n).now s fits v))
]

-- A run of the cron job, with the month that it falls in.
pub record Run : Type 0 where
  pub listing : Faults
  pub env : ℕ → Round
  pub period : String

unfoldable pub run_all : ℤ → List Run → Cloud → Cloud
unfolding run_free_tier_grant
run_all amount [] s = s
run_all amount (r ∷ rs) s =
    run_all amount rs (run_free_tier_grant r.listing r.env amount r.period s).1

run_free_tier_grant-IsOnce :
    (faults : Faults) (env : ℕ → Round) (amount : ℤ) (period : String) (s : Cloud)
    → IsInt64 amount
    → IsOnce s
    → IsOnce (run_free_tier_grant faults env amount period s).1
unfolding run_free_tier_grant
run_free_tier_grant-IsOnce faults env amount period s fits v =
    elim (Bool-cases (faults list_orgs)) [
      | inl e ↦ rw e v
      | inr e ↦ rw e (grant_all-IsOnce env amount period 0 _ _ s fits v)
    ]

run_all-IsOnce :
    (amount : ℤ) (rs : List Run) (s : Cloud)
    → IsInt64 amount
    → IsOnce s
    → IsOnce (run_all amount rs s)
unfolding run_all
run_all-IsOnce amount [] s fits v = v
run_all-IsOnce amount (r ∷ rs) s fits v =
    run_all-IsOnce amount rs _ fits
      (run_free_tier_grant-IsOnce r.listing r.env amount r.period s fits v)

-- From tables where that holds already, for an int64 amount: however often the job runs, wherever it
-- is cancelled and whatever statements fail, no organization has more than one ledger row for the
-- grant of a period, and none without its mark.
pub granted_rows-run_all :
    (amount : ℤ) (rs : List Run) (s : Cloud) (org : ℕ) (period : String)
    → IsInt64 amount
    → IsOnce s
    → granted_rows org period (run_all amount rs s).accounts.ledger
      ≤ (if marked org period (run_all amount rs s).grants then 1 else 0)
granted_rows-run_all amount rs s org period fits v =
    (run_all-IsOnce amount rs s fits v).once org period

grant_to_org-marked :
    (faults : Faults) (amount : ℤ) (org : ℕ) (period : String) (id now : ℕ) (s : Cloud)
    → marked org period s.grants ≡ true
    → (grant_to_org faults amount org period id now s).1 ≡ s
unfolding grant_to_org
grant_to_org-marked faults amount org period id now s old =
    elim (Bool-cases (faults select_grant)) [ inl e ↦ rw e refl | inr e ↦ rw (e, old) refl ]

marked_self :
    (org : ℕ) (period : String) (gs : List (ℕ × String))
    → marked org period ((org, period) ∷ gs) ≡ true
unfolding marked
marked_self org period gs = ground (arith, (eq_iff period period).1 refl)

-- When the mark is written and the credit then fails, the call returns the credit's error, and
-- calling again for that month changes nothing, whatever fails or succeeds in it: the grant is lost.
pub grant_to_org_lost :
    (faults later : Faults) (amount : ℤ) (org : ℕ) (period : String) (id now id' now' : ℕ)
    (s : Cloud) (e : Error)
    → marked org period s.grants ≡ false
    → faults select_grant ≡ false
    → faults insert_grant ≡ false
    → credit faults (grant_params amount org period) id now s.accounts ≡ (err e, s.accounts)
    → let (r, s') = grant_to_org faults amount org period id now s in
      (r ≡ err e) × ((grant_to_org later amount org period id' now' s').1 ≡ s')
unfolding grant_to_org marked
grant_to_org_lost faults later amount org period id now id' now' s e new fs fi failed =
    let first : grant_to_org faults amount org period id now s
        ≡ (err e, record s { grants = (org, period) ∷ s.grants }) =
      rw (fs, new) (rw (fi, new) (rw failed)) in
    rw first (
      refl,
      grant_to_org-marked later amount org period id' now' _ (marked_self org period s.grants),
    )
