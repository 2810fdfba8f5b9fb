-- ===== src/Cron.antt =====
-- internal/cron/cron.go and the grant queries of internal/credits/credits.go: the monthly free credits.
pub mod Grants
pub mod Runs
mod Tests
use vaultkey.Prelude.{
  ℕ, String, suc, ◌+◌, Bool, true, false, ◌&&◌, ◌||◌, Option, none, some, List, [], ◌∷◌, ◌==◌,
  if◌then◌else◌,
}
use vaultkey.Prelude.Int.{ℤ}
use text.Mathlib.Text.{◌==◌ as str_eq}
use vaultkey.Credits.Tables.{
  Accounts, Stmt, select_grant, insert_grant, list_orgs, Faults, Error, Result, ok, err, internal,
}
use vaultkey.Credits.{CreditParams, credit}

-- A row of organizations, as far as the grants read it.
pub record Org : Type 0 where
  pub id : ℕ
  pub deleted : Bool

pub record Cloud : Type 0 where
  pub accounts : Accounts
  -- free_tier_grants
  pub grants : List (ℕ × String)
  -- oldest first
  pub orgs : List Org

pub marked : ℕ → String → List (ℕ × String) → Bool
marked org period [] = false
marked org period ((o, p) ∷ gs) = o == org && str_eq p period || marked org period gs

pub has_received : Faults → ℕ → String → Cloud → Result Bool
unfolding marked
has_received faults org period s =
    if faults select_grant then err (internal select_grant) else ok (marked org period s.grants)

-- INSERT … ON CONFLICT (org_id, period) DO NOTHING
pub mark_given : Faults → ℕ → String → Cloud → Result (Unit {0}) × Cloud
unfolding marked
mark_given faults org period s =
    if faults insert_grant
    then (err (internal insert_grant), s)
    else if marked org period s.grants
    then (ok tt, s)
    else (ok tt, record s { grants = (org, period) ∷ s.grants })

unfoldable pub grant_params : ℤ → ℕ → String → CreditParams
grant_params amount org period = record {
  org = org;
  amount = amount;
  reason = "free_grant";
  ref_id = period;
  tag = none;
  expires_at = none;
}

-- `Credit`, in the database that holds the grants too.
credit_in : Faults → CreditParams → ℕ → ℕ → Cloud → Result (Unit {0}) × Cloud
credit_in faults p id now s =
    let (r, a) = credit faults p id now s.accounts in (r, record s { accounts = a })

after_mark : Faults → ℤ → ℕ → String → ℕ → ℕ → Result (Unit {0}) × Cloud → Result (Unit {0}) × Cloud
unfolding credit_in grant_params
after_mark faults amount org period id now (err e, s) = (err e, s)
after_mark faults amount org period id now (ok _, s) =
    credit_in faults (grant_params amount org period) id now s

after_check : Faults → ℤ → ℕ → String → ℕ → ℕ → Result Bool → Cloud → Result (Unit {0}) × Cloud
unfolding after_mark mark_given
after_check faults amount org period id now (err e) s = (err e, s)
after_check faults amount org period id now (ok true) s = (ok tt, s)
after_check faults amount org period id now (ok false) s =
    after_mark faults amount org period id now (mark_given faults org period s)

-- `Runner.grantToOrg`
pub grant_to_org : Faults → ℤ → ℕ → String → ℕ → ℕ → Cloud → Result (Unit {0}) × Cloud
unfolding has_received after_check
grant_to_org faults amount org period id now s =
    after_check faults amount org period id now (has_received faults org period s) s

-- `ListOrgsForFreeGrant`
wanting : String → List (ℕ × String) → List Org → List ℕ
wanting period grants [] = []
wanting period grants (o ∷ os) =
    let rest = wanting period grants os in
    if o.deleted || marked o.id period grants then rest else o.id ∷ rest

-- What the surroundings decide for the n-th organization of a run: whether the context is cancelled
-- before it, which statements fail, and the ledger row's id and time.
pub record Round : Type 0 where
  pub cancelled : Bool
  pub faults : Faults
  pub id : ℕ
  pub now : ℕ

pub record Tally : Type 0 where
  pub succeeded : ℕ
  pub failed : ℕ

count_result : Result (Unit {0}) → Tally → Tally
count_result (ok _) t = record t { succeeded = t.succeeded + 1 }
count_result (err _) t = record t { failed = t.failed + 1 }

-- The loop of `runFreeTierGrantNow`.
grant_all : (ℕ → Round) → ℤ → String → ℕ → List ℕ → Tally → Cloud → Tally × Cloud
unfolding count_result
grant_all env amount period n [] t s = (t, s)
grant_all env amount period n (org ∷ orgs) t s =
    let (r, s') = grant_to_org (env n).faults amount org period (env n).id (env n).now s in
    let rest = grant_all env amount period (suc n) orgs (count_result r t) s' in
    if (env n).cancelled then (t, s) else rest

pub run_free_tier_grant : Faults → (ℕ → Round) → ℤ → String → Cloud → Tally × Cloud
unfolding wanting grant_all
run_free_tier_grant faults env amount period s =
    let none_yet : Tally = record { succeeded = 0; failed = 0 } in
    if faults list_orgs
    then (none_yet, s)
    else grant_all env amount period 0 (wanting period s.grants s.orgs) none_yet s
