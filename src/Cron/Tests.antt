-- ===== src/Cron/Tests.antt =====
-- One organization, the grant of one month, and a credit that overflows the balance column.
use vaultkey.Prelude.{◌≤◌, ◌≡◌, refl, true, false, [], ◌∷◌, arith, if◌then◌else◌}
use vaultkey.Prelude.Int.{pos, ◌+ℤ◌, wrap64}
use vaultkey.Credits.Tables.{Faults, err, begin_stmt, internal}
use vaultkey.Credits.Progress.{no_faults}
use vaultkey.Credits.{balance_or_zero, credit, nullable}
use vaultkey.Cron.Grants.{IsOnce, granted_rows}
use vaultkey.Cron.Runs.{Run, run_all, granted_rows-run_all, grant_to_org_lost}
use vaultkey.Cron.{Cloud, grant_to_org, grant_params, marked}

abbrev fresh : Cloud
fresh = record {
  accounts = record { balances = []; ledger = [] };
  grants = [];
  orgs = record { id = 7; deleted = false } ∷ record { id = 8; deleted = true } ∷ [];
}

fresh-IsOnce : IsOnce fresh
unfolding balance_or_zero granted_rows
fresh-IsOnce = record {
  consistent = record {
    settled = λ o. refl;
    snapshot = λ o. refl;
    nonneg = λ o. omega arith;
    fits = λ o. omega arith;
  };
  once = λ o p. ground arith;
}

abbrev march : Run
march = record {
  listing = no_faults;
  env = λ n. record { cancelled = false; faults = no_faults; id = n; now = 1 };
  period = "2026-03";
}

granted_rows-run_all_example :
    granted_rows 7 "2026-03" (run_all (pos 1000) (march ∷ march ∷ []) fresh).accounts.ledger
    ≤ (if marked 7 "2026-03" (run_all (pos 1000) (march ∷ march ∷ []) fresh).grants then 1 else 0)
granted_rows-run_all_example =
    granted_rows-run_all (pos 1000) (march ∷ march ∷ []) fresh 7 "2026-03" (omega arith)
      fresh-IsOnce

-- Two runs in one month credit the organization once.
granted_once :
    granted_rows 7 "2026-03" (run_all (pos 1000) (march ∷ march ∷ []) fresh).accounts.ledger ≡ 1
unfolding granted_rows run_all marked grant_to_org credit nullable ◌+ℤ◌ wrap64 balance_or_zero
granted_once = refl

abbrev no_begin : Faults
no_begin q = elim q [ begin_stmt ↦ true | _ ↦ false ]

grant_to_org_lost_example :
    let (r, s) = grant_to_org no_begin (pos 1000) 7 "2026-03" 1 1 fresh in
    (r ≡ err (internal begin_stmt)) × ((grant_to_org no_faults (pos 1000) 7 "2026-03" 2 2 s).1 ≡ s)
unfolding marked credit grant_params
grant_to_org_lost_example =
    grant_to_org_lost no_begin no_faults (pos 1000) 7 "2026-03" 1 1 2 2 fresh (internal begin_stmt)
      refl refl refl refl
