-- ===== src/Credits/SessionTests.antt =====
-- Two debits of one organization whose transactions overlap.
use vaultkey.Prelude.{ℕ, ◌≡◌, refl, none, List, [], ◌∷◌}
use vaultkey.Prelude.Int.{pos, ◌-ℤ◌, wrap64}
use vaultkey.Credits.Tables.{Accounts, finish}
use vaultkey.Credits.Locking.{balance}
use vaultkey.Credits.Progress.{no_faults}
use vaultkey.Credits.Serial.{run-charge_all}
use vaultkey.Credits.Sessions.{Session, Event, locks, writes, run, served, charge_all, start}
use vaultkey.Credits.{is_zero, balance_or_zero, lock_or_create, debit_locked}

abbrev fifty : Accounts
fifty = record { balances = (7, pos 50) ∷ []; ledger = [] }

abbrev signs : ℕ → Session
signs i = record {
  params = record { org = 7; operation = "sign_tx_evm"; ref_id = ""; tag = none };
  cost = pos 30;
  faults = no_faults;
  id = i;
  now = 4;
}

-- The second debit asks while the first holds the row, waits, and then finds 20.
abbrev race : List Event
race = locks 0 ∷ locks 1 ∷ writes 1 ∷ writes 0 ∷ locks 1 ∷ writes 1 ∷ []

one_is_paid : balance 7 (run signs race (start fifty)).tables ≡ pos 20
unfolding run start balance_or_zero lock_or_create finish debit_locked wrap64 ◌-ℤ◌
one_is_paid = refl

run-charge_all_example :
    (run signs race (start fifty)).tables ≡ charge_all signs (served signs race (start fifty)) fifty
unfolding is_zero
run-charge_all_example = run-charge_all signs race fifty (λ i. refl)
