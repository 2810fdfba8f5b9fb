-- ===== src/Credits/Tests.antt =====
-- An account with one purchase, and the theorems at it.
use vaultkey.Prelude.{
  ◌≡◌, refl, true, false, some, none, [], ◌∷◌, List, ◌+◌, ◌&&◌, if◌then◌else◌, leb, ◌==◌, arith,
}
use vaultkey.Prelude.Int.{pos, ◌-ℤ◌, ◌+ℤ◌, wrap64}
use vaultkey.Credits.Tables.{Accounts, LedgerRow, err, commit_stmt, insufficient_credits}
use vaultkey.Credits.Posting.{Debited, Credited, charge-Debited, credit-Credited}
use vaultkey.Credits.Progress.{no_faults, charge_decides}
use vaultkey.Credits.Invariant.{
  IsConsistent, Request, debits, credits, serve_all, serve_all-IsConsistent,
}
use vaultkey.Credits.Limits.{count_recent, is_creation_tag, is_ok, count_recent-charge}
use vaultkey.Credits.{
  OperationCost, DebitParams, CreditParams, debit, charge, credit, balance_or_zero, is_zero,
}

abbrev purchase_row : LedgerRow
purchase_row = record {
  id = 1;
  org = 7;
  amount = pos 50;
  balance_after = pos 50;
  reason = "purchase";
  ref_id = some "pi_1";
  tag = none;
  created_at = 3;
  expires_at = none;
}

abbrev funded : Accounts
funded = record { balances = (7, pos 50) ∷ []; ledger = purchase_row ∷ [] }

abbrev sign_cost : OperationCost
sign_cost = record { operation = "sign_tx_evm"; cost = pos 10; active = true }

abbrev sign_params : DebitParams
sign_params = record { org = 7; operation = "sign_tx_evm"; ref_id = ""; tag = none }

abbrev refund_params : CreditParams
refund_params = record {
  org = 9;
  amount = pos 5;
  reason = "refund";
  ref_id = "job_1";
  tag = none;
  expires_at = none;
}

funded-IsConsistent : IsConsistent funded
unfolding balance_or_zero ◌+ℤ◌
funded-IsConsistent = record {
  settled = λ o. ground arith;
  snapshot = λ o. ground arith;
  nonneg = λ o. ground arith;
  fits = λ o. ground arith;
}

-- The commit fails, so the debit does not happen.
debit-rollback :
    (debit
      (λ q. elim q [ commit_stmt ↦ true | _ ↦ false ])
      (sign_cost ∷ [])
      sign_params
      2
      4
      funded).1
    ≡ funded
unfolding debit ◌-ℤ◌ wrap64
debit-rollback = refl

charge-Debited_example :
    Debited sign_params (pos 10) 2 4 funded (charge no_faults sign_params (pos 10) 2 4 funded)
unfolding balance_or_zero is_zero
charge-Debited_example =
    charge-Debited no_faults sign_params (pos 10) 2 4 funded (omega arith) refl (omega arith)

charge_decides_example :
    (charge no_faults sign_params (pos 60) 2 4 funded).0 ≡ err insufficient_credits
unfolding balance_or_zero is_zero
charge_decides_example =
    charge_decides sign_params (pos 60) 2 4 funded (omega arith) refl (omega arith) (omega arith)

credit-Credited_example :
    Credited refund_params 2 4 funded (credit no_faults refund_params 2 4 funded)
unfolding balance_or_zero
credit-Credited_example =
    credit-Credited no_faults refund_params 2 4 funded (omega arith) (omega arith) (omega arith)

abbrev day : List Request
day =
    record { call = debits (sign_cost ∷ []) sign_params; faults = no_faults; id = 2; now = 4 }
    ∷ record { call = credits refund_params; faults = no_faults; id = 3; now = 5 }
    ∷ []

serve_all-IsConsistent_example : IsConsistent (serve_all day funded)
serve_all-IsConsistent_example = serve_all-IsConsistent day funded (omega arith) funded-IsConsistent

-- A wallet creation whose metadata does not name the operation.
abbrev untagged_params : DebitParams
untagged_params = record { org = 7; operation = "create_wallet"; ref_id = ""; tag = none }

count_recent-charge_example :
    let (r, s') = charge no_faults untagged_params (pos 10) 2 4 funded in
    count_recent 7 5 s'.ledger
    ≡ count_recent 7 5 funded.ledger
      + (if is_ok r && is_creation_tag none && 7 == 7 && leb 5 3604 then 1 else 0)
unfolding is_zero balance_or_zero
count_recent-charge_example =
    count_recent-charge no_faults untagged_params (pos 10) 2 4 5 7 funded (omega arith) refl
      (omega arith)
