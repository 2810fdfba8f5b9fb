-- ===== src/Payments/Tests.antt =====
-- Stripe events on a shop whose one payment has been credited.
use vaultkey.Prelude.{◌≡◌, refl, true, false, some, none, List, [], ◌∷◌, arith}
use vaultkey.Prelude.Int.{pos, ◌+ℤ◌}
use vaultkey.Credits.Tables.{Accounts}
use vaultkey.Credits.{balance_or_zero}
use vaultkey.Credits.Progress.{no_faults}
use vaultkey.Credits.Invariant.{IsConsistent}
use vaultkey.Payments.Table.{payment_succeeded, is_credited, find_payment}
use vaultkey.Payments.{
  Shop, Event, succeeded, failed, PaymentIntent, Visit, credits_for_amount, by_formula,
}
use vaultkey.Payments.Idempotence.{
  IsMarkedIn, purchase_rows, deliver_all, deliver_all-IsMarked, credits_for_amount-by_formula,
}

abbrev bought : Accounts
bought = record {
  balances = (7, pos 15000) ∷ [];
  ledger =
      record {
        id = 1;
        org = 7;
        amount = pos 15000;
        balance_after = pos 15000;
        reason = "purchase";
        ref_id = some "pi_1";
        tag = none;
        created_at = 3;
        expires_at = some 9;
      }
      ∷ [];
}

abbrev paid_shop : Shop
paid_shop = record {
  payments = record { intent = "pi_1"; status = payment_succeeded; credited = true } ∷ [];
  accounts = bought;
  orgs = [];
  projects = [];
}

abbrev intent_1 : PaymentIntent
intent_1 = record { id = "pi_1"; org = some 7; base_credits = pos 10000; bonus_credits = pos 5000 }

abbrev intent_2 : PaymentIntent
intent_2 = record { id = "pi_2"; org = some 7; base_credits = pos 10000; bonus_credits = pos 5000 }

abbrev on_time : Visit
on_time = record {
  rejects = λ q. false;
  faults = no_faults;
  id = 2;
  stamp = 4;
  now = 4;
  add_years = λ y t. t;
}

abbrev redelivered : List (Visit × Event)
redelivered =
    (on_time, succeeded intent_1) ∷ (on_time, succeeded intent_2) ∷ (on_time, failed intent_1) ∷ []

bought-IsConsistent : IsConsistent bought
unfolding balance_or_zero ◌+ℤ◌
bought-IsConsistent = record {
  settled = λ o. ground arith;
  snapshot = λ o. ground arith;
  nonneg = λ o. ground arith;
  fits = λ o. ground arith;
}

deliver_all-IsMarked_example : IsMarkedIn "pi_1" 1 (deliver_all redelivered paid_shop)
unfolding is_credited purchase_rows find_payment
deliver_all-IsMarked_example =
    deliver_all-IsMarked "pi_1" 1 redelivered paid_shop
      (record { consistent = bought-IsConsistent; marked = refl; rows = refl })

credits_for_amount-by_formula_example : credits_for_amount 5000 ≡ by_formula 5000
credits_for_amount-by_formula_example = credits_for_amount-by_formula 5000
