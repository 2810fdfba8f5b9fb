-- ===== src/Payments/Table.antt =====
-- The stripe_payments table of internal/storage/payments.go.
use vaultkey.Prelude.{String, Bool, true, false, Option, none, some, List, [], ◌∷◌, if◌then◌else◌}
use text.Mathlib.Text.{◌==◌ as str_eq}

pub data PaymentStatus : Type 0 where
  payment_pending payment_succeeded payment_failed payment_canceled payment_refunded : PaymentStatus

pub record Payment : Type 0 where
  -- stripe_payment_intent_id
  pub intent : String
  pub status : PaymentStatus
  pub credited : Bool

-- stripe_payment_intent_id is UNIQUE.
unfoldable pub find_payment : String → List Payment → Option Payment
find_payment i [] = none
find_payment i (p ∷ ps) = let rest = find_payment i ps in if str_eq p.intent i then some p else rest

unfoldable pub credited_or_not : Option Payment → Bool
credited_or_not none = false
credited_or_not (some p) = p.credited

-- `IsPaymentCredited`
unfoldable pub is_credited : String → List Payment → Bool
unfolding credited_or_not
is_credited i ps = credited_or_not (find_payment i ps)

unfoldable pub set_credited_row : String → List Payment → List Payment
set_credited_row i [] = []
set_credited_row i (p ∷ ps) =
    let rest = set_credited_row i ps in
    if str_eq p.intent i
    then record p { credited = true; status = payment_succeeded } ∷ ps
    else p ∷ rest

-- `MarkPaymentCredited`. Without a row it inserts one with an empty org_id, which a UUID column
-- refuses: the table stays as it is.
unfoldable pub mark_credited : Bool → String → List Payment → List Payment
unfolding set_credited_row
mark_credited true i ps = ps
mark_credited false i ps = set_credited_row i ps

unfoldable pub set_status_row : String → PaymentStatus → List Payment → List Payment
set_status_row i status [] = []
set_status_row i status (p ∷ ps) =
    let rest = set_status_row i status ps in
    if str_eq p.intent i
    then (if p.credited then p else record p { status = status }) ∷ ps
    else p ∷ rest

-- `UpdateStripePaymentStatus`
unfoldable pub update_status : Bool → String → PaymentStatus → List Payment → List Payment
unfolding set_status_row
update_status true i status ps = ps
update_status false i status ps = set_status_row i status ps
