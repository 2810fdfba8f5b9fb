-- ===== src/Payments.antt =====
-- internal/api/handlers/payment_handler.go: `StripeWebhook` on a verified event, with the payment
-- table of internal/storage/payments.go and `MarkOrgPurchased` of internal/credits/credits.go.
-- Stripe's client and the calendar are parameters.
pub mod Table
pub mod Idempotence
mod Tests
use vaultkey.Prelude.{
  ℕ, String, ◌*◌, ◌/◌, ◌+◌, Bool, true, false, Option, none, some, List, [], ◌∷◌, ◌==◌,
  if◌then◌else◌,
}
use vaultkey.Prelude.Int.{ℤ, pos, negsuc, ◌+ℤ◌, ◌-ℤ◌, leb_ℤ, wrap64}
use vaultkey.Credits.Tables.{Accounts, Faults, Result, ok, err}
use vaultkey.Credits.{CreditParams, credit}
use Table.{
  Payment, PaymentStatus, payment_failed, payment_canceled, find_payment, is_credited,
  mark_credited, update_status,
}

pub record Organization : Type 0 where
  pub id : ℕ
  pub credits_expire_months : ℤ
  pub has_ever_purchased : Bool
  pub deleted : Bool

pub record ProjectRow : Type 0 where
  pub org : Option ℕ
  pub deleted : Bool
  pub rate_limit_rps : ℕ

pub record Shop : Type 0 where
  pub payments : List Payment
  pub accounts : Accounts
  pub orgs : List Organization
  pub projects : List ProjectRow

pub record PaymentIntent : Type 0 where
  pub id : String
  -- from the metadata: none where `org_id` is missing, 0 where a number is
  pub org : Option ℕ
  pub base_credits : ℤ
  pub bonus_credits : ℤ

pub data Event : Type 0 where
  succeeded failed canceled : PaymentIntent → Event
  -- the event's object is no payment intent
  unreadable_success unreadable_other : Event
  unknown : Event

pub data Response : Type 0 where
  no_content bad_request internal_error : Response

pub data Query : Type 0 where
  check_credited fetch_org set_credited set_status begin_purchase set_purchased set_limits
        commit_purchase :
      Query

-- What one request meets: refused statements, the row id and time of the database, the clock in
-- seconds, and `time.AddDate(years, 0, 0)`.
pub record Visit : Type 0 where
  pub rejects : Query → Bool
  pub faults : Faults
  pub id : ℕ
  pub stamp : ℕ
  pub now : ℕ
  pub add_years : ℤ → ℕ → ℕ

half : ℤ → ℤ
half (pos n) = pos (n / 2)
half (negsuc n) = pos 0 -ℤ pos ((n + 1) / 2)

-- `creditPackages`
unfoldable pub credit_package : ℕ → Option (ℤ × ℤ)
credit_package cents =
    if cents == 1000
    then some (pos 10000, pos 5000)
    else if cents == 5000
    then some (pos 50000, pos 25000)
    else if cents == 10000
    then some (pos 100000, pos 50000)
    else if cents == 50000
    then some (pos 500000, pos 250000)
    else none

unfoldable pub by_formula : ℕ → ℤ × ℤ
unfolding half
by_formula cents = let base = wrap64 (pos (cents / 100 * 1000)) in (base, half base)

unfoldable pub package_or : Option (ℤ × ℤ) → ℤ × ℤ → ℤ × ℤ
package_or none other = other
package_or (some p) other = p

-- `creditsForAmount`, on the amounts that its caller lets through
unfoldable pub credits_for_amount : ℕ → ℤ × ℤ
unfolding credit_package by_formula package_or
credits_for_amount cents = package_or (credit_package cents) (by_formula cents)

-- `GetOrganizationByID`: WHERE id = $1 AND deleted_at IS NULL
find_org : ℕ → List Organization → Option Organization
find_org i [] = none
find_org i (o ∷ os) =
    let rest = find_org i os in if (if o.deleted then false else o.id == i) then some o else rest

fetched : Bool → Option Organization → Option Organization
fetched true o = none
fetched false o = o

-- 24 · 30 days, or the organization's own number; AddDate's first argument counts years.
expiry : Visit → Option Organization → ℕ
expiry v none = v.now + 24 * 30 * 24 * 3600
expiry v (some o) = v.add_years o.credits_expire_months v.now

purchase_params : PaymentIntent → ℕ → ℤ → ℕ → CreditParams
purchase_params pi org total expires = record {
  org = org;
  amount = total;
  reason = "purchase";
  ref_id = pi.id;
  tag = none;
  expires_at = some expires;
}

purchased : ℕ → List Organization → List Organization
purchased i [] = []
purchased i (o ∷ os) =
    let rest = purchased i os in
    if o.id == i then record o { has_ever_purchased = true } ∷ rest else o ∷ rest

is_org : ℕ → Option ℕ → Bool
is_org i none = false
is_org i (some j) = j == i

raised : ℕ → List ProjectRow → List ProjectRow
unfolding is_org
raised i [] = []
raised i (p ∷ ps) =
    let rest = raised i ps in
    if (if is_org i p.org then (if p.deleted then false else true) else false)
    then record p { rate_limit_rps = 1000 } ∷ rest
    else p ∷ rest

-- `MarkOrgPurchased`: both updates or none.
pub mark_org_purchased : (Query → Bool) → ℕ → Shop → Shop
unfolding purchased raised
mark_org_purchased rejects org s =
    if rejects begin_purchase
    then s
    else if rejects set_purchased
    then s
    else if rejects set_limits
    then s
    else if rejects commit_purchase
    then s
    else record s { orgs = purchased org s.orgs; projects = raised org s.projects }

-- After `Credit`: an error asks Stripe to try again; a failed mark is only logged.
after_credit : Visit → PaymentIntent → ℕ → Result (Unit {0}) → Shop → Response × Shop
unfolding mark_org_purchased
after_credit v pi org (err e) s = (internal_error, s)
after_credit v pi org (ok u) s =
    let s1 = record s { payments = mark_credited (v.rejects set_credited) pi.id s.payments } in
    (no_content, mark_org_purchased v.rejects org s1)

give : Visit → PaymentIntent → ℕ → Shop → Response × Shop
unfolding fetched find_org expiry purchase_params after_credit
give v pi org s =
    let total = wrap64 (pi.base_credits +ℤ pi.bonus_credits) in
    let expires = expiry v (fetched (v.rejects fetch_org) (find_org org s.orgs)) in
    let (r, accounts) =
      credit v.faults (purchase_params pi org total expires) v.id v.stamp s.accounts in
    if leb_ℤ total (pos 0)
    then (no_content, s)
    else after_credit v pi org r (record s { accounts = accounts })

handle_for : Visit → PaymentIntent → Option ℕ → Shop → Response × Shop
handle_for v pi none s = (no_content, s)
handle_for v pi (some org) s =
    let (answer, s') = give v pi org s in
    if v.rejects check_credited
    then (internal_error, s)
    else if is_credited pi.id s.payments
    then (no_content, s)
    else (answer, s')

-- `handlePaymentSucceeded`
pub handle_succeeded : Visit → PaymentIntent → Shop → Response × Shop
unfolding handle_for
handle_succeeded v pi s = handle_for v pi pi.org s

-- `handlePaymentFailed`, `handlePaymentCanceled`
pub handle_status : Visit → PaymentStatus → PaymentIntent → Shop → Response × Shop
handle_status v status pi s = (
  no_content,
  record s { payments = update_status (v.rejects set_status) pi.id status s.payments },
)

-- `StripeWebhook`
pub stripe_webhook : Visit → Event → Shop → Response × Shop
stripe_webhook v (succeeded pi) s = handle_succeeded v pi s
stripe_webhook v (failed pi) s = handle_status v payment_failed pi s
stripe_webhook v (canceled pi) s = handle_status v payment_canceled pi s
stripe_webhook v unreadable_success s = (bad_request, s)
stripe_webhook v unreadable_other s = (no_content, s)
stripe_webhook v unknown s = (no_content, s)
