-- ===== src/Payments/Idempotence.antt =====
-- internal/api/handlers/payment_handler.go: the mark of a credited payment, over repeated events.
use vaultkey.Prelude.{
  ℕ, suc, String, ◌≡◌, refl, sym, ap, ◌∙◌, Bool, true, false, none, some, Option, List, [], ◌∷◌,
  if◌then◌else◌, Bool-cases, inl, inr, subst, arith, ◌==◌,
}
use vaultkey.Prelude.Int.{ℤ, pos, leb_ℤ, ◌+ℤ◌, wrap64, wrap64-IsInt64}
use text.Mathlib.TextEquality.{eq_iff}
use vaultkey.Credits.{CreditParams, credit_row, nullable}
use vaultkey.Credits.Posting.{Credited, credit-Credited}
use vaultkey.Credits.Invariant.{IsConsistent, Credited-IsConsistent}
use text.Mathlib.Text.{◌==◌ as str_eq}
use vaultkey.Credits.Tables.{Accounts, LedgerRow, Result, ok, err}
use vaultkey.Payments.Table.{
  Payment, PaymentStatus, payment_failed, payment_canceled, find_payment, is_credited,
  credited_or_not, mark_credited, set_credited_row, update_status, set_status_row,
}
use vaultkey.Payments.{
  Shop, Event, succeeded, failed, canceled, unreadable_success, unreadable_other, unknown, Visit,
  PaymentIntent, handle_succeeded, handle_for, give, after_credit, mark_org_purchased,
  handle_status, stripe_webhook, credit_package, by_formula, package_or, half, credits_for_amount,
  set_credited, set_status, check_credited, fetch_org, purchase_params, expiry, fetched, find_org,
}

known_package : (cents n : ℕ) → (cents == n) ≡ true → by_formula n ≡ by_formula cents
known_package cents n h = let same : n ≡ cents = ground arith in ap by_formula same

-- The package table agrees with the formula for custom amounts, for every amount.
pub credits_for_amount-by_formula : (cents : ℕ) → credits_for_amount cents ≡ by_formula cents
unfolding credits_for_amount credit_package package_or by_formula half wrap64
credits_for_amount-by_formula cents = elim (Bool-cases (cents == 1000)) [
  | inl a ↦ rw a (known_package cents 1000 a)
  | inr a ↦ rw a (elim (Bool-cases (cents == 5000)) [
    | inl b ↦ rw b (known_package cents 5000 b)
    | inr b ↦ rw b (elim (Bool-cases (cents == 10000)) [
      | inl c ↦ rw c (known_package cents 10000 c)
      | inr c ↦ rw c (elim (Bool-cases (cents == 50000)) [
        | inl d ↦ rw d (known_package cents 50000 d)
        | inr d ↦ rw d refl
      ])
    ])
  ])
]

mark_credited-keeps :
    (b : Bool) (i j : String) (ps : List Payment)
    → is_credited i ps ≡ true
    → is_credited i (mark_credited b j ps) ≡ true
unfolding mark_credited is_credited find_payment credited_or_not set_credited_row
mark_credited-keeps true i j ps h = h
mark_credited-keeps false i j ps h = go ps h
  where
    go :
        (ps : List Payment) → is_credited i ps ≡ true → is_credited i (set_credited_row j ps) ≡ true
    go [] h = h
    go (p ∷ ps) h = ground (arith, go ps)

update_status-keeps :
    (b : Bool) (i j : String) (status : PaymentStatus) (ps : List Payment)
    → is_credited i ps ≡ true
    → is_credited i (update_status b j status ps) ≡ true
unfolding update_status is_credited find_payment credited_or_not set_status_row
update_status-keeps true i j status ps h = h
update_status-keeps false i j status ps h = go ps h
  where
    go :
        (ps : List Payment)
        → is_credited i ps ≡ true
        → is_credited i (set_status_row j status ps) ≡ true
    go [] h = h
    go (p ∷ ps) h = ground (arith, go ps)

ref_is : String → Option String → Bool
ref_is i none = false
ref_is i (some j) = str_eq j i

-- Whether a ledger row is the purchase credit for payment `i`.
is_purchase_of : String → LedgerRow → Bool
is_purchase_of i r = if str_eq r.reason "purchase" then ref_is i r.ref_id else false

unfoldable pub purchase_rows : String → List LedgerRow → ℕ
unfolding is_purchase_of ref_is
purchase_rows i [] = 0
purchase_rows i (r ∷ rs) =
    let rest = purchase_rows i rs in if is_purchase_of i r then suc rest else rest

-- Payment `i` is marked, it has `n` purchase rows, and the accounts are consistent.
pub record IsMarked (i : String) (n : ℕ) (ps : List Payment) (a : Accounts) : Type 0 where
  pub consistent : IsConsistent a
  pub marked : is_credited i ps ≡ true
  pub rows : purchase_rows i a.ledger ≡ n

abbrev pub IsMarkedIn : String → ℕ → Shop → Type 0
IsMarkedIn i n s = IsMarked i n s.payments s.accounts

other_ref : (i j : String) → str_eq j i ≡ false → ref_is i (nullable j) ≡ false
unfolding ref_is nullable
other_ref i j h = ground (arith, h)

other_row :
    (i : String) (p : CreditParams) (b : ℤ) (id now : ℕ) (rs : List LedgerRow)
    → str_eq p.ref_id i ≡ false
    → purchase_rows i (credit_row p b id now ∷ rs) ≡ purchase_rows i rs
unfolding purchase_rows is_purchase_of credit_row
other_row i p b id now rs h = rw (other_ref i p.ref_id h) (ground arith)

credit-IsMarked :
    (i : String) (n : ℕ) (p : CreditParams) (id now : ℕ) (ps : List Payment) (a : Accounts)
    (x : Result (Unit {0}) × Accounts)
    → IsMarked i n ps a
    → str_eq p.ref_id i ≡ false
    → Credited p id now a x
    → IsMarked i n ps x.1
credit-IsMarked i n p id now ps a (err e, t) m h same = subst (IsMarked i n ps) (sym same) m
credit-IsMarked i n p id now ps a (ok u, t) m h (positive, in_range, posted) = record {
  consistent = Credited-IsConsistent p id now a (ok u, t) m.consistent (positive, in_range, posted);
  marked = m.marked;
  rows = ap (purchase_rows i) posted.ledger ∙ other_row i p _ id now a.ledger h ∙ m.rows;
}

mark_org_purchased-IsMarked :
    (i : String) (n : ℕ) (v : Visit) (org : ℕ) (s : Shop)
    → IsMarkedIn i n s
    → IsMarkedIn i n (mark_org_purchased v.rejects org s)
unfolding mark_org_purchased
mark_org_purchased-IsMarked i n v org s m =
    let paid : (mark_org_purchased v.rejects org s).payments ≡ s.payments = ground arith in
    let same : (mark_org_purchased v.rejects org s).accounts ≡ s.accounts = ground arith in
    rw (paid, same) m

after_credit-IsMarked :
    (i : String) (n : ℕ) (v : Visit) (pi : PaymentIntent) (org : ℕ) (r : Result (Unit {0}))
    (s : Shop)
    → IsMarkedIn i n s
    → IsMarkedIn i n (after_credit v pi org r s).1
unfolding after_credit
after_credit-IsMarked i n v pi org (err e) s m = m
after_credit-IsMarked i n v pi org (ok u) s m = mark_org_purchased-IsMarked i n v org _ (record {
  consistent = m.consistent;
  marked = mark_credited-keeps (v.rejects set_credited) i pi.id s.payments m.marked;
  rows = m.rows;
})

give-IsMarked :
    (i : String) (n : ℕ) (v : Visit) (pi : PaymentIntent) (org : ℕ) (s : Shop)
    → IsMarkedIn i n s
    → str_eq pi.id i ≡ false
    → IsMarkedIn i n (give v pi org s).1
unfolding give purchase_params
give-IsMarked i n v pi org s m other =
    let total = wrap64 (pi.base_credits +ℤ pi.bonus_credits) in
    let p =
      purchase_params pi org total
        (expiry v (fetched (v.rejects fetch_org) (find_org org s.orgs))) in
    elim (Bool-cases (leb_ℤ total (pos 0))) [
      | inl h ↦ rw h m
      | inr h ↦ rw h (
          after_credit-IsMarked i n v pi org _ _ (
            credit-IsMarked i n p v.id v.stamp s.payments s.accounts _ m other (
              credit-Credited v.faults p v.id v.stamp s.accounts (wrap64-IsInt64 _)
                (m.consistent.nonneg org) (m.consistent.fits org))))
    ]

other_intent :
    (i j : String) (ps : List Payment)
    → is_credited i ps ≡ true
    → is_credited j ps ≡ false
    → str_eq j i ≡ false
other_intent i j ps h k = elim (Bool-cases (str_eq j i)) [
  | inl e ↦ ground (arith, (eq_iff j i).0 e, h, k)
  | inr e ↦ e
]

handle_for-IsMarked :
    (i : String) (n : ℕ) (v : Visit) (pi : PaymentIntent) (org : Option ℕ) (s : Shop)
    → IsMarkedIn i n s
    → IsMarkedIn i n (handle_for v pi org s).1
unfolding handle_for
handle_for-IsMarked i n v pi none s m = m
handle_for-IsMarked i n v pi (some org) s m = elim (Bool-cases (v.rejects check_credited)) [
  | inl h ↦ rw h m
  | inr h ↦ rw h (elim (Bool-cases (is_credited pi.id s.payments)) [
    | inl old ↦ rw old m
    | inr new ↦
        rw new (give-IsMarked i n v pi org s m (other_intent i pi.id s.payments m.marked new))
  ])
]

stripe_webhook-IsMarked :
    (i : String) (n : ℕ) (v : Visit) (e : Event) (s : Shop)
    → IsMarkedIn i n s
    → IsMarkedIn i n (stripe_webhook v e s).1
unfolding stripe_webhook handle_succeeded handle_status
stripe_webhook-IsMarked i n v (succeeded pi) s m = handle_for-IsMarked i n v pi pi.org s m
stripe_webhook-IsMarked i n v (failed pi) s m = record {
  consistent = m.consistent;
  rows = m.rows;
  marked = update_status-keeps (v.rejects set_status) i pi.id payment_failed s.payments m.marked;
}
stripe_webhook-IsMarked i n v (canceled pi) s m = record {
  consistent = m.consistent;
  rows = m.rows;
  marked = update_status-keeps (v.rejects set_status) i pi.id payment_canceled s.payments m.marked;
}
stripe_webhook-IsMarked i n v unreadable_success s m = m
stripe_webhook-IsMarked i n v unreadable_other s m = m
stripe_webhook-IsMarked i n v unknown s m = m

unfoldable pub deliver_all : List (Visit × Event) → Shop → Shop
unfolding stripe_webhook
deliver_all [] s = s
deliver_all ((v, e) ∷ es) s = deliver_all es (stripe_webhook v e s).1

-- Once a payment is marked as credited, in consistent accounts: after any events in any order, with
-- any statements failing in each, the payment is still marked and has as many purchase rows in the
-- ledger as before.
pub deliver_all-IsMarked :
    (i : String) (n : ℕ) (es : List (Visit × Event)) (s : Shop)
    → IsMarkedIn i n s
    → IsMarkedIn i n (deliver_all es s)
unfolding deliver_all
deliver_all-IsMarked i n [] s m = m
deliver_all-IsMarked i n ((v, e) ∷ es) s m =
    deliver_all-IsMarked i n es _ (stripe_webhook-IsMarked i n v e s m)
