-- ===== src/Credits/Limits.antt =====
-- internal/credits/credits.go: `ResolveWalletLimits`, which counts wallets and the debits of the last
-- hour.
use vaultkey.Prelude.{
  ℕ, zero, suc, String, ◌+◌, ◌/◌, ◌≡◌, ap, ◌∙◌, Bool, true, false, ◌&&◌, not, Option, none, some,
  List, [], ◌∷◌, Bytes, ◌==◌, leb, if◌then◌else◌, arith,
}
use vaultkey.Prelude.Int.{ℤ, pos, ◌+ℤ◌, ◌≤ℤ◌, IsInt64, wrap64}
use text.Mathlib.Text.{◌==◌ as str_eq}
use vaultkey.Credits.Tables.{LedgerRow, Accounts, Faults, Result, ok, err}
use vaultkey.Credits.{OperationCost, DebitParams, DebitResult, debit_row, is_zero, charge}
use vaultkey.Credits.Locking.{balance}
use vaultkey.Credits.Posting.{Debited, charge-Debited}

pub record Overrides : Type 0 where
  pub max_wallets : Option ℤ
  pub max_wallets_per_hour : Option ℤ

pub record WalletRow : Type 0 where
  pub project : ℕ
  pub user_id : Bytes

-- What the query reads. `limits` is the organization's row of org_limits, where there is one.
pub record Inputs : Type 0 where
  pub org_exists : Bool
  pub limits : Option Overrides
  pub wallets : List WalletRow
  pub ledger : List LedgerRow
  pub costs : List OperationCost

pub record WalletLimits : Type 0 where
  pub hard_cap : ℤ
  pub hourly_limit : ℤ
  pub existing_count : ℕ
  pub hourly_used : ℕ

-- user_id NOT LIKE '\\_%'
unfoldable pub is_user : Bytes → Bool
is_user [] = true
is_user (c ∷ cs) = not (c == 95)

unfoldable pub count_wallets : ℕ → List WalletRow → ℕ
unfolding is_user
count_wallets project [] = 0
count_wallets project (w ∷ ws) =
    let rest = count_wallets project ws in
    if w.project == project && is_user w.user_id then suc rest else rest

unfoldable pub is_creation_tag : Option String → Bool
is_creation_tag none = false
is_creation_tag (some tag) = str_eq tag "create_wallet"

-- A wallet creation of organization `org` in the 3600 seconds before `now`.
is_recent : ℕ → ℕ → LedgerRow → Bool
unfolding is_creation_tag
is_recent org now r =
    r.org == org
    && str_eq r.reason "operation"
    && is_creation_tag r.tag
    && leb now (r.created_at + 3600)

unfoldable pub count_recent : ℕ → ℕ → List LedgerRow → ℕ
unfolding is_recent
count_recent org now [] = 0
count_recent org now (r ∷ rs) =
    let rest = count_recent org now rs in if is_recent org now r then suc rest else rest

-- COALESCE of an active configuration row
config_or : ℤ → String → List OperationCost → ℤ
config_or fallback name [] = fallback
config_or fallback name (c ∷ cs) =
    let rest = config_or fallback name cs in
    if str_eq c.operation name && c.active then c.cost else rest

times : ℕ → ℤ → ℤ
times zero z = pos 0
times (suc n) z = z +ℤ times n z

or_config : Option ℤ → ℤ → ℤ
or_config none z = z
or_config (some y) z = y

cap_override : Option Overrides → Option ℤ
cap_override none = none
cap_override (some o) = o.max_wallets

hourly_override : Option Overrides → Option ℤ
hourly_override none = none
hourly_override (some o) = o.max_wallets_per_hour

-- base + (existing / 1000) * per_1k on int64
unfoldable pub by_footprint : ℕ → List OperationCost → ℤ
unfolding config_or times
by_footprint existing costs = wrap64 (
    config_or (pos 50) "create_wallet_hourly_base" costs
    +ℤ wrap64 (times (existing / 1000) (config_or (pos 100) "create_wallet_hourly_per_1k" costs)))

-- `ResolveWalletLimits`; none where the query finds no organization.
unfoldable pub resolve_wallet_limits : Inputs → ℕ → ℕ → ℕ → Option WalletLimits
unfolding config_or or_config cap_override hourly_override count_wallets
resolve_wallet_limits t org project now =
    let existing = count_wallets project t.wallets in
    if t.org_exists
    then some (record {
      hard_cap =
          or_config (cap_override t.limits)
            (config_or (pos 200000) "create_wallet_hard_cap" t.costs);
      hourly_limit = or_config (hourly_override t.limits) (by_footprint existing t.costs);
      existing_count = existing;
      hourly_used = count_recent org now t.ledger;
    })
    else none

unfoldable pub is_ok : {A : Type 0} → Result A → Bool
is_ok (ok a) = true
is_ok (err e) = false

count_recent-Debited :
    (p : DebitParams) (cost : ℤ) (id made now org : ℕ) (s : Accounts)
    (x : Result DebitResult × Accounts)
    → Debited p cost id made s x
    → count_recent org now x.1.ledger
      ≡ count_recent org now s.ledger
        + (if is_ok x.0 && is_creation_tag p.tag && p.org == org && leb now (made + 3600)
            then 1
            else 0)
unfolding count_recent is_recent debit_row is_creation_tag is_ok
count_recent-Debited p cost id made now org s (err e, s') same =
    ap (λ t. count_recent org now t.ledger) same ∙ omega arith
count_recent-Debited p cost id made now org s (ok r, s') (enough, result, posted) =
    ap (count_recent org now) posted.ledger ∙ ground arith

-- A debit of a positive cost, on a balance that fits an int64, counts against an organization's hourly
-- limit exactly where it succeeds, its metadata names the operation `create_wallet`, the organization
-- is its own, and at most 3600 seconds have passed; then it counts once.
pub count_recent-charge :
    (faults : Faults) (p : DebitParams) (cost : ℤ) (id made now org : ℕ) (s : Accounts)
    → pos 0 ≤ℤ cost
    → is_zero cost ≡ false
    → IsInt64 (balance p.org s)
    → let (r, s') = charge faults p cost id made s in
      count_recent org now s'.ledger
      ≡ count_recent org now s.ledger
        + (if is_ok r && is_creation_tag p.tag && p.org == org && leb now (made + 3600)
            then 1
            else 0)
count_recent-charge faults p cost id made now org s h nz fits =
    count_recent-Debited p cost id made now org s (charge faults p cost id made s)
      (charge-Debited faults p cost id made s h nz fits)

-- The limits hold the wallets that there are.
pub resolve_wallet_limits-count :
    (t : Inputs) (org project now : ℕ) (l : WalletLimits)
    → resolve_wallet_limits t org project now ≡ some l
    → l.existing_count ≡ count_wallets project t.wallets
unfolding resolve_wallet_limits
resolve_wallet_limits-count t org project now l h = ground arith
