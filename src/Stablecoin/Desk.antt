-- ===== src/Stablecoin/Desk.antt =====
-- Requests for transfers, the reasons to refuse one, and steps that may end with a reason.
use vaultkey.Prelude.{ℕ, ◌≡◌, refl, Bool, true, false, Option, none, some, Bytes}
use vaultkey.Amount.{Error}
use vaultkey.Stablecoin.Registry.{Reply}

-- `TransferRequest`
pub record TransferRequest : Type 0 where
  pub project : ℕ
  pub wallet : ℕ
  pub token : Bytes
  pub to : Bytes
  pub amount : Bytes
  pub chain_id : Bytes
  pub chain_type : Bytes
  pub gasless : Bool
  pub key : Option Bytes

pub data Refused : Type 0 where
  bad_token bad_chain_type needs_gasless bad_recipient : Refused
  wallet_query wallet_missing wrong_chain master_wallet : Refused
  registry : Reply → Refused
  bad_amount : Error → Refused
  relayer_query no_relayer relayer_balance relayer_low : Refused
  balance_query zero_balance short_balance bad_calldata bad_chain_id : Refused

pub data Outcome (A : Type 0) : Type 0 where
  fine : A → Outcome A
  stops : Refused → Outcome A

abbrev pub Step : Type 0 → Type 0 → Type 0
Step S A = S → Outcome A × S

module _ {S : Type 0} where
  abbrev pub pure : {A : Type 0} → A → Step S A
  pure a s = (fine a, s)

  abbrev pub stop : {A : Type 0} → Refused → Step S A
  stop why s = (stops why, s)

  unfoldable pub need : {A : Type 0} → Refused → Option A → Step S A
  need why none s = (stops why, s)
  need why (some a) s = (fine a, s)

  unfoldable pub demand : Refused → Bool → Step S (Unit {0})
  demand why true s = (fine tt, s)
  demand why false s = (stops why, s)

  infixl 5 ◌>>=◌ ◌>>◌
  unfoldable pub ◌>>=◌ : {A B : Type 0} → Step S A → (A → Step S B) → Step S B
  ◌>>=◌ m f s = let (r, s') = m s in elim r [ fine a ↦ f a s' | stops why ↦ (stops why, s') ]

  unfoldable pub ◌>>◌ : {A B : Type 0} → Step S A → Step S B → Step S B
  unfolding ◌>>=◌
  m >> k = m >>= λ _. k

  -- A sequence that ends well consists of steps that end well.
  pub >>=-eq-fine :
      {A B : Type 0} (m : Step S A) (f : A → Step S B) (s : S) {b : B} {t : S}
      → (m >>= f) s ≡ (fine b, t)
      → (a : A) × (s' : S) × (m s ≡ (fine a, s')) × (f a s' ≡ (fine b, t))
  unfolding ◌>>=◌
  >>=-eq-fine {A} {B} m f s {b} {t} e = go (m s) refl e
    where
      go :
          (x : Outcome A × S)
          → m s ≡ x
          → (elim x.0 [ fine a ↦ f a x.1 | stops why ↦ (stops why, x.1) ]) ≡ (fine b, t)
          → (a : A) × (s' : S) × (m s ≡ (fine a, s')) × (f a s' ≡ (fine b, t))
      go (fine a, s') q h = (a, s', q, h)
      go (stops why, s') q h = cc

  pub need-eq-fine :
      {A : Type 0} (why : Refused) (o : Option A) (s : S) {a : A} {t : S}
      → need why o s ≡ (fine a, t)
      → (o ≡ some a) × (t ≡ s)
  unfolding need
  need-eq-fine why none s e = cc
  need-eq-fine why (some b) s e = (cc, cc)

  pub demand-eq-fine :
      (why : Refused) (b : Bool) (s : S) {u : Unit {0}} {t : S}
      → demand why b s ≡ (fine u, t)
      → (b ≡ true) × (t ≡ s)
  unfolding demand
  demand-eq-fine why true s e = (refl, cc)
  demand-eq-fine why false s e = cc
