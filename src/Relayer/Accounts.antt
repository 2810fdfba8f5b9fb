-- ===== src/Relayer/Accounts.antt =====
-- internal/relayer/relayer.go: the accounts of an SPL token transfer.
use vaultkey.Prelude.{ℕ, ◌≡◌, ◌≢◌, refl, true, false, Bytes, Bool-cases, inl, inr}
use vaultkey.Store.Wallets.{Wallet}
use vaultkey.Relayer.Outside.{Signing, Env, Weather, Refusal, Answer, relayed, refused, crashed}
use vaultkey.Relayer.Solana.{
  Attempt, got, fails, ◌>>=◌, ◌>>◌, check, SolanaPayload, is_blank, token_instruction, instruction,
  build_message,
}
use vaultkey.Relayer.Cosigning.{>>-eq-got, Ending}

instruction-accounts :
    (signing : Signing) (payer user : Bytes) (p : SolanaPayload) (hash message : Bytes)
    → instruction signing payer user p hash ≡ got message
    → is_blank p.token_mint ≡ false
    → is_blank p.source ≡ false
unfolding instruction token_instruction check ◌>>=◌ ◌>>◌
instruction-accounts signing payer user p hash message e mint =
    elim (Bool-cases (is_blank p.source)) [
      | inr named ↦ named
      | inl blank ↦ absurd (apart (refused_token blank) e)
    ]
  where
    refused_token :
        is_blank p.source ≡ true → instruction signing payer user p hash ≡ fails Refusal.no_accounts
    refused_token blank = rw (mint, blank) refl

    apart : {a : Attempt Bytes} → a ≡ fails Refusal.no_accounts → a ≢ got message
    apart q h = cc

build_message-accounts :
    (signing : Signing) (payer user : Bytes) (p : SolanaPayload) (hash message : Bytes)
    → build_message signing payer user p hash ≡ got message
    → is_blank p.token_mint ≡ false
    → is_blank p.source ≡ false
unfolding build_message
build_message-accounts signing payer user p hash message h0 mint =
    let (u1, e1, h1) = >>-eq-got _ _ h0 in
    let (u2, e2, h2) = >>-eq-got _ _ h1 in
    let (u3, e3, h3) = >>-eq-got _ _ h2 in
    instruction-accounts signing payer user p hash message h3 mint

pub not_relayed :
    {Nonces : Type 0} (signing : Signing) (x : Weather) (project : ℕ) (user : Wallet)
    (p : SolanaPayload) (e : Env Nonces) (a : Answer × Env Nonces) (id : Bytes)
    → is_blank p.token_mint ≡ false
    → is_blank p.source ≡ true
    → Ending signing x project user p e a
    → a.0 ≢ relayed id
not_relayed signing x project user p e (relayed i, e') id mint blank (raw, c, s) q =
    let named = build_message-accounts signing c.0.address user.address p c.3 c.4 c.11 mint in cc
not_relayed signing x project user p e (refused why, e') id mint blank h q = cc
not_relayed signing x project user p e (crashed, e') id mint blank h q = cc
