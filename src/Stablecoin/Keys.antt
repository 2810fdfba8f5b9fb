-- ===== src/Stablecoin/Keys.antt =====
-- The cache keys of the registry: which rows can answer for a key, and what writes leave alone.
use vaultkey.Prelude.{
  ℕ, ◌≡◌, ◌≢◌, refl, sym, ◌∙◌, ap, subst, Bool, true, false, ◌&&◌, Bool-cases, Option, none, some,
  inl, inr, List, [], ◌∷◌, ◌++◌, Bytes, Lacks, cut_unique, prefix_cancel, bytes_eq_iff, ◌==◌, arith,
  if◌then◌else◌,
}
use vaultkey.Store.Wallets.{ChainType, evm, solana, same_chain}
use vaultkey.Stablecoin.Tokens.{
  TokenRow, is_chain, is_row, find_token, conflicts, same_option, overwrite, put, or_blank,
  switch_off, find_listed,
}
use vaultkey.Stablecoin.Registry.{chain_text, key, key_prefix, is_token_char, all_token_chars}

-- What `ParseToken` makes sure of.
abbrev pub IsToken : Bytes → Type 0
IsToken t = all_token_chars t ≡ true

IsToken-Lacks : (t : Bytes) → IsToken t → Lacks b':' t
unfolding all_token_chars is_token_char
IsToken-Lacks [] h = tt
IsToken-Lacks (c ∷ t) h = (λ e. ground arith, IsToken-Lacks t (ground arith))

abbrev first : Bytes → ℕ
first [] = 0
first (c ∷ s) = c

chain_text_cut :
    (ct ct' : ChainType) (s s' : Bytes)
    → chain_text ct ++ (b':' ∷ s) ≡ chain_text ct' ++ (b':' ∷ s')
    → (ct ≡ ct') × (s ≡ s')
unfolding chain_text
chain_text_cut evm evm s s' e = (refl, cc)
chain_text_cut evm solana s s' e = let h : 101 ≡ 115 = ap first e in absurd (omega (arith, h))
chain_text_cut solana evm s s' e = let h : 115 ≡ 101 = ap first e in absurd (omega (arith, h))
chain_text_cut solana solana s s' e = (refl, cc)

pub key_cut :
    (t t' : Bytes) (ct ct' : ChainType) (ch ch' : Bytes)
    → IsToken t
    → IsToken t'
    → key t ct ch ≡ key t' ct' ch'
    → (t ≡ t') × (ct ≡ ct') × (ch ≡ ch')
unfolding key
key_cut t t' ct ct' ch ch' h h' e =
    let (p, q) =
      cut_unique b':' t t' _ _ (IsToken-Lacks t h) (IsToken-Lacks t' h')
        (prefix_cancel key_prefix _ _ e) in
    let (q1, q2) = chain_text_cut ct ct' ch ch' q in (p, q1, q2)

abbrev pub key_of : TokenRow → Bytes
key_of row = key row.token row.chain_type (or_blank row.chain)

pub same_chain_sound : (a b : ChainType) → same_chain a b ≡ true → a ≡ b
same_chain_sound evm evm h = refl
same_chain_sound evm solana h = cc
same_chain_sound solana evm h = cc
same_chain_sound solana solana h = refl

is_chain_sound : (ch : Bytes) (o : Option Bytes) → is_chain ch o ≡ true → or_blank o ≡ ch
unfolding is_chain or_blank
is_chain_sound [] none h = refl
is_chain_sound (c ∷ s) none h = cc
is_chain_sound [] (some d) h = (bytes_eq_iff d []).0 h
is_chain_sound (c ∷ s) (some d) h = (bytes_eq_iff d (c ∷ s)).0 h

same_option_sound : (a b : Option Bytes) → same_option a b ≡ true → or_blank a ≡ or_blank b
unfolding same_option or_blank
same_option_sound none b h = cc
same_option_sound (some a) none h = cc
same_option_sound (some a) (some b) h = (bytes_eq_iff a b).0 h

pub &&_left : (a b : Bool) → (a && b) ≡ true → a ≡ true
&&_left true b h = refl
&&_left false b h = cc

pub &&_right : (a b : Bool) → (a && b) ≡ true → b ≡ true
&&_right true b h = h
&&_right false b h = cc

key_cong :
    {t t' : Bytes} {ct ct' : ChainType} {ch ch' : Bytes}
    → t ≡ t'
    → ct ≡ ct'
    → ch ≡ ch'
    → key t ct ch ≡ key t' ct' ch'
key_cong p q r = cc

is_row-key :
    (t : Bytes) (ct : ChainType) (ch : Bytes) (row : TokenRow)
    → is_row t ct ch row ≡ true
    → key_of row ≡ key t ct ch
unfolding is_row
is_row-key t ct ch row h =
    let h3 = &&_left _ row.enabled h in
    let h2 = &&_left _ (is_chain ch row.chain) h3 in
    key_cong ((bytes_eq_iff row.token t).0 (&&_left _ _ h2))
      (same_chain_sound row.chain_type ct (&&_right _ _ h2))
      (is_chain_sound ch row.chain (&&_right _ _ h3))

conflicts-key : (new row : TokenRow) → conflicts new row ≡ true → key_of row ≡ key_of new
unfolding conflicts
conflicts-key new row h =
    let h2 = &&_left _ (same_option row.chain new.chain) h in
    key_cong ((bytes_eq_iff row.token new.token).0 (&&_left _ _ h2))
      (same_chain_sound row.chain_type new.chain_type (&&_right _ _ h2))
      (same_option_sound row.chain new.chain (&&_right _ _ h))

-- A row of another key does not answer.
is_row_other :
    (t : Bytes) (ct : ChainType) (ch : Bytes) (row : TokenRow)
    → key_of row ≢ key t ct ch
    → is_row t ct ch row ≡ false
is_row_other t ct ch row ne = elim (Bool-cases (is_row t ct ch row)) [
  | inl e ↦ absurd (ne (is_row-key t ct ch row e))
  | inr e ↦ e
]

-- An upsert leaves the answers for other keys alone.
pub find_token-put :
    (t : Bytes) (ct : ChainType) (ch : Bytes) (new : TokenRow) (rows : List TokenRow)
    → key_of new ≢ key t ct ch
    → find_token t ct ch (put new rows) ≡ find_token t ct ch rows
unfolding find_token put
find_token-put t ct ch new [] ne = rw (is_row_other t ct ch new ne) refl
find_token-put t ct ch new (row ∷ rows) ne = elim (Bool-cases (conflicts new row)) [
  | inl e ↦
      let same = conflicts-key new row e in
      let ne' : key_of row ≢ key t ct ch = λ p. ne (sym same ∙ p) in
      let new_off = is_row_other t ct ch (overwrite new row) ne' in
      let old_off = is_row_other t ct ch row ne' in rw (e, find_token) (rw (new_off, old_off) refl)
  | inr e ↦ rw (e, find_token) (rw (find_token-put t ct ch new rows ne) refl)
]

&&_false : (a : Bool) → (a && false) ≡ false
&&_false true = refl
&&_false false = refl

-- A row that is off, or is switched off, does not answer.
is_row_off :
    (t : Bytes) (ct : ChainType) (ch : Bytes) (row : TokenRow)
    → row.enabled ≡ false
    → is_row t ct ch row ≡ false
unfolding is_row
is_row_off t ct ch row e = simp e (&&_false _)

abbrev pub IsApart : Bytes → Option TokenRow → Type 0
IsApart k none = Unit
IsApart k (some row) = key_of row ≢ k

-- Switching off a row leaves alone the answers for the keys other than that of the listed row.
pub find_token-switch_off :
    (t : Bytes) (ct : ChainType) (ch : Bytes) (i : ℕ) (rows : List TokenRow)
    → IsApart (key t ct ch) (find_listed i rows)
    → find_token t ct ch (switch_off i rows) ≡ find_token t ct ch rows
unfolding find_token switch_off find_listed
find_token-switch_off t ct ch i [] ne = refl
find_token-switch_off t ct ch i (row ∷ rows) ne = elim (Bool-cases (row.id == i)) [
  | inr other ↦
      let rest = find_token-switch_off t ct ch i rows (skip other ne) in
      rw (other, find_token) (rw rest refl)
  | inl here ↦
      rw (here, find_token)
        (rw (is_row_off t ct ch (record row { enabled = false }) refl, silent here ne) refl)
]
  where
    skip :
        (row.id == i) ≡ false
        → IsApart (key t ct ch) (find_listed i (row ∷ rows))
        → IsApart (key t ct ch) (find_listed i rows)
    skip other h =
        subst (λ b. IsApart (key t ct ch) (if b then some row else find_listed i rows)) (off other)
          h
      where
        off : (row.id == i) ≡ false → (row.enabled && row.id == i) ≡ false
        off e = rw e (&&_false row.enabled)

    silent :
        (row.id == i) ≡ true
        → IsApart (key t ct ch) (find_listed i (row ∷ rows))
        → is_row t ct ch row ≡ false
    silent here h = elim (Bool-cases row.enabled) [
      | inl on ↦ is_row_other t ct ch row (
          subst (λ b. IsApart (key t ct ch) (if b then some row else find_listed i rows))
            (both on here) h)
      | inr off ↦ is_row_off t ct ch row off
    ]
      where
        both : row.enabled ≡ true → (row.id == i) ≡ true → (row.enabled && row.id == i) ≡ true
        both e e' = simp (e, e') refl
