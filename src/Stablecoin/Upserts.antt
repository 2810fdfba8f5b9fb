-- ===== src/Stablecoin/Upserts.antt =====
-- internal/storage/stablecoin.go: the row that `UpsertStablecoinToken` returns.
use vaultkey.Prelude.{
  ◌≡◌, refl, true, Bool-cases, inl, inr, Option, none, some, List, [], ◌∷◌, Bytes, bytes_eq_iff,
}
use vaultkey.Stablecoin.Tokens.{TokenRow, conflicts, same_option, overwrite, returned}
use vaultkey.Stablecoin.Keys.{same_chain_sound, &&_left, &&_right}
use vaultkey.Stablecoin.Plain.{overwritten, upserted}

same_option-eq : (a b : Option Bytes) → same_option a b ≡ true → a ≡ b
unfolding same_option
same_option-eq none b h = cc
same_option-eq (some a) none h = cc
same_option-eq (some a) (some b) h = let e = (bytes_eq_iff a b).0 h in cc

overwrite-upserted :
    (new row : TokenRow)
    → new.enabled ≡ true
    → conflicts new row ≡ true
    → overwrite new row ≡ record new { id = row.id }
unfolding conflicts overwrite
overwrite-upserted new row on h =
    let h2 = &&_left _ (same_option row.chain new.chain) h in
    let token : row.token ≡ new.token = (bytes_eq_iff row.token new.token).0 (&&_left _ _ h2) in
    let kind : row.chain_type ≡ new.chain_type =
      same_chain_sound row.chain_type new.chain_type (&&_right _ _ h2) in
    let chain : row.chain ≡ new.chain = same_option-eq row.chain new.chain (&&_right _ _ h) in cc

-- An upsert returns a new row, or one with the id that stood there and the new values.
pub returned-upserted :
    (new : TokenRow) (rows : List TokenRow)
    → new.enabled ≡ true
    → returned new rows ≡ upserted new (overwritten new rows)
unfolding returned
returned-upserted new [] on = refl
returned-upserted new (row ∷ rows) on = elim (Bool-cases (conflicts new row)) [
  | inl e ↦ rw (e, returned) (overwrite-upserted new row on e)
  | inr e ↦ rw (e, returned) (returned-upserted new rows on)
]
