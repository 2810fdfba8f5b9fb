-- ===== src/Cloud/KeyCache.antt =====
-- internal/storage/api_key_cache.go: what the cache holds for a key.
use vaultkey.Prelude.{
  ◌≡◌, ◌≢◌, sym, ◌∙◌, false, Bool-cases, Option, none, some, inl, inr, Bytes, bytes_eq,
  bytes_eq_iff, prefix_cancel, codes,
}
use vaultkey.Stablecoin.Cache.{Cache}
use vaultkey.Cloud.Keys.{KeyEntry, KeyCodec, cache_key, entry_from}

pub cache_key_ne : (a b : Bytes) → bytes_eq a b ≡ false → cache_key b ≢ cache_key a
unfolding cache_key
cache_key_ne a b h e =
    let same : b ≡ a = prefix_cancel (codes "vk:apikey:") b a e in
    cc ((bytes_eq_iff a b).1 (sym same))

module _ (cache : Cache) (codec : KeyCodec) where
  open cache use {State, get, set, del, get-set_self, get-set_ne, get-del_self, get-del_ne}

  abbrev pub entry_at : Bytes → State → Option KeyEntry
  entry_at key r = entry_from cache codec (get (cache_key key) r)

  pub entry_at-set_self :
      (key : Bytes) (e : KeyEntry) (r : State)
      → entry_at key (set (cache_key key) (codec.encode e) r) ≡ some e
  unfolding entry_from
  entry_at-set_self key e r =
      rw (get-set_self (cache_key key) (codec.encode e) r) (codec.decode-encode e)

  pub entry_at-set_ne :
      (key j v : Bytes) (r : State)
      → bytes_eq key j ≡ false
      → entry_at j (set (cache_key key) v r) ≡ entry_at j r
  entry_at-set_ne key j v r h =
      rw (get-set_ne (cache_key j) (cache_key key) v r (cache_key_ne key j h))

  pub entry_at-del_self : (key : Bytes) (r : State) → entry_at key (del (cache_key key) r) ≡ none
  unfolding entry_from
  entry_at-del_self key r = rw (get-del_self (cache_key key) r)

  pub entry_at-del_ne :
      (key j : Bytes) (r : State)
      → bytes_eq key j ≡ false
      → entry_at j (del (cache_key key) r) ≡ entry_at j r
  entry_at-del_ne key j r h = rw (get-del_ne (cache_key j) (cache_key key) r (cache_key_ne key j h))

  -- Nothing appears in the cache by a deletion.
  pub entry_at-del :
      (key j : Bytes) (r : State) (e : KeyEntry)
      → entry_at j (del (cache_key key) r) ≡ some e
      → entry_at j r ≡ some e
  entry_at-del key j r e h = elim (Bool-cases (bytes_eq key j)) [
    | inl same ↦
        let q : key ≡ j = (bytes_eq_iff key j).0 same in
        let gone : entry_at j (del (cache_key key) r) ≡ none = rw q (entry_at-del_self j r) in
        absurd (cc)
    | inr other ↦ sym (entry_at-del_ne key j r other) ∙ h
  ]
