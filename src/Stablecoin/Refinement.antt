-- ===== src/Stablecoin/Refinement.antt =====
-- internal/stablecoin/registry.go: the cached registry against a registry without a cache.
use vaultkey.Prelude.{
  ℕ, ◌≡◌, ◌≢◌, refl, sym, ap, ap₂, subst, ◌∙◌, Bool, true, false, Bool-cases, Option, none, some,
  inl, inr, List, [], ◌∷◌, ◌++◌, Bytes, bytes_eq, bytes_eq_iff, All, if◌then◌else◌,
}
use vaultkey.Store.Wallets.{ChainType}
use vaultkey.Stablecoin.Tokens.{
  TokenRow, find_token, get_stablecoin_token, put, normalised, switch_off, has_id, find_listed,
}
use vaultkey.Stablecoin.Cache.{Cache}
use vaultkey.Stablecoin.Registry.{
  Entry, EntryCodec, Reply, entry, stored, entry_of, key, Call, decoded, cached, answer_row,
  look_up, or_look_up, resolve, invalidate, upsert, invalidate_found, switch_off_and_invalidate,
  disable,
}
use vaultkey.Stablecoin.Keys.{
  IsToken, key_cut, key_of, find_token-put, IsApart, find_token-switch_off,
}
use vaultkey.Stablecoin.Upserts.{returned-upserted}
use vaultkey.Stablecoin.Plain.{
  Op, resolves, upserts, disables, expires, IsServed, registered, plain, run_plain, resolves,
  upserts, disables, expires,
}

module _ (cache : Cache) (codec : EntryCodec) (to_lower : Bytes → Bytes) where
  abbrev Stores : Type 0
  Stores = List TokenRow × cache.State

  abbrev pub step : Op → Stores → List Reply × Stores
  step (resolves c t ct ch) w =
      let (r, w') = resolve cache codec to_lower c t ct ch w in (r ∷ [], w')
  step (upserts c id t) w = let (r, w') = upsert cache codec to_lower c id t w in (r ∷ [], w')
  step (disables c id) w = let (r, w') = disable cache codec to_lower c id w in (r ∷ [], w')
  step (expires k) (rows, s) = ([], (rows, cache.del k s))

  abbrev pub run : List Op → Stores → List Reply
  run [] w = []
  run (op ∷ ops) w = let (r, w') = step op w in r ++ run ops w'

  -- What the cache holds under the key of a token is the entry that the table has for it.
  abbrev pub IsFresh : Stores → Type 0
  IsFresh (rows, s) =
      (t : Bytes) (ct : ChainType) (ch raw : Bytes)
      → IsToken t
      → cache.get (key t ct ch) s ≡ some raw
      → (row : TokenRow) × (find_token t ct ch rows ≡ some row)
        × (raw ≡ codec.encode ct (entry_of row))

  -- Both agree on an operation, and the cache stays fresh.
  abbrev Agrees : List Reply × Stores → List Reply × List TokenRow → Type 0
  Agrees (r, (rows, s)) (r', rows') = (r ≡ r') × (rows ≡ rows') × IsFresh (rows, s)

  del-IsFresh :
      (k : Bytes) (rows rows' : List TokenRow) (s : cache.State)
      → ((t : Bytes) (ct : ChainType) (ch : Bytes)
          → k ≢ key t ct ch
          → find_token t ct ch rows' ≡ find_token t ct ch rows)
      → IsFresh (rows, s)
      → IsFresh (rows', cache.del k s)
  del-IsFresh k rows rows' s same fresh t ct ch raw h e =
      elim (Bool-cases (bytes_eq k (key t ct ch))) [
        | inl q ↦
            let q' = (bytes_eq_iff k (key t ct ch)).0 q in
            let gone = cache.get-del_self (key t ct ch) s in
            let e' = subst (λ j. cache.get (key t ct ch) (cache.del j s) ≡ some raw) q' e in cc
        | inr q ↦
            let ne : k ≢ key t ct ch = λ p. cc ((bytes_eq_iff k (key t ct ch)).1 p) in
            let (row, found, same_raw) =
              fresh t ct ch raw h
                (sym (cache.get-del_ne (key t ct ch) k s (λ p. ne (sym p))) ∙ e) in
            (row, same t ct ch ne ∙ found, same_raw)
      ]

  set-IsFresh :
      (t : Bytes) (ct : ChainType) (ch : Bytes) (row : TokenRow) (rows : List TokenRow)
      (s : cache.State)
      → IsToken t
      → find_token t ct ch rows ≡ some row
      → IsFresh (rows, s)
      → IsFresh (rows, cache.set (key t ct ch) (codec.encode ct (entry_of row)) s)
  set-IsFresh t ct ch row rows s ht found fresh t' ct' ch' raw h e =
      elim (Bool-cases (bytes_eq (key t ct ch) (key t' ct' ch'))) [
        | inl q ↦
            let (p0, p1, p2) = key_cut t t' ct ct' ch ch' ht h ((bytes_eq_iff _ _).0 q) in
            let self = cache.get-set_self (key t ct ch) (codec.encode ct (entry_of row)) s in
            let found' : find_token t' ct' ch' rows ≡ some row = cc in
            let same_raw : raw ≡ codec.encode ct' (entry_of row) = cc in (row, found', same_raw)
        | inr q ↦
            let ne : key t' ct' ch' ≢ key t ct ch =
              λ p. cc ((bytes_eq_iff (key t ct ch) (key t' ct' ch')).1 (sym p)) in
            fresh t' ct' ch' raw h
              (sym (cache.get-set_ne (key t' ct' ch') (key t ct ch) _ s ne) ∙ e)
      ]

  module _ (lower_token : (t : Bytes) → IsToken t → to_lower t ≡ t) where
    found_lower :
        (t : Bytes) (ct : ChainType) (ch : Bytes) (rows : List TokenRow)
        → IsToken t
        → get_stablecoin_token to_lower t ct ch rows ≡ find_token t ct ch rows
    unfolding get_stablecoin_token
    found_lower t ct ch rows h = rw (lower_token t h) refl

    answer_row-Agrees :
        (c : Call) (t : Bytes) (ct : ChainType) (ch : Bytes) (o : Option TokenRow)
        (rows : List TokenRow) (s : cache.State)
        → IsToken t
        → find_token t ct ch rows ≡ o
        → IsFresh (rows, s)
        → let (r, w) = answer_row cache codec to_lower c t ct ch o (rows, s) in
          Agrees (r ∷ [], w) (registered o ∷ [], rows)
    unfolding answer_row
    answer_row-Agrees c t ct ch none rows s ht e fresh = (refl, refl, fresh)
    answer_row-Agrees c t ct ch (some row) rows s ht e fresh = elim (Bool-cases c.set_up) [
      | inl up ↦ simp up (refl, refl, set-IsFresh t ct ch row rows s ht e fresh)
      | inr down ↦ simp down (refl, refl, fresh)
    ]

    cached_entry :
        (c : Call) (t : Bytes) (ct : ChainType) (ch : Bytes) (e : Entry) (rows : List TokenRow)
        (s : cache.State)
        → IsToken t
        → IsFresh (rows, s)
        → cached cache codec to_lower c t ct ch s ≡ some e
        → (row : TokenRow) × (find_token t ct ch rows ≡ some row) × (e ≡ entry_of row)
    unfolding cached decoded
    cached_entry c t ct ch e rows s ht fresh h = by_get c.get_up (cache.get (key t ct ch) s) refl h
      where
        by_raw :
            (raw : Bytes)
            → cache.get (key t ct ch) s ≡ some raw
            → codec.decode ct raw ≡ some e
            → (row : TokenRow) × (find_token t ct ch rows ≡ some row) × (e ≡ entry_of row)
        by_raw raw q d =
            let (row, found, same_raw) = fresh t ct ch raw ht q in
            let back = codec.decode-encode ct (entry_of row) in
            let same : e ≡ entry_of row = cc in (row, found, same)

        by_get :
            (up : Bool) (o : Option Bytes)
            → cache.get (key t ct ch) s ≡ o
            → (if up then decoded cache codec to_lower ct o else none) ≡ some e
            → (row : TokenRow) × (find_token t ct ch rows ≡ some row) × (e ≡ entry_of row)
        by_get false o q d = cc
        by_get true o q d = by_option o q d
          where
            by_option :
                (o : Option Bytes)
                → cache.get (key t ct ch) s ≡ o
                → decoded cache codec to_lower ct o ≡ some e
                → (row : TokenRow) × (find_token t ct ch rows ≡ some row) × (e ≡ entry_of row)
            by_option none q d = cc
            by_option (some raw) q d = by_raw raw q d

    or_look_up-Agrees :
        (c : Call) (t : Bytes) (ct : ChainType) (ch : Bytes) (o : Option Entry)
        (rows : List TokenRow) (s : cache.State)
        → IsServed (resolves c t ct ch)
        → IsFresh (rows, s)
        → cached cache codec to_lower c t ct ch s ≡ o
        → let (r, w) = or_look_up cache codec to_lower c t ct ch o (rows, s) in
          Agrees (r ∷ [], w) (plain to_lower (resolves c t ct ch) rows)
    unfolding or_look_up look_up
    or_look_up-Agrees c t ct ch (some e) rows s (ht, up) fresh h =
        let (row, found, same) = cached_entry c t ct ch e rows s ht fresh h in
        let reply : entry e ∷ [] ≡ registered (get_stablecoin_token to_lower t ct ch rows) ∷ [] =
          rw (found_lower t ct ch rows ht, found, same) refl in
        (reply, refl, fresh)
    or_look_up-Agrees c t ct ch none rows s (ht, up) fresh h =
        simp up
          (rw (found_lower t ct ch rows ht) (answer_row-Agrees c t ct ch _ rows s ht refl fresh))

    upsert-Agrees :
        (c : Call) (id : ℕ) (t : TokenRow) (rows : List TokenRow) (s : cache.State)
        → c.del_up ≡ true
        → IsFresh (rows, s)
        → Agrees (step (upserts c id t) (rows, s)) (plain to_lower (upserts c id t) rows)
    unfolding upsert invalidate normalised
    upsert-Agrees c id t rows s up fresh =
        let new = normalised to_lower id t in
        elim (Bool-cases c.db_up) [
          | inr down ↦ simp down (refl, refl, fresh)
          | inl on ↦
              simp (on, up)
                (
                  ap (λ row. stored row ∷ []) (returned-upserted new rows refl),
                  refl,
                  del-IsFresh (key_of new) rows (put new rows) s
                      (λ t' ct ch ne. find_token-put t' ct ch new rows ne) fresh,
                )
        ]

    found-IsFresh :
        (c : Call) (id : ℕ) (o : Option TokenRow) (rows : List TokenRow) (s : cache.State)
        → c.del_up ≡ true
        → find_listed id rows ≡ o
        → IsFresh (rows, s)
        → IsFresh (switch_off id rows, invalidate_found cache codec to_lower c o s)
    unfolding invalidate_found invalidate
    found-IsFresh c id none rows s up e fresh = λ t ct ch raw h g.
        let (row, found, same_raw) = fresh t ct ch raw h g in
        let apart : IsApart (key t ct ch) (find_listed id rows) = rw e tt in
        (row, find_token-switch_off t ct ch id rows apart ∙ found, same_raw)
    found-IsFresh c id (some row) rows s up e fresh = simp up (
        del-IsFresh (key_of row) rows (switch_off id rows) s
          (λ t ct ch ne.
            let apart : IsApart (key t ct ch) (find_listed id rows) = rw e ne in
            find_token-switch_off t ct ch id rows apart)
          fresh)

    disable-Agrees :
        (c : Call) (id : ℕ) (rows : List TokenRow) (s : cache.State)
        → c.del_up ≡ true
        → IsFresh (rows, s)
        → Agrees (step (disables c id) (rows, s)) (plain to_lower (disables c id) rows)
    unfolding disable switch_off_and_invalidate
    disable-Agrees c id rows s up fresh = elim (Bool-cases c.list_up) [
      | inr down ↦ simp down (refl, refl, fresh)
      | inl listed ↦ elim (Bool-cases c.db_up) [
        | inr down ↦ simp (listed, down) (refl, refl, fresh)
        | inl on ↦ elim (Bool-cases (has_id id rows)) [
          | inr missing ↦ simp (listed, on, missing) (refl, refl, fresh)
          | inl here ↦
              simp (listed, on, here) (refl, refl, found-IsFresh c id _ rows s up refl fresh)
        ]
      ]
    ]

    step-Agrees :
        (op : Op) (rows : List TokenRow) (s : cache.State)
        → IsServed op
        → IsFresh (rows, s)
        → Agrees (step op (rows, s)) (plain to_lower op rows)
    unfolding resolve
    step-Agrees (resolves c t ct ch) rows s h fresh =
        or_look_up-Agrees c t ct ch _ rows s h fresh refl
    step-Agrees (upserts c id t) rows s h fresh = upsert-Agrees c id t rows s h fresh
    step-Agrees (disables c id) rows s h fresh = disable-Agrees c id rows s h fresh
    step-Agrees (expires k) rows s h fresh =
        (refl, refl, del-IsFresh k rows rows s (λ t ct ch ne. refl) fresh)

    -- For tokens that `ParseToken` returns, the registry with its cache answers every sequence of
    -- lookups, upserts and disablings as the table alone does, where an upsert is answered with the id
    -- that the row has and a lookup takes the first row that fits, whichever keys expire in between and
    -- whichever GET and SET commands fail, as long as the database answers the lookups, no
    -- invalidation fails, and the cache is fresh at the start.
    pub run-plain :
        (ops : List Op) (rows : List TokenRow) (s : cache.State)
        → All IsServed ops
        → IsFresh (rows, s)
        → run ops (rows, s) ≡ run_plain to_lower ops rows
    run-plain [] rows s h fresh = refl
    run-plain (op ∷ ops) rows s (h, hs) fresh =
        let (replies, same_rows, fresh') = step-Agrees op rows s h fresh in
        let (r, w) = step op (rows, s) in
        let rest = run-plain ops w.0 w.1 hs fresh' in
        ap₂ (λ xs ys. xs ++ ys) replies (rest ∙ ap (run_plain to_lower ops) same_rows)
