-- ===== src/Nonce/Callers.antt =====
-- `ensureNonce`, `resyncNonce` and `Next` as the worker and the relayer call them, and the failures.
use vaultkey.Prelude.{
  ℕ, ◌+◌, ◌%◌, ◌^◌, ◌<◌, ◌≤◌, ◌∙◌, ◌≡◌, refl, true, Option, none, some, List, Bytes, Lacks, All,
  arith,
}
use vaultkey.Prelude.Int.{ℤ, pos, ◌+ℤ◌}
use vaultkey.Nonce.Redis.{Counters, after_incr}
use vaultkey.Nonce.Sequence.{
  IsPlain, Event, waited, run, results_for, calls_for, count_up, next_value, results_for-run,
}
use vaultkey.Nonce.{
  ok, day, key, from_incr, parse_uint, last_used, next, sync_from_chain, peek, resync_nonce,
  ensure_from, ensure_nonce,
}

module _ (redis : Counters) where
  open redis use {
    State, get, left, incr, pass, incr_value, get-incr_self, get-set_self, left-set_self, get-pass,
  }

  pub get-sync :
      (c a : Bytes) (pending : ℕ) (s : State)
      → pending + 1 < 2 ^ 63
      → get (key c a) (sync_from_chain redis true c a pending s).1 ≡ some (pos (pending + 1))
  unfolding sync_from_chain
  get-sync c a pending s h =
      let e : (pending + 1) % 2 ^ 64 ≡ pending + 1 = omega arith in
      rw (get-set_self (key c a) _ day s, e)

  left-sync :
      (c a : Bytes) (pending : ℕ) (s : State)
      → left (key c a) (sync_from_chain redis true c a pending s).1 ≡ some day
  unfolding sync_from_chain
  left-sync c a pending s = left-set_self (key c a) _ day s

  -- For chain ids without a colon and counters below 2^63: in the 24 hours after a sync to the chain's
  -- pending nonce, the calls for a wallet are answered with `pending + 1`, `pending + 2` and so on,
  -- whoever else calls in between.
  pub run-sync :
      (c a : Bytes) (pending : ℕ) (es : List Event) (s : State)
      → Lacks b':' c
      → All IsPlain es
      → waited es < day
      → pending + 1 + calls_for (c, a) es < 2 ^ 63
      → results_for (c, a) (run redis es (sync_from_chain redis true c a pending s).1)
        ≡ count_up (pending + 1) (calls_for (c, a) es)
  run-sync c a pending es s hc hes w h =
      results_for-run redis c a es _ (pending + 1) day hc hes (get-sync c a pending s (omega arith))
        (left-sync c a pending s) w h

  ensure_nonce_fresh :
      (c a : Bytes) (pending : ℕ) (s : State)
      → get (key c a) s ≡ none
      → ensure_nonce redis true (some pending) c a s ≡ sync_from_chain redis true c a pending s
  unfolding ensure_nonce peek ensure_from resync_nonce
  ensure_nonce_fresh c a pending s e = rw (e, peek)

  -- On a counter that Redis does not hold yet, `ensureNonce` succeeds, and `Next` then gives the nonce
  -- after the chain's pending one, while the counter fits an int64.
  pub next-ensure_nonce :
      (c a : Bytes) (pending : ℕ) (s : State)
      → get (key c a) s ≡ none
      → pending + 2 < 2 ^ 63
      → let (r, s') = ensure_nonce redis true (some pending) c a s in
        (r ≡ ok tt) × ((next redis true c a s').0 ≡ ok (pending + 1))
  unfolding sync_from_chain
  next-ensure_nonce c a pending s e h = rw (ensure_nonce_fresh c a pending s e) (
    refl,
    (next_value redis c a _ (pending + 1) (get-sync c a pending s (omega arith)) (omega arith)).0,
  )

  gone :
      (c a : Bytes) (pending d : ℕ) (s : State)
      → day ≤ d
      → get (key c a) (pass d (sync_from_chain redis true c a pending s).1) ≡ none
  gone c a pending d s h = get-pass (key c a) d _ ∙ rw (left-sync c a pending s) (ground arith)

  next_missing :
      (c a : Bytes) (s : State) → get (key c a) s ≡ none → (next redis true c a s).0 ≡ ok 0
  unfolding next
  next_missing c a s e = rw (incr_value (key c a) s, e) refl

  -- From 24 hours after a sync on, without a new one: `Next` hands out nonce 0, whatever the chain's
  -- pending nonce is; `ensureNonce` first gives the nonce after the chain's pending one.
  pub next-expired :
      (c a : Bytes) (pending d pending' : ℕ) (s : State)
      → day ≤ d
      → pending' + 2 < 2 ^ 63
      → let s' = pass d (sync_from_chain redis true c a pending s).1 in
        ((next redis true c a s').0 ≡ ok 0)
        × ((next redis true c a (ensure_nonce redis true (some pending') c a s').1).0
            ≡ ok (pending' + 1))
  next-expired c a pending d pending' s h h' =
      let e = gone c a pending d s h in
      (next_missing c a _ e, (next-ensure_nonce c a pending' _ e h').1)

  peek_of :
      (c a : Bytes) (s : State) (v : Option ℤ)
      → get (key c a) s ≡ v
      → peek redis true c a s ≡ elim v [ none ↦ ok 0 | some w ↦ last_used (parse_uint w) ]
  unfolding peek
  peek_of c a s v e = rw (e, peek)

  -- Right after `Next` has handed out a nonce, `Peek` reports that nonce.
  pub peek-next :
      (c a : Bytes) (s : State) (n : ℕ)
      → (next redis true c a s).0 ≡ ok n
      → peek redis true c a (next redis true c a s).1 ≡ ok n
  unfolding next from_incr parse_uint last_used ◌+ℤ◌
  peek-next c a s n e =
      let k = key c a in
      let v = incr_value k s in
      ground (arith, peek_of c a (incr k s).1 (after_incr (get k s)) (get-incr_self k s))
