-- ===== src/Nonce/Sequence.antt =====
-- The nonces that a run of `Next` calls hands out, while time passes. INCR is atomic, so concurrent workers are one
-- sequence of calls, in the order in which Redis serves them.
use vaultkey.Prelude.{
  ℕ, zero, suc, ◌+◌, ◌-◌, ◌^◌, ◌<◌, ◌≡◌, refl, ◌∙◌, Bool, true, false, ◌&&◌, some, List, [], ◌∷◌,
  inl, inr, Bytes, codes, Lacks, cut_unique, prefix_cancel, bytes_eq, bytes_eq_iff, Bool-cases, All,
  arith, if◌then◌else◌,
}
use vaultkey.Prelude.Int.{pos, ◌+ℤ◌}
use vaultkey.Nonce.Redis.{Counters}
use vaultkey.Nonce.{Result, ok, key, next}

-- A call is the chain and the address that it is for.
abbrev pub Caller : Type 0
Caller = Bytes × Bytes

abbrev pub same : Caller → Caller → Bool
same (c, a) (c', a') = bytes_eq c c' && bytes_eq a a'

-- Two wallets share a counter only if they are the same wallet, for chain ids without a colon.
pub key-injective :
    (c a c' a' : Bytes) → Lacks b':' c → Lacks b':' c' → key c a ≡ key c' a' → (c ≡ c') × (a ≡ a')
unfolding key
key-injective c a c' a' hc hc' e =
    cut_unique b':' c c' a a' hc hc' (prefix_cancel (codes "vaultkey:nonce:") _ _ e)

-- The nonces from `v` on.
abbrev pub count_up : ℕ → ℕ → List (Result ℕ)
count_up v zero = []
count_up v (suc n) = ok v ∷ count_up (v + 1) n

-- A call of `Next`, or seconds that pass.
pub data Event : Type 0 where
  calls_next : Caller → Event
  waits : ℕ → Event

abbrev pub calls_for : Caller → List Event → ℕ
calls_for w [] = 0
calls_for w (calls_next x ∷ es) = let n = calls_for w es in if same w x then suc n else n
calls_for w (waits d ∷ es) = calls_for w es

abbrev pub waited : List Event → ℕ
waited [] = 0
waited (calls_next x ∷ es) = waited es
waited (waits d ∷ es) = d + waited es

-- The chain id of a call has no colon.
abbrev pub IsPlain : Event → Type 0
IsPlain (calls_next x) = Lacks b':' x.0
IsPlain (waits d) = Unit

abbrev pub results_for : Caller → List (Caller × Result ℕ) → List (Result ℕ)
results_for w [] = []
results_for w ((x, r) ∷ rs) = let mine = results_for w rs in if same w x then r ∷ mine else mine

module _ (redis : Counters) where
  open redis use {
    State, get, left, incr, pass, incr_value, get-incr_self, get-incr_ne, left-incr, get-pass,
    left-pass,
  }

  pub run : List Event → State → List (Caller × Result ℕ)
  run [] s = []
  run (calls_next (c, a) ∷ es) s = let (r, s') = next redis true c a s in ((c, a), r) ∷ run es s'
  run (waits d ∷ es) s = run es (pass d s)

  pub next_value :
      (c a : Bytes) (s : State) (v : ℕ)
      → get (key c a) s ≡ some (pos v)
      → v + 1 < 2 ^ 63
      → ((next redis true c a s).0 ≡ ok v)
        × (get (key c a) (next redis true c a s).1 ≡ some (pos (v + 1)))
  unfolding next ◌+ℤ◌
  next_value c a s v e h = (
    rw (incr_value (key c a) s, e) (ground arith),
    rw (get-incr_self (key c a) s, e) (ground arith),
  )

  next_others :
      (c a c' a' : Bytes) (s : State)
      → same (c, a) (c', a') ≡ false
      → Lacks b':' c
      → Lacks b':' c'
      → get (key c a) (next redis true c' a' s).1 ≡ get (key c a) s
  unfolding next
  next_others c a c' a' s ne hc hc' = get-incr_ne (key c a) (key c' a') s λ e.
      let (p, q) = key-injective c a c' a' hc hc' e in
      ground (arith, (bytes_eq_iff c c').1 p, (bytes_eq_iff a a').1 q)

  next_mine :
      (c a c' a' : Bytes) (s : State) (v : ℕ)
      → same (c, a) (c', a') ≡ true
      → get (key c a) s ≡ some (pos v)
      → v + 1 < 2 ^ 63
      → ((next redis true c' a' s).0 ≡ ok v)
        × (get (key c a) (next redis true c' a' s).1 ≡ some (pos (v + 1)))
  next_mine c a c' a' s v m e h =
      let p : c ≡ c' = (bytes_eq_iff c c').0 (ground arith) in
      let q : a ≡ a' = (bytes_eq_iff a a').0 (ground arith) in
      rw (← p, ← q) (next_value c a s v e h)

  left-next :
      (c a c' a' : Bytes) (s : State)
      → left (key c a) (next redis true c' a' s).1 ≡ left (key c a) s
  unfolding next
  left-next c a c' a' s = left-incr (key c a) (key c' a') s

  -- The results of one wallet's calls are consecutive from its counter, whoever calls in between,
  -- while its time is not over.
  pub results_for-run :
      (c a : Bytes) (es : List Event) (s : State) (v time : ℕ)
      → Lacks b':' c
      → All IsPlain es
      → get (key c a) s ≡ some (pos v)
      → left (key c a) s ≡ some time
      → waited es < time
      → v + calls_for (c, a) es < 2 ^ 63
      → results_for (c, a) (run es s) ≡ count_up v (calls_for (c, a) es)
  unfolding run
  results_for-run c a [] s v time hc _ e l w h = refl
  results_for-run c a (waits d ∷ es) s v time hc (_, hes) e l w h =
      let e' : get (key c a) (pass d s) ≡ some (pos v) =
        get-pass (key c a) d s ∙ rw (l, e) (ground arith) in
      let l' : left (key c a) (pass d s) ≡ some (time - d) =
        left-pass (key c a) d s ∙ rw l (ground arith) in
      results_for-run c a es (pass d s) v (time - d) hc hes e' l' (omega arith) h
  results_for-run c a (calls_next (c', a') ∷ es) s v time hc (hx, hes) e l w h =
      let l' = left-next c a c' a' s ∙ l in
      elim (Bool-cases (same (c, a) (c', a'))) [
        | inl mine ↦
            let (r, e') = next_mine c a c' a' s v mine e (ground arith) in
            let rest =
              results_for-run c a es (next redis true c' a' s).1 (v + 1) time hc hes e' l' w
                (ground arith) in
            ground (arith)
        | inr other ↦
            let e' = next_others c a c' a' s other hc hx ∙ e in
            let rest =
              results_for-run c a es (next redis true c' a' s).1 v time hc hes e' l' w
                (ground arith) in
            ground (arith)
      ]
