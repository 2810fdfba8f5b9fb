-- ===== src/Webhook/Retries.antt =====
-- How often a delivery tries, and how long it waits.
use vaultkey.Prelude.{
  ℕ, zero, suc, ap, sym, ◌-◌, subst, ◌∙◌, ◌+◌, ◌*◌, ◌^◌, ◌<◌, ◌≤◌, ◌≡◌, refl, true, false, List, [],
  ◌∷◌, Bytes, arith, Option,
}
use vaultkey.Prelude.Int.{ℤ, pos, ◌+ℤ◌, wrap64, wrap64_exact, int_laws}
use vaultkey.Webhook.{
  Endpoint, Event, waited, posted, delivered, exhausted, is_success, backoff, after_wait, stopped,
  attempts, rounds_of, deliver, signature_header,
}

abbrev pub tries : List Event → ℕ
tries [] = 0
tries (waited t ∷ log) = tries log
tries (posted b h ∷ log) = suc (tries log)

-- Nanoseconds spent in waits.
abbrev pub waits : List Event → ℤ
waits [] = pos 0
waits (waited t ∷ log) = t +ℤ waits log
waits (posted b h ∷ log) = waits log

tries-after_wait : (n : ℕ) (log : List Event) → tries (after_wait n log) ≡ tries log
unfolding after_wait
tries-after_wait zero log = refl
tries-after_wait (suc n) log = refl

not_stopped : (net : Endpoint) (n : ℕ) → ((i : ℕ) → net.cancelled i ≡ false) → stopped net n ≡ false
unfolding stopped
not_stopped net zero h = refl
not_stopped net (suc n) h = h (suc n)

attempts-fail :
    (net : Endpoint) (body : Bytes) (head : Option Bytes) (rounds a : ℕ)
    → ((i : ℕ) → net.cancelled i ≡ false)
    → ((i : ℕ) → a ≤ i → i < a + rounds → is_success (net.answer i) ≡ false)
    → let (o, log) = attempts net (posted body head) rounds a in
      (o ≡ exhausted) × (tries log ≡ rounds)
unfolding attempts
attempts-fail net body head zero a live fails = (refl, refl)
attempts-fail net body head (suc rounds) a live fails =
    let ih =
      attempts-fail net body head rounds (suc a) live
        (λ i h k. fails i (omega arith) (omega (arith, k))) in
    rw (not_stopped net a live, fails a (omega arith) (omega arith))
      (ih.0, tries-after_wait a _ ∙ ap suc ih.1)

attempts-succeed :
    (net : Endpoint) (body : Bytes) (head : Option Bytes) (rounds a k : ℕ)
    → ((i : ℕ) → net.cancelled i ≡ false)
    → k < rounds
    → ((i : ℕ) → a ≤ i → i < a + k → is_success (net.answer i) ≡ false)
    → is_success (net.answer (a + k)) ≡ true
    → let (o, log) = attempts net (posted body head) rounds a in
      (o ≡ delivered) × (tries log ≡ suc k)
unfolding attempts
attempts-succeed net body head zero a k live h fails good = elim h [ ]
attempts-succeed net body head (suc rounds) a zero live h fails good =
    let here : a + 0 ≡ a = omega arith in
    rw (not_stopped net a live, subst (λ i. is_success (net.answer i) ≡ true) here good)
      (refl, tries-after_wait a _)
attempts-succeed net body head (suc rounds) a (suc k) live h fails good =
    let ih =
      attempts-succeed net body head rounds (suc a) k live (omega (arith, h))
        (λ i p q. fails i (omega arith) (omega (arith, q)))
        (subst (λ i. is_success (net.answer i) ≡ true) (omega arith) good) in
    rw (not_stopped net a live, fails a (omega arith) (omega arith))
      (ih.0, tries-after_wait a _ ∙ ap suc ih.1)

pow_double : (a : ℕ) → 2 ^ suc a ≡ 2 * 2 ^ a
pow_double a = omega arith

pow_grows : (a r : ℕ) → 2 ^ a ≤ 2 ^ (a + r)
pow_grows a zero = let here : a + 0 ≡ a = omega arith in rw here (omega arith)
pow_grows a (suc r) =
    let next : a + suc r ≡ suc (a + r) = omega arith in
    rw next (omega (arith, pow_double (a + r), pow_grows a r))

seconds_exact :
    (n : ℕ) → n * 1000000000 < 2 ^ 63 → wrap64 (pos (n * 1000000000)) ≡ pos (n * 1000000000)
seconds_exact n h = wrap64_exact (pos (n * 1000000000)) (ground (arith, h))

pos-add : (a b : ℕ) → pos a +ℤ pos b ≡ pos (a + b)
pos-add a b = omega int_laws

waits-fail :
    (net : Endpoint) (body : Bytes) (head : Option Bytes) (rounds a : ℕ)
    → ((i : ℕ) → net.cancelled i ≡ false)
    → ((i : ℕ) → a < i → i < suc a + rounds → is_success (net.answer i) ≡ false)
    → 2 ^ (a + rounds) * 1000000000 < 2 ^ 63
    → waits (attempts net (posted body head) rounds (suc a)).1
      ≡ pos ((2 ^ (a + rounds) - 2 ^ a) * 1000000000)
unfolding attempts after_wait backoff
waits-fail net body head zero a live fails h =
    let here : a + 0 ≡ a = omega arith in rw here (ap pos (omega arith))
waits-fail net body head (suc rounds) a live fails h =
    let next : a + suc rounds ≡ suc a + rounds = omega arith in
    let bound : 2 ^ (suc a + rounds) * 1000000000 < 2 ^ 63 =
      subst (λ n. 2 ^ n * 1000000000 < 2 ^ 63) next h in
    let grows = pow_grows (suc a) rounds in
    let twice = pow_double a in
    let ih =
      waits-fail net body head rounds (suc a) live
        (λ i p q. fails i (omega (arith, p)) (omega (arith, q))) bound in
    rw
      (
        not_stopped net (suc a) live,
        fails (suc a) (omega arith) (omega arith),
        seconds_exact (2 ^ a) (omega arith),
        ih,
        next,
      )
      (pos-add _ _ ∙ ap pos (omega arith))

-- While the context lives, a delivery whose attempt `k` is the first that a 2xx answers succeeds after
-- `k + 1` attempts, for a `k` of at most the number of retries.
pub deliver-succeeds :
    (net : Endpoint) (hex_mac : Bytes → Bytes → Bytes) (secret body : Bytes) (n k : ℕ)
    → ((i : ℕ) → net.cancelled i ≡ false)
    → k ≤ n
    → ((i : ℕ) → i < k → is_success (net.answer i) ≡ false)
    → is_success (net.answer k) ≡ true
    → let (o, log) = deliver net hex_mac secret body (pos n) in
      (o ≡ delivered) × (tries log ≡ suc k)
unfolding deliver rounds_of
deliver-succeeds net hex_mac secret body n k live h fails good =
    let here : k ≡ 0 + k = omega arith in
    attempts-succeed net body _ (suc n) 0 k live (omega (arith, h))
      (λ i p q. fails i (omega (arith, q)))
      (subst (λ i. is_success (net.answer i) ≡ true) here good)

-- While the context lives, a delivery that no 2xx answers gives up after one attempt more than the
-- retries, having waited 2^n - 1 seconds for `n` retries, where that fits a time.Duration.
pub deliver-exhausts :
    (net : Endpoint) (hex_mac : Bytes → Bytes → Bytes) (secret body : Bytes) (n : ℕ)
    → ((i : ℕ) → net.cancelled i ≡ false)
    → ((i : ℕ) → i ≤ n → is_success (net.answer i) ≡ false)
    → 2 ^ n * 1000000000 < 2 ^ 63
    → let (o, log) = deliver net hex_mac secret body (pos n) in
      (o ≡ exhausted) × (tries log ≡ n + 1) × (waits log ≡ pos ((2 ^ n - 1) * 1000000000))
unfolding deliver rounds_of
deliver-exhausts net hex_mac secret body n live fails h =
    let head = signature_header hex_mac secret body in
    let all = attempts-fail net body head (suc n) 0 live (λ i p q. fails i (omega (arith, q))) in
    let here : 0 + n ≡ n = omega arith in
    let last =
      waits-fail net body head n 0 live (λ i p q. fails i (omega (arith, q)))
        (subst (λ m. 2 ^ m * 1000000000 < 2 ^ 63) (sym here) h) in
    (
      all.0,
      all.1 ∙ omega arith,
      rw (fails 0 (omega arith)) (last ∙ ap (λ m. pos ((2 ^ m - 1) * 1000000000)) here),
    )
