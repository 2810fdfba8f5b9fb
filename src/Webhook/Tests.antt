-- ===== src/Webhook/Tests.antt =====
-- Deliveries to an endpoint that answers 503 twice and then 200, and to one that never answers.
use vaultkey.Prelude.{
  ◌≡◌, ◌<◌, ltb, if◌then◌else◌, refl, false, ℕ, zero, suc, none, some, Option, [], Bytes, codes,
  arith,
}
use vaultkey.Prelude.Int.{pos}
use vaultkey.Webhook.{Endpoint, deliver, delivered, exhausted, is_success}
use vaultkey.Webhook.Retries.{tries, waits, deliver-succeeds, deliver-exhausts}

abbrev status_at : ℕ → Option ℕ
status_at n = if ltb n 2 then some 503 else some 200

abbrev recovering : Endpoint
recovering = record { answer = status_at; cancelled = λ i. false }

abbrev silent : Endpoint
silent = record { answer = λ i. none; cancelled = λ i. false }

abbrev no_mac : Bytes → Bytes → Bytes
no_mac body secret = codes "00"

early_fails : (i : ℕ) → i < 2 → is_success (status_at i) ≡ false
unfolding is_success
early_fails zero h = refl
early_fails (suc zero) h = refl
early_fails (suc (suc i)) h = ground arith

deliver-succeeds_example :
    let (o, log) = deliver recovering no_mac (codes "secret") (codes "{}") (pos 3) in
    (o ≡ delivered) × (tries log ≡ 3)
unfolding is_success
deliver-succeeds_example =
    deliver-succeeds recovering no_mac (codes "secret") (codes "{}") 3 2 (λ i. refl) (omega arith)
      early_fails refl

-- 1 + 2 + 4 seconds
deliver-exhausts_example :
    let (o, log) = deliver silent no_mac [] (codes "{}") (pos 3) in
    (o ≡ exhausted) × (tries log ≡ 4) × (waits log ≡ pos 7000000000)
unfolding is_success
deliver-exhausts_example =
    deliver-exhausts silent no_mac [] (codes "{}") 3 (λ i. refl) (λ i h. refl) (omega arith)
