-- ===== src/Queue/Tests.antt =====
-- The queue over lists in memory, with a codec that writes a job's fields one after the other.
use vaultkey.Prelude.{
  ◌≡◌, refl, none, some, Option, [], ◌∷◌, Bytes, ℕ, ◌+◌, bytes_eq, true, false, codes, arith,
}
use vaultkey.Queue.Redis.{Job, Lists, Codec, in_memory}
use vaultkey.Queue.Order.{dequeue-enqueue}
use vaultkey.Queue.Conservation.{held, held-dequeue, held-requeue}
use vaultkey.Queue.Recovery.{no_faults, recover_stalled_all}
use vaultkey.Queue.{
  Faults, ok, rpush_command, lrem_command, brpoplpush_command, lpush_command, lrange_command,
  enqueue, dequeue, requeue, recover_stalled,
}

abbrev plain_encode : Job → Bytes
plain_encode j = j.id ∷ j.project ∷ j.wallet ∷ j.operation

abbrev plain_decode : Bytes → Option Job
plain_decode (a ∷ b ∷ c ∷ op) = some (record { id = a; project = b; wallet = c; operation = op })
plain_decode (a ∷ b ∷ []) = none
plain_decode (a ∷ []) = none
plain_decode [] = none

abbrev plain : Codec
plain = record {
  encode = plain_encode;
  decode = plain_decode;
  dead_letter = λ j reason t. t ∷ reason;
  decode-encode = λ j. refl;
}

abbrev signing : ℕ → Job
signing id = record { id = id; project = 10; wallet = 20; operation = codes "sign_tx_evm" }

abbrev waiting : Lists
waiting = record {
  jobs = plain_encode (signing 1) ∷ plain_encode (signing 2) ∷ [];
  processing = [];
  dlq = [];
}

abbrev in_flight : Lists
in_flight = record {
  jobs = [];
  processing = plain_encode (signing 3) ∷ plain_encode (signing 4) ∷ [];
  dlq = [];
}

abbrev push_fails : Faults
push_fails rpush_command = true
push_fails brpoplpush_command = false
push_fails lrem_command = false
push_fails lpush_command = false
push_fails lrange_command = false

-- Job 3 is enqueued behind jobs 1 and 2 and is served before them.
dequeue-enqueue_example :
    let (r, s') =
      dequeue in_memory plain no_faults (enqueue in_memory plain no_faults (signing 3) waiting).1 in
    (r ≡ ok (some (signing 3)))
    × (s' ≡ record {
      jobs = plain_encode (signing 1) ∷ plain_encode (signing 2) ∷ [];
      processing = plain_encode (signing 3) ∷ [];
      dlq = [];
    })
dequeue-enqueue_example =
    dequeue-enqueue in_memory plain no_faults no_faults (signing 3) waiting refl refl

held-dequeue_example :
    held (plain_encode (signing 2)) (dequeue in_memory plain no_faults waiting).1
    ≡ held (plain_encode (signing 2)) waiting
held-dequeue_example = held-dequeue in_memory plain no_faults (plain_encode (signing 2)) waiting

-- The push fails: job 3 is gone.
held-requeue_example :
    held (plain_encode (signing 3)) (requeue in_memory plain push_fails (signing 3) in_flight).1 + 1
    ≡ held (plain_encode (signing 3)) in_flight
unfolding bytes_eq
held-requeue_example =
    held-requeue in_memory plain push_fails (signing 3) (plain_encode (signing 3)) in_flight
      (omega arith)

recover_stalled_all_example :
    let (r, s') = recover_stalled in_memory plain no_faults (λ _. no_faults) in_flight in
    (r ≡ ok 2)
    × (s' ≡ record {
      jobs = plain_encode (signing 3) ∷ plain_encode (signing 4) ∷ [];
      processing = [];
      dlq = [];
    })
recover_stalled_all_example =
    recover_stalled_all in_memory plain (signing 3 ∷ signing 4 ∷ []) in_flight refl
