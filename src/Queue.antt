-- ===== src/Queue.antt =====
-- internal/queue/queue.go: the job queue on three Redis lists. `Faults` says which commands fail.
pub mod Redis
pub mod Order
pub mod Conservation
pub mod Recovery
mod Tests
use vaultkey.Prelude.{ℕ, suc, ◌+◌, Bool, Option, none, some, List, [], ◌∷◌, Bytes, if◌then◌else◌}
use Redis.{Job, ListStore, Codec, ListKey, queue_key, processing_key, dlq_key}

pub data Command : Type 0 where
  rpush_command brpoplpush_command lrem_command lpush_command lrange_command : Command

abbrev pub Faults : Type 0
Faults = Command → Bool

pub data Result {ℓ} (A : Type ℓ) : Type ℓ where
  ok : A → Result A
  failed : Command → Result A

module _ (redis : ListStore) (codec : Codec) where
  open redis use {State, rpush, lpush, lrem, brpoplpush, lrange}
  open codec use {encode, decode, dead_letter}

  abbrev pub Outcome : Type 0 → Type 0
  Outcome A = Result A × State

  unfoldable pub enqueue : Faults → Job → State → Outcome (Unit {0})
  enqueue faults job s =
      if faults rpush_command
      then (failed rpush_command, s)
      else (ok tt, rpush queue_key (encode job) s)

  -- `moveToDLQ`
  push_dead : Faults → Bytes → State → Outcome (Unit {0})
  push_dead faults text s =
      if faults lpush_command then (failed lpush_command, s) else (ok tt, lpush dlq_key text s)

  -- A text that is no job goes to the dead letters, whether or not that succeeds.
  unpacked : Faults → Bytes → Option Job → State → Outcome (Option Job)
  unfolding push_dead
  unpacked faults text none s = (ok none, (push_dead faults text s).1)
  unpacked faults text (some job) s = (ok (some job), s)

  popped : Faults → Option Bytes → State → Outcome (Option Job)
  unfolding unpacked
  popped faults none s = (ok none, s)
  popped faults (some text) s = unpacked faults text (decode text) s

  pub dequeue : Faults → State → Outcome (Option Job)
  unfolding popped
  dequeue faults s =
      let (text, s') = brpoplpush queue_key processing_key s in
      if faults brpoplpush_command then (failed brpoplpush_command, s) else popped faults text s'

  pub acknowledge : Faults → Job → State → Outcome (Unit {0})
  acknowledge faults job s =
      if faults lrem_command
      then (failed lrem_command, s)
      else (ok tt, lrem processing_key (encode job) s)

  pub move_to_dlq : Faults → Job → Bytes → ℕ → State → Outcome (Unit {0})
  unfolding push_dead
  move_to_dlq faults job reason time s = push_dead faults (dead_letter job reason time) s

  pub requeue : Faults → Job → State → Outcome (Unit {0})
  requeue faults job s =
      if faults lrem_command
      then (failed lrem_command, s)
      else (let s' = lrem processing_key (encode job) s in
          if faults rpush_command
          then (failed rpush_command, s')
          else (ok tt, rpush queue_key (encode job) s'))

  recovered_one : Result (Unit {0}) → ℕ → ℕ
  recovered_one (ok _) n = n + 1
  recovered_one (failed _) n = n

  recover_item : Faults → Option Job → ℕ → State → ℕ × State
  unfolding recovered_one
  recover_item faults none n s = (n, s)
  recover_item faults (some job) n s = let (r, s') = requeue faults job s in (recovered_one r n, s')

  -- The loop over the items that LRANGE returned; each round has faults of its own.
  recover_items : (ℕ → Faults) → List Bytes → ℕ → ℕ → State → ℕ × State
  unfolding recover_item
  recover_items faults [] i n s = (n, s)
  recover_items faults (text ∷ texts) i n s =
      let (n', s') = recover_item (faults i) (decode text) n s in
      recover_items faults texts (suc i) n' s'

  -- `RecoverStalled`; its maximal age is not used by the code.
  pub recover_stalled : Faults → (ℕ → Faults) → State → Outcome ℕ
  unfolding recover_items
  recover_stalled faults later s =
      let (n, s') = recover_items later (lrange processing_key s) 0 0 s in
      if faults lrange_command then (failed lrange_command, s) else (ok n, s')
