-- ===== src/Queue/Conservation.antt =====
-- How many copies of a job's text the queue and the processing list hold together.
use vaultkey.Prelude.{
  ℕ, suc, ◌+◌, ◌<◌, ◌≡◌, refl, sym, ap, ◌∙◌, ◌&&◌, not, some, none, Option, List, [], ◌∷◌, ◌++◌,
  inl, inr, Bool-cases, Option-cases, Bytes, bytes_eq, bytes_eq_sound, if◌then◌else◌, arith,
}
use vaultkey.Queue.Redis.{
  Job, Lists, ListStore, Codec, queue_key, processing_key, dlq_key, last?, but_last, pop_push,
  remove_first,
}
use vaultkey.Queue.{
  Faults, rpush_command, lrem_command, brpoplpush_command, lpush_command, dequeue, popped, unpacked,
  push_dead, requeue,
}

abbrev pub count : Bytes → List Bytes → ℕ
count e [] = 0
count e (x ∷ xs) = let rest = count e xs in if bytes_eq x e then suc rest else rest

abbrev pub held : Bytes → Lists → ℕ
held e l = count e l.jobs + count e l.processing

count-append : (e x : Bytes) (xs : List Bytes) → count e (xs ++ (x ∷ [])) ≡ count e (x ∷ xs)
count-append e x [] = refl
count-append e x (y ∷ xs) = ground (arith, count-append e x xs)

count-but_last :
    (e x : Bytes) (xs : List Bytes) → last? xs ≡ some x → count e (x ∷ but_last xs) ≡ count e xs
count-but_last e x [] h = cc
count-but_last e x (y ∷ []) h = ground arith
count-but_last e x (y ∷ z ∷ xs) h = ground (arith, count-but_last e x (z ∷ xs) h)

held-pop_push : (e : Bytes) (l : Lists) → held e (pop_push queue_key processing_key l) ≡ held e l
held-pop_push e l = elim (Option-cases (last? l.jobs)) [
  | inl h ↦ rw (h, pop_push) refl
  | inr (x, h) ↦ rw (h, pop_push) (ground (arith, count-but_last e x l.jobs h))
]

-- Removing a text that is there takes one copy of it and of no other.
count-remove_first :
    (e x : Bytes) (xs : List Bytes)
    → 0 < count x xs
    → count e (remove_first x xs) + (if bytes_eq x e then 1 else 0) ≡ count e xs
unfolding remove_first
count-remove_first e x [] h = elim h [ ]
count-remove_first e x (y ∷ xs) h = elim (Bool-cases (bytes_eq y x)) [
  | inl hit ↦
      let same : bytes_eq x e ≡ bytes_eq y e =
        ap (λ t. bytes_eq t e) (sym (bytes_eq_sound y x hit)) in
      rw hit (ground (arith, same))
  | inr miss ↦ rw miss (ground (arith, count-remove_first e x xs))
]

module _ (redis : ListStore) (codec : Codec) where
  open redis use {
    State, lists, rpush, lpush, lrem, brpoplpush, lists-rpush, lists-lpush, lists-lrem,
    brpoplpush_value, lists-brpoplpush,
  }
  open codec use {encode, decode}

  held-push_dead :
      (faults : Faults) (text e : Bytes) (s : State)
      → held e (lists (push_dead redis codec faults text s).1) ≡ held e (lists s)
  unfolding push_dead
  held-push_dead faults text e s = elim (Bool-cases (faults lpush_command)) [
    | inl h ↦ rw h refl
    | inr h ↦ rw h (ap (held e) (lists-lpush dlq_key text s))
  ]

  held-popped :
      (faults : Faults) (text : Option Bytes) (e : Bytes) (s : State)
      → held e (lists (popped redis codec faults text s).1) ≡ held e (lists s)
  unfolding popped unpacked
  held-popped faults none e s = refl
  held-popped faults (some text) e s = elim (Option-cases (decode text)) [
    | inl h ↦ rw (h, unpacked) (held-push_dead faults text e s)
    | inr (job, h) ↦ rw (h, unpacked) refl
  ]

  -- A dequeue loses no text and makes none, whatever fails: what leaves the queue is in the
  -- processing list, also a text that is no job.
  pub held-dequeue :
      (faults : Faults) (e : Bytes) (s : State)
      → held e (lists (dequeue redis codec faults s).1) ≡ held e (lists s)
  unfolding dequeue
  held-dequeue faults e s = elim (Bool-cases (faults brpoplpush_command)) [
    | inl h ↦ rw h refl
    | inr h ↦ rw h (
        held-popped faults _ e _
        ∙ ap (held e) (lists-brpoplpush queue_key processing_key s)
        ∙ held-pop_push e (lists s))
  ]

  -- A requeue of a job that is in flight keeps every text as often as it was, but for the job itself
  -- where LREM succeeds and RPUSH fails: then one copy of the job is gone.
  pub held-requeue :
      (faults : Faults) (job : Job) (e : Bytes) (s : State)
      → 0 < count (encode job) (lists s).processing
      → held e (lists (requeue redis codec faults job s).1)
          + (if not (faults lrem_command) && faults rpush_command && bytes_eq (encode job) e
              then 1
              else 0)
        ≡ held e (lists s)
  unfolding requeue
  held-requeue faults job e s h =
      let text = encode job in
      let s1 = lrem processing_key text s in
      let removed = lists-lrem processing_key text s in
      let pushed = lists-rpush queue_key text s1 in
      let counted = count-remove_first e text (lists s).processing h in
      elim (Bool-cases (faults lrem_command)) [
        | inl down ↦ rw down (omega arith)
        | inr up ↦ elim (Bool-cases (faults rpush_command)) [
          | inl lost ↦ rw (up, lost) (rw removed (omega arith))
          | inr kept ↦
              rw (up, kept)
                (rw (pushed, removed) (ground (arith, count-append e text (lists s).jobs)))
        ]
      ]
