-- ===== src/Queue/Order.antt =====
-- The order in which jobs are served. RPUSH adds at the tail and BRPOPLPUSH takes from the tail.
use vaultkey.Prelude.{◌≡◌, refl, ap, ◌∙◌, false, some, List, [], ◌∷◌, ◌++◌, Bytes, arith}
use vaultkey.Queue.Redis.{
  Job, Lists, ListStore, Codec, queue_key, processing_key, last?, but_last, pop_push,
}
use vaultkey.Queue.{
  Faults, ok, rpush_command, brpoplpush_command, enqueue, dequeue, popped, unpacked,
}

last?-append : (xs : List Bytes) (e : Bytes) → last? (xs ++ (e ∷ [])) ≡ some e
last?-append [] e = refl
last?-append (x ∷ []) e = refl
last?-append (x ∷ y ∷ xs) e = last?-append (y ∷ xs) e

but_last-append : (xs : List Bytes) (e : Bytes) → but_last (xs ++ (e ∷ [])) ≡ xs
but_last-append [] e = refl
but_last-append (x ∷ []) e = refl
but_last-append (x ∷ y ∷ xs) e = ap (λ t. x ∷ t) (but_last-append (y ∷ xs) e)

pop_push-newest :
    (l : Lists) (xs : List Bytes) (e : Bytes)
    → l.jobs ≡ xs ++ (e ∷ [])
    → pop_push queue_key processing_key l
      ≡ record { jobs = xs; processing = e ∷ l.processing; dlq = l.dlq }
pop_push-newest l xs e h =
    let p = last?-append xs e in
    let q = but_last-append xs e in ground (arith, last?-append xs e, but_last-append xs e)

module _ (redis : ListStore) (codec : Codec) where
  open redis use {State, lists, rpush, brpoplpush, lists-rpush, brpoplpush_value, lists-brpoplpush}
  open codec use {encode, decode, decode-encode}

  -- A job that is enqueued is the next one served, in front of every job that waits already: the
  -- newest job goes first, and the older ones stay where they are.
  pub dequeue-enqueue :
      (faults later : Faults) (job : Job) (s : State)
      → faults rpush_command ≡ false
      → later brpoplpush_command ≡ false
      → let (r, s') = dequeue redis codec later (enqueue redis codec faults job s).1 in
        (r ≡ ok (some job))
        × (lists s' ≡ record {
          jobs = (lists s).jobs;
          processing = encode job ∷ (lists s).processing;
          dlq = (lists s).dlq;
        })
  unfolding dequeue enqueue popped
  dequeue-enqueue faults later job s h k =
      let text = encode job in
      let s1 = rpush queue_key text s in
      let tail : (lists s1).jobs ≡ (lists s).jobs ++ (text ∷ []) =
        ap (λ l. l.jobs) (lists-rpush queue_key text s) in
      let head =
        brpoplpush_value queue_key processing_key s1
        ∙ ap last? tail
        ∙ last?-append (lists s).jobs text in
      let moved =
        lists-brpoplpush queue_key processing_key s1
        ∙ pop_push-newest (lists s1) (lists s).jobs text tail in
      let same = lists-rpush queue_key text s in
      rw (h, k, head, popped) (rw (decode-encode job, unpacked) (refl, moved ∙ rw same))
