-- ===== src/Queue/Recovery.antt =====
-- `RecoverStalled` when Redis answers.
use vaultkey.Prelude.{
  ℕ, suc, ◌+◌, ◌≡◌, refl, ap, ◌∙◌, false, List, [], ◌∷◌, ◌++◌, append_assoc, append-nil, map,
  length, Bytes, bytes_eq_refl, arith,
}
use vaultkey.Queue.Redis.{Job, Lists, ListStore, Codec, queue_key, processing_key, remove_first}
use vaultkey.Queue.{
  Faults, ok, requeue, recover_item, recovered_one, recover_items, recover_stalled,
}

abbrev pub no_faults : Faults
no_faults c = false

remove_first_head : (e : Bytes) (xs : List Bytes) → remove_first e (e ∷ xs) ≡ xs
unfolding remove_first
remove_first_head e xs = rw (bytes_eq_refl e)

-- The lists after the jobs `texts` at the head of the processing list went back.
abbrev returned : List Bytes → List Bytes → Lists → Lists
returned texts rest l = record { jobs = l.jobs ++ texts; processing = rest; dlq = l.dlq }

returned_twice :
    (e : Bytes) (texts rest : List Bytes) (l : Lists)
    → returned texts [] (returned (e ∷ []) rest l) ≡ returned (e ∷ texts) [] l
returned_twice e texts rest l =
    ap (λ js. record { jobs = js; processing = []; dlq = l.dlq })
      (append_assoc l.jobs (e ∷ []) texts)

module _ (redis : ListStore) (codec : Codec) where
  open redis use {State, lists, rpush, lrem, lrange, lists-rpush, lists-lrem, lrange_value}
  open codec use {encode, decode, decode-encode}

  lists-requeue :
      (job : Job) (rest : List Bytes) (s : State)
      → (lists s).processing ≡ encode job ∷ rest
      → lists (requeue redis codec no_faults job s).1 ≡ returned (encode job ∷ []) rest (lists s)
  unfolding requeue
  lists-requeue job rest s h =
      lists-rpush queue_key (encode job) (lrem processing_key (encode job) s)
      ∙ rw (lists-lrem processing_key (encode job) s)
          (rw h (rw (remove_first_head (encode job) rest) refl))

  recover_items_all :
      (jobs : List Job) (i n : ℕ) (s : State)
      → (lists s).processing ≡ map encode jobs
      → let (m, s') = recover_items redis codec (λ _. no_faults) (map encode jobs) i n s in
        (m ≡ n + length jobs) × (lists s' ≡ returned (map encode jobs) [] (lists s))
  unfolding recover_items recover_item recovered_one requeue
  recover_items_all [] i n s h = (omega arith, ground (arith, append-nil (lists s).jobs))
  recover_items_all (job ∷ jobs) i n s h =
      let s1 = (requeue redis codec no_faults job s).1 in
      let moved = lists-requeue job (map encode jobs) s h in
      let ih = recover_items_all jobs (suc i) (n + 1) s1 (ap (λ l. l.processing) moved) in
      rw (decode-encode job, recover_items)
        (
          omega (arith, ih.0),
          ih.1
              ∙ ap (returned (map encode jobs) []) moved
              ∙ returned_twice (encode job) (map encode jobs) (map encode jobs) (lists s),
        )

  -- When Redis answers, recovery puts every job that is in flight back behind the queue, in order,
  -- empties the processing list, and returns their number.
  pub recover_stalled_all :
      (jobs : List Job) (s : State)
      → (lists s).processing ≡ map encode jobs
      → let (r, s') = recover_stalled redis codec no_faults (λ _. no_faults) s in
        (r ≡ ok (length jobs))
        × (lists s' ≡ record {
          jobs = (lists s).jobs ++ map encode jobs;
          processing = [];
          dlq = (lists s).dlq;
        })
  unfolding recover_stalled
  recover_stalled_all jobs s h =
      rw (lrange_value processing_key s ∙ h)
        (let ih = recover_items_all jobs 0 0 s h in (ap ok (ih.0 ∙ omega arith), ih.1))
