-- ===== src/Submit/Idempotence.antt =====
-- internal/api/handlers/handlers.go: requests with one idempotency key, and the worker between them.
use vaultkey.Prelude.{
  ℕ, ◌≡◌, refl, ap, ◌∙◌, Bool, ◌&&◌, ◌==◌, some, List, [], ◌∷◌, Bytes, bytes_eq, bytes_eq_sound,
  Bool-cases, Option-cases, inl, inr, if◌then◌else◌, arith, All,
}
use vaultkey.Store.Wallets.{get_wallet}
use vaultkey.Queue.Redis.{Job, ListStore, Codec}
use vaultkey.Queue.{Result, ok, failed}
use vaultkey.Worker.Jobs.{SigningJob, NewJob}
use vaultkey.Worker.Tables.{World, Signer, Round, wallet_of}
use vaultkey.Worker.Keeps.{process_job-keeps}
use vaultkey.Worker.{process_job}
use vaultkey.Submit.Keys.{keyed, keyed-mark, create-keyed, created-keyed, create-keeps}
use vaultkey.Submit.{
  Reply, not_found, bad_request, create_failed, enqueue_failed, accepted, existing, Body, Visit,
  is_taken, enqueue_reply, request, enqueue_job, create_and_enqueue, with_body, with_wallet,
  submit_job, key_or_null, has_payload,
}

-- What a reply says of a job: an error names none.
abbrev pub Names : ℕ → Reply → Type 0
Names i not_found = Unit
Names i bad_request = Unit
Names i create_failed = Unit
Names i enqueue_failed = Unit
Names i (accepted j) = j ≡ i
Names i (existing j s) = j ≡ i

abbrev pub is_about : ℕ → Bytes → ℕ → Body → Bool
is_about project k owner b = owner == project && bytes_eq b.idempotency_key k

-- A key that is not empty.
abbrev pub IsText : Bytes → Type 0
IsText [] = ⊥
IsText (c ∷ k) = Unit

key_or_null-IsText : (k : Bytes) → IsText k → key_or_null k ≡ some k
unfolding key_or_null
key_or_null-IsText [] h = elim h [ ]
key_or_null-IsText (c ∷ k) h = refl

module _ (redis : ListStore) (codec : Codec) (signer : Signer) where
  abbrev Here : Type 0
  Here = World redis.State signer.Env

  -- What reaches the tables: requests, and workers.
  pub data Event : Type 0 where
    submits : Visit → ℕ → ℕ → Bytes → Body → Event
    works : Round → Job → Event

  -- The replies to the requests of a project with key `k`, among all that happens.
  pub replies : ℕ → Bytes → List Event → Here → List Reply
  replies project k [] w = []
  replies project k (submits v owner wallet operation b ∷ es) w =
      let (r, w') = submit_job redis codec signer v owner wallet operation (some b) w in
      let rest = replies project k es w' in if is_about project k owner b then r ∷ rest else rest
  replies project k (works r q ∷ es) w =
      replies project k es (process_job redis codec signer r q w).1

  enqueue_job-jobs :
      (v : Visit) (n : NewJob) (job : SigningJob) (w : Here)
      → (enqueue_job redis codec signer v n job w).1.jobs ≡ w.jobs
  unfolding enqueue_job
  enqueue_job-jobs v n job w = elim (Bool-cases (is_taken job.status)) [
    | inl e ↦ simp e
    | inr e ↦ simp e
  ]

  enqueue_reply-Names : (i j : ℕ) (r : Result (Unit {0})) → j ≡ i → Names i (enqueue_reply j r)
  unfolding enqueue_reply
  enqueue_reply-Names i j (ok u) h = h
  enqueue_reply-Names i j (failed c) h = tt

  enqueue_reply-accepted :
      (i j : ℕ) (r : Result (Unit {0})) → enqueue_reply j r ≡ accepted i → j ≡ i
  unfolding enqueue_reply
  enqueue_reply-accepted i j (ok u) h = cc
  enqueue_reply-accepted i j (failed c) h = absurd (cc)

  enqueue_job-accepted :
      (v : Visit) (n : NewJob) (job : SigningJob) (w : Here) (i : ℕ)
      → (enqueue_job redis codec signer v n job w).0 ≡ accepted i
      → job.id ≡ i
  unfolding enqueue_job
  enqueue_job-accepted v n job w i = elim (Bool-cases (is_taken job.status)) [
    | inl e ↦ simp e (λ h. absurd (cc h))
    | inr e ↦ simp e (λ h. enqueue_reply-accepted i job.id _ h)
  ]

  enqueue_job-Names :
      (v : Visit) (n : NewJob) (job : SigningJob) (w : Here) (i : ℕ)
      → job.id ≡ i
      → Names i (enqueue_job redis codec signer v n job w).0
  unfolding enqueue_job
  enqueue_job-Names v n job w i h = elim (Bool-cases (is_taken job.status)) [
    | inl e ↦ simp e h
    | inr e ↦ simp e (enqueue_reply-Names i job.id _ h)
  ]

  create_and_enqueue-keeps :
      (project : ℕ) (k : Bytes) (i : ℕ) (v : Visit) (n : NewJob) (w : Here)
      → keyed project k w.jobs ≡ some i
      → keyed project k (create_and_enqueue redis codec signer v n w).1.jobs ≡ some i
  unfolding create_and_enqueue
  create_and_enqueue-keeps project k i v n w h = elim (Bool-cases v.insert_fails) [
    | inl e ↦ simp e h
    | inr e ↦
        simp e (
          ap (keyed project k) (enqueue_job-jobs v n _ _)
          ∙ create-keeps project k v.id i n w.jobs h)
  ]

  create_and_enqueue-Names :
      (k : Bytes) (i : ℕ) (v : Visit) (n : NewJob) (w : Here)
      → n.key ≡ some k
      → keyed n.project k w.jobs ≡ some i
      → Names i (create_and_enqueue redis codec signer v n w).0
  unfolding create_and_enqueue
  create_and_enqueue-Names k i v n w q h = elim (Bool-cases v.insert_fails) [
    | inl e ↦ simp e tt
    | inr e ↦ simp e (enqueue_job-Names v n _ _ i (create-keyed v.id i n k w.jobs q h).0)
  ]

  -- A request that is accepted leaves its key with the job that the reply names.
  create_and_enqueue-accepted :
      (k : Bytes) (i : ℕ) (v : Visit) (n : NewJob) (w : Here)
      → n.key ≡ some k
      → (create_and_enqueue redis codec signer v n w).0 ≡ accepted i
      → keyed n.project k (create_and_enqueue redis codec signer v n w).1.jobs ≡ some i
  unfolding create_and_enqueue
  create_and_enqueue-accepted k i v n w q = elim (Bool-cases v.insert_fails) [
    | inl e ↦ simp e (λ h. absurd (cc h))
    | inr e ↦ simp e (λ h.
        ap (keyed n.project k) (enqueue_job-jobs v n _ _)
        ∙ created-keyed v.id n k w.jobs q
        ∙ ap some (enqueue_job-accepted v n _ _ i h))
  ]

  -- How a request with a body that can be read may end.
  submit_job-cases :
      (Q : Reply × Here → Type 0) (v : Visit) (owner wallet : ℕ) (operation : Bytes) (b : Body)
      (w : Here)
      → Q (not_found, w)
      → Q (bad_request, w)
      → ((id : ℕ) → Q (create_and_enqueue redis codec signer v (request owner id operation b) w))
      → Q (submit_job redis codec signer v owner wallet operation (some b) w)
  unfolding submit_job with_wallet with_body
  submit_job-cases Q v owner wallet operation b w missing bad made =
      let found = wallet_of v.wallet_fails (get_wallet wallet owner (signer.wallets w.env)) in
      elim (Option-cases found) [
        | inl e ↦ rw e missing
        | inr (wlt, e) ↦ rw e (elim (Bool-cases (has_payload b.payload)) [
          | inl p ↦ rw p (made wlt.id)
          | inr p ↦ rw p bad
        ])
      ]

  replies-keyed :
      (project i : ℕ) (k : Bytes) (es : List Event) (w : Here)
      → keyed project k w.jobs ≡ some i
      → IsText k
      → All (Names i) (replies project k es w)
  unfolding replies request key_or_null
  replies-keyed project i k [] w h t = tt
  replies-keyed project i k (works r q ∷ es) w h t =
      replies-keyed project i k es _
        (process_job-keeps redis codec signer (λ rows. keyed project k rows ≡ some i) r q w
          (λ job e open_yet m rows h. keyed-mark project k job.id m rows ∙ h) h)
        t
  replies-keyed project i k (submits v owner wallet operation b ∷ es) w h t =
      let kept =
        submit_job-cases (λ x. keyed project k x.1.jobs ≡ some i) v owner wallet operation b w h h
          (λ id. create_and_enqueue-keeps project k i v (request owner id operation b) w h) in
      elim (Bool-cases (is_about project k owner b)) [
        | inl mine ↦ rw mine (
          submit_job-cases (λ x. Names i x.0) v owner wallet operation b w tt tt
              (λ id.
                let same : owner ≡ project = ground arith in
                let same_key : b.idempotency_key ≡ k =
                  bytes_eq_sound b.idempotency_key k (ground arith) in
                create_and_enqueue-Names k i v (request owner id operation b) w
                  (ap key_or_null same_key ∙ key_or_null-IsText k t) (rw same h)),
          replies-keyed project i k es _ kept t,
        )
        | inr other ↦ rw other (replies-keyed project i k es _ kept t)
      ]

  -- After a request with a key was accepted as job `i`, whatever the workers do and whatever fails, no
  -- reply to a request of the project with that key names another job.
  pub replies-name :
      (v : Visit) (project wallet i : ℕ) (operation : Bytes) (b : Body) (es : List Event) (w : Here)
      → IsText b.idempotency_key
      → (submit_job redis codec signer v project wallet operation (some b) w).0 ≡ accepted i
      → All (Names i) (
          replies project b.idempotency_key es
            (submit_job redis codec signer v project wallet operation (some b) w).1)
  unfolding request key_or_null
  replies-name v project wallet i operation b es w t h =
      replies-keyed project i b.idempotency_key es _
        (submit_job-cases
          (λ x. x.0 ≡ accepted i → keyed project b.idempotency_key x.1.jobs ≡ some i) v project
          wallet operation b w (λ e. absurd (cc e)) (λ e. absurd (cc e))
          (λ id e.
            create_and_enqueue-accepted b.idempotency_key i v (request project id operation b) w
              (key_or_null-IsText b.idempotency_key t) e)
          h)
        t
