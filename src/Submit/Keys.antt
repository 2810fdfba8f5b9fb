-- ===== src/Submit/Keys.antt =====
-- Which job has an idempotency key of a project: creation and marks.
use vaultkey.Prelude.{
  ℕ, ◌≡◌, refl, sym, ap, ◌∙◌, true, ◌&&◌, ◌==◌, none, some, Option, List, [], ◌∷◌, Bytes, bytes_eq,
  bytes_eq_sound, bytes_eq_refl, Bool-cases, Option-cases, inl, inr, arith, subst,
}
use vaultkey.Worker.Jobs.{
  SigningJob, NewJob, find_key, is_key, conflicting, create_signing_job, keep_or_insert, fresh_row,
  set_where, mark_processing, mark_completed, mark_failed, mark_dead, mark_webhook,
}
use vaultkey.Worker.Keeps.{
  Mark, to_processing, to_completed, to_failed, to_dead, to_webhook, apply_mark,
}

abbrev pub id_of : Option SigningJob → Option ℕ
id_of none = none
id_of (some row) = some row.id

-- The job that has key `k` in the project.
abbrev pub keyed : ℕ → Bytes → List SigningJob → Option ℕ
keyed project k rows = id_of (find_key project k rows)

same_identity :
    (m : Mark) (row : SigningJob)
    → ((apply_mark m row).id ≡ row.id)
      × ((apply_mark m row).project ≡ row.project)
      × ((apply_mark m row).idempotency_key ≡ row.idempotency_key)
unfolding mark_processing mark_completed mark_failed mark_dead mark_webhook
same_identity to_processing row = (refl, refl, refl)
same_identity (to_completed e) row = (refl, refl, refl)
same_identity (to_failed e) row = (refl, refl, refl)
same_identity (to_dead e) row = (refl, refl, refl)
same_identity (to_webhook ws) row = (refl, refl, refl)

-- A mark of any job leaves the row with the key in its place.
pub keyed-mark :
    (project : ℕ) (k : Bytes) (j : ℕ) (m : Mark) (rows : List SigningJob)
    → keyed project k (set_where j (apply_mark m) rows) ≡ keyed project k rows
unfolding find_key set_where
keyed-mark project k j m [] = refl
keyed-mark project k j m (r ∷ rows) =
    let (a, b, c) = same_identity m r in
    elim (Bool-cases (r.id == j)) [
      | inl e ↦ rw e (rw (b, c) (ground (arith, a)))
      | inr e ↦ rw e (ground (arith, keyed-mark project k j m rows))
    ]

-- Where the key is taken, the row that has it is returned and none is added.
pub create-keyed :
    (id i : ℕ) (n : NewJob) (k : Bytes) (rows : List SigningJob)
    → n.key ≡ some k
    → keyed n.project k rows ≡ some i
    → ((create_signing_job id n rows).0.id ≡ i) × ((create_signing_job id n rows).1 ≡ rows)
unfolding create_signing_job conflicting keep_or_insert
create-keyed id i n k rows q h = elim (Option-cases (find_key n.project k rows)) [
  | inl e ↦ absurd (cc)
  | inr (row, e) ↦ simp (q, e) (cc, refl)
]

is_key_self : (k : Bytes) → is_key k (some k) ≡ true
unfolding is_key
is_key_self k = bytes_eq_refl k

-- Where it is free, the new row takes it.
create-free :
    (id : ℕ) (n : NewJob) (k : Bytes) (rows : List SigningJob)
    → n.key ≡ some k
    → keyed n.project k rows ≡ none
    → ((create_signing_job id n rows).0.id ≡ id)
      × (keyed n.project k (create_signing_job id n rows).1 ≡ some id)
unfolding create_signing_job conflicting keep_or_insert find_key fresh_row
create-free id n k rows q h = elim (Option-cases (find_key n.project k rows)) [
  | inl e ↦ simp (q, e) (refl, ground (arith, is_key_self k, q))
  | inr (row, e) ↦ absurd (cc)
]

pub created-keyed :
    (id : ℕ) (n : NewJob) (k : Bytes) (rows : List SigningJob)
    → n.key ≡ some k
    → keyed n.project k (create_signing_job id n rows).1 ≡ some (create_signing_job id n rows).0.id
created-keyed id n k rows q = elim (Option-cases (keyed n.project k rows)) [
  | inl e ↦ let (a, b) = create-free id n k rows q e in b ∙ ap some (sym a)
  | inr (i, e) ↦
      let (a, b) = create-keyed id i n k rows q e in ap (keyed n.project k) b ∙ e ∙ ap some (sym a)
]

-- A key that is taken stays with its job, whatever is created.
pub create-keeps :
    (project : ℕ) (k : Bytes) (id i : ℕ) (n : NewJob) (rows : List SigningJob)
    → keyed project k rows ≡ some i
    → keyed project k (create_signing_job id n rows).1 ≡ some i
unfolding create_signing_job keep_or_insert
create-keeps project k id i n rows h = elim (Option-cases (conflicting n.project n.key rows)) [
  | inr (row, e) ↦ rw e h
  | inl e ↦ rw e (elim (Bool-cases (n.project == project && is_key k n.key)) [
    | inl mine ↦ absurd (clash project k i n.key n.project rows h e mine)
    | inr other ↦ unfold find_key fresh_row in rw other h
  ])
]
  where
    clash :
        (project : ℕ) (k : Bytes) (i : ℕ) (key : Option Bytes) (owner : ℕ) (rows : List SigningJob)
        → keyed project k rows ≡ some i
        → conflicting owner key rows ≡ none
        → (owner == project && is_key k key) ≡ true
        → ⊥
    clash project k i none owner rows h e mine = absurd (unfold is_key in ground arith)
    clash project k i (some j) owner rows h e mine =
        let mine' : (owner == project && bytes_eq j k) ≡ true = unfold is_key in mine in
        let same : owner ≡ project = ground arith in
        let same_key : j ≡ k = bytes_eq_sound j k (ground arith) in
        let free : find_key project k rows ≡ none =
          unfold conflicting in
          subst (λ p. find_key p k rows ≡ none) same
            (subst (λ c. find_key owner c rows ≡ none) same_key e) in
        cc
