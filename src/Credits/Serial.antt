-- ===== src/Credits/Serial.antt =====
-- internal/credits/credits.go: debits whose transactions overlap, against one call after the other.
use vaultkey.Prelude.{
  ℕ, true, false, List, [], ◌∷◌, ◌==◌, ◌≡◌, ◌≢◌, refl, sym, ap, ◌∙◌, arith, Bool-cases, inl, inr,
  subst,
}
use vaultkey.Prelude.Int.{ℤ}
use vaultkey.Credits.Tables.{Accounts, Result, ok, err, begin_stmt}
use vaultkey.Credits.{lock_or_create, is_zero}
use vaultkey.Credits.Relocking.{lock_or_create_again, write-Keeps, write-charge}
use vaultkey.Credits.Sessions.{
  Session, Phase, fresh, ended, holding, State, Event, locks, writes, set_at, with_row, org_of,
  after_lock, ask, write, end, step, run, add_if_holding, served, charge_all, start,
}

module _ (job : ℕ → Session) where
  -- A session that holds its row would lock it again and read the same balance.
  record IsHeld (i : ℕ) (c : ℤ) (s : State) : Type 0 where
    locked : s.lock (org_of job i) ≡ true
    begun : (job i).faults begin_stmt ≡ false
    read :
        lock_or_create (job i).faults (org_of job i) s.tables
        ≡ (ok c, with_row (org_of job i) s.tables)

  -- Each row is held by one session at most.
  record IsLocked (s : State) : Type 0 where
    held : (i : ℕ) (c : ℤ) → s.phase i ≡ holding c → IsHeld i c s
    alone :
        (i j : ℕ) (c d : ℤ)
        → s.phase i ≡ holding c
        → s.phase j ≡ holding d
        → org_of job i ≡ org_of job j
        → i ≡ j

  -- Nothing but a phase that holds nothing changes.
  ended-IsLocked :
      (i : ℕ) (s : State) → IsLocked s → IsLocked (record s { phase = set_at i ended s.phase })
  unfolding set_at
  ended-IsLocked i s v = record {
    held = λ j c e.
        let h = v.held j c (ground arith) in
        record { locked = h.locked; begun = h.begun; read = h.read };
    alone = λ j k c d p q. v.alone j k c d (ground arith) (ground arith);
  }

  new_held :
      (i : ℕ) (s : State) (c : ℤ) (t : Accounts)
      → s.lock (org_of job i) ≡ false
      → (job i).faults begin_stmt ≡ false
      → lock_or_create (job i).faults (org_of job i) s.tables ≡ (ok c, t)
      → IsHeld i c (after_lock job i (ok c) s)
  unfolding after_lock set_at
  new_held i s c t unlocked begun eq = record {
    locked = ground arith;
    begun = begun;
    read = lock_or_create_again (job i).faults (org_of job i) s.tables t s.tables c refl eq;
  }

  -- A row that is not locked is held by no session.
  free_row :
      (i k : ℕ) (f : ℤ) (s : State)
      → s.lock (org_of job i) ≡ false
      → org_of job i ≡ org_of job k
      → s.phase k ≡ holding f
      → ¬ IsLocked s
  free_row i k f s unlocked same e v =
      let l = (v.held k f e).locked in
      let l' : s.lock (org_of job i) ≡ true = ap s.lock same ∙ l in cc

  after_lock-IsLocked :
      (i : ℕ) (s : State) (x : Result ℤ × Accounts)
      → s.lock (org_of job i) ≡ false
      → (job i).faults begin_stmt ≡ false
      → lock_or_create (job i).faults (org_of job i) s.tables ≡ x
      → IsLocked s
      → IsLocked (after_lock job i x.0 s)
  unfolding after_lock set_at
  after_lock-IsLocked i s (err e, t) unlocked begun eq v = ended-IsLocked i s v
  after_lock-IsLocked i s (ok c, t) unlocked begun eq v = record {
    held = λ j d e. elim (Bool-cases (i == j)) [
      | inl same ↦
          let at : i ≡ j = ground arith in
          let here : c ≡ d = ground arith in
          subst (λ k. IsHeld k d (after_lock job i (ok c) s)) at
            (subst (λ x. IsHeld i x (after_lock job i (ok c) s)) here
              (new_held i s c t unlocked begun eq))
      | inr other ↦
          let h = v.held j d (ground arith) in
          record { locked = ground (arith, h.locked); begun = h.begun; read = h.read }
    ];
    alone = λ j k d f p q same. elim (Bool-cases (i == j)) [
      | inl at_j ↦ elim (Bool-cases (i == k)) [
        | inl at_k ↦ ground arith
        | inr not_k ↦
            absurd
              (free_row i k f s unlocked (ap (org_of job) (ground arith) ∙ same) (ground arith) v)
      ]
      | inr not_j ↦ elim (Bool-cases (i == k)) [
        | inl at_k ↦
            absurd (
              free_row i j d s unlocked (ap (org_of job) (ground arith) ∙ sym same) (ground arith)
                v)
        | inr not_k ↦ v.alone j k d f (ground arith) (ground arith) same
      ]
    ];
  }

  ask-IsLocked :
      (i : ℕ) (p : Phase) (s : State) → s.phase i ≡ p → IsLocked s → IsLocked (ask job i p s)
  unfolding ask
  ask-IsLocked i fresh s e v = elim (Bool-cases (s.lock (org_of job i))) [
    | inl taken ↦ rw taken v
    | inr unlocked ↦ elim (Bool-cases ((job i).faults begin_stmt)) [
      | inl failed ↦ rw (unlocked, failed) (ended-IsLocked i s v)
      | inr begun ↦
          rw (unlocked, begun)
            (after_lock-IsLocked i s (lock_or_create (job i).faults (org_of job i) s.tables)
              unlocked begun refl v)
    ]
  ]
  ask-IsLocked i ended s e v = v
  ask-IsLocked i (holding c) s e v = v

  after_lock-tables : (i : ℕ) (r : Result ℤ) (s : State) → (after_lock job i r s).tables ≡ s.tables
  unfolding after_lock
  after_lock-tables i (err e) s = refl
  after_lock-tables i (ok c) s = refl

  ask-tables : (i : ℕ) (p : Phase) (s : State) → (ask job i p s).tables ≡ s.tables
  unfolding ask
  ask-tables i fresh s = elim (Bool-cases (s.lock (org_of job i))) [
    | inl taken ↦ rw taken refl
    | inr unlocked ↦ elim (Bool-cases ((job i).faults begin_stmt)) [
      | inl failed ↦ rw (unlocked, failed) refl
      | inr begun ↦
          rw (unlocked, begun)
            (after_lock-tables i (lock_or_create (job i).faults (org_of job i) s.tables).0 s)
    ]
  ]
  ask-tables i ended s = refl
  ask-tables i (holding c) s = refl

  end-IsLocked :
      (i : ℕ) (p : Phase) (s : State) → s.phase i ≡ p → IsLocked s → IsLocked (end job i p s)
  unfolding end set_at
  end-IsLocked i fresh s e v = v
  end-IsLocked i ended s e v = v
  end-IsLocked i (holding c) s e v = record {
    held = λ j d q.
        let h = v.held j d (ground arith) in
        let apart : org_of job i ≢ org_of job j =
          λ same. let at = v.alone i j c d e (ground arith) same in ground arith in
        record {
          locked = ground (arith, h.locked);
          begun = h.begun;
          read =
              lock_or_create_again (job j).faults (org_of job j) s.tables
                (with_row (org_of job j) s.tables) (write job i c s.tables).1 d
                (write-Keeps job i (org_of job j) c apart s.tables) h.read;
        };
    alone = λ j k d f p q. v.alone j k d f (ground arith) (ground arith);
  }

  module _ (paid : (i : ℕ) → is_zero (job i).cost ≡ false) where
    writes-serial :
        (es : List Event) (i : ℕ) (p : Phase) (s : State)
        → ((t : State)
            → IsLocked t
            → (run job es t).tables ≡ charge_all job (served job es t) t.tables)
        → s.phase i ≡ p
        → IsLocked s
        → (run job es (end job i p s)).tables
          ≡ charge_all job (add_if_holding i p (served job es (end job i p s))) s.tables
    unfolding add_if_holding end charge_all
    writes-serial es i fresh s rest e v = rest s v
    writes-serial es i ended s rest e v = rest s v
    writes-serial es i (holding c) s rest e v =
        let h = v.held i c e in
        rest (end job i (holding c) s) (end-IsLocked i (holding c) s e v)
        ∙ ap (λ t. charge_all job (served job es (end job i (holding c) s)) t.1)
            (write-charge job i c s.tables (paid i) h.begun h.read)

    run-serial :
        (es : List Event) (s : State)
        → IsLocked s
        → (run job es s).tables ≡ charge_all job (served job es s) s.tables
    unfolding run served charge_all step
    run-serial [] s v = refl
    run-serial (locks i ∷ es) s v =
        run-serial es (ask job i (s.phase i) s) (ask-IsLocked i (s.phase i) s refl v)
        ∙ ap (charge_all job (served job es (ask job i (s.phase i) s))) (ask-tables i (s.phase i) s)
    run-serial (writes i ∷ es) s v =
        writes-serial es i (s.phase i) s (λ t w. run-serial es t w) refl v

start-IsLocked : (job : ℕ → Session) (t : Accounts) → IsLocked job (start t)
unfolding start
start-IsLocked job t = record { held = λ i c e. cc; alone = λ i j c d e. cc }

-- Where every price is not zero, and a row lock is held to the end of its transaction: however the
-- statements of any number of debits interleave and fail, waiting for each other's rows, the tables
-- end as if the debits that wrote had been called one after the other, in the order of their writes.
pub run-charge_all :
    (job : ℕ → Session) (es : List Event) (t : Accounts)
    → ((i : ℕ) → is_zero (job i).cost ≡ false)
    → (run job es (start t)).tables ≡ charge_all job (served job es (start t)) t
unfolding start
run-charge_all job es t paid = run-serial job paid es (start t) (start-IsLocked job t)
