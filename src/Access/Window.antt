-- ===== src/Access/Window.antt =====
-- What the limiter answers over a sequence of requests of one project.
use vaultkey.Prelude.{
  ℕ, suc, ◌+◌, ◌/◌, ◌<◌, ◌≤◌, ◌≡◌, refl, ap, ◌∙◌, Bool, false, List, [], ◌∷◌, ◌==◌, Bool-cases, inl,
  inr, ltb, if◌then◌else◌, arith,
}
use vaultkey.Prelude.Int.{ℤ, pos, ltb_ℤ}
use vaultkey.Access.{Entry, is_inside, drop_old, zcard, zadd, allow}

-- How many of the times, newest first, are less than a second before `now`, in microseconds.
abbrev pub recent : ℕ → List ℕ → ℕ
recent now [] = 0
recent now (t ∷ ts) =
    let rest = recent now ts in if ltb (now / 1000) (t / 1000 + 1000000) then suc rest else rest

-- The times are in increasing order, the newest first, and all before `now`.
abbrev pub IsBefore : ℕ → List ℕ → Type 0
IsBefore now [] = Unit
IsBefore now (t ∷ ts) = (t < now) × IsBefore t ts

-- The answers to requests at the times, newest first, with the set that is left.
unfoldable pub replies : ℤ → List ℕ → List Bool × List Entry
unfolding allow
replies limit [] = ([], [])
replies limit (t ∷ ts) =
    let (rs, es) = replies limit ts in let (r, es') = allow false t limit es in (r ∷ rs, es')

-- The answers by the times alone.
abbrev pub expected : ℤ → List ℕ → List Bool
expected limit [] = []
expected limit (t ∷ ts) = ltb_ℤ (pos (recent t ts)) limit ∷ expected limit ts

unfoldable pub entries_in : ℕ → List Entry → ℕ
unfolding is_inside
entries_in now [] = 0
entries_in now (e ∷ es) = let rest = entries_in now es in if is_inside now e then suc rest else rest

zcard-drop_old : (now : ℕ) (es : List Entry) → zcard (drop_old now es) ≡ entries_in now es
unfolding zcard drop_old entries_in is_inside
zcard-drop_old now [] = refl
zcard-drop_old now (e ∷ es) = ground (arith, zcard-drop_old now es)

entries_in-drop_old :
    (now later : ℕ) (es : List Entry)
    → now ≤ later
    → entries_in later (drop_old now es) ≡ entries_in later es
unfolding entries_in drop_old is_inside
entries_in-drop_old now later [] h = refl
entries_in-drop_old now later (e ∷ es) h = ground (arith, entries_in-drop_old now later es h, h)

-- All members are before `now`.
abbrev IsOlder : ℕ → List Entry → Type 0
IsOlder now [] = Unit
IsOlder now (e ∷ es) = (e.member < now) × IsOlder now es

entries_in-zadd :
    (now : ℕ) (n : Entry) (es : List Entry)
    → IsOlder n.member es
    → entries_in now (zadd n es) ≡ entries_in now es + (if is_inside now n then 1 else 0)
unfolding entries_in zadd
entries_in-zadd now n [] h = ground arith
entries_in-zadd now n (e ∷ es) (lt, h) = ground (arith, entries_in-zadd now n es h, lt)

drop_old-IsOlder : (now m : ℕ) (es : List Entry) → IsOlder m es → IsOlder m (drop_old now es)
unfolding drop_old is_inside
drop_old-IsOlder now m [] h = tt
drop_old-IsOlder now m (e ∷ es) (lt, h) = elim (Bool-cases (ltb (now / 1000) (e.score + 1000000))) [
  | inl k ↦ rw k (lt, drop_old-IsOlder now m es h)
  | inr k ↦ rw k (drop_old-IsOlder now m es h)
]

zadd-IsOlder :
    (m : ℕ) (n : Entry) (es : List Entry)
    → n.member < m
    → IsOlder n.member es
    → IsOlder m (zadd n es)
unfolding zadd
zadd-IsOlder m n [] lt h = (lt, tt)
zadd-IsOlder m n (e ∷ es) lt (older, h) =
    let differ : (e.member == n.member) ≡ false = ground (arith, older) in
    rw differ (omega (arith, older, lt), zadd-IsOlder m n es lt h)

weaken : (t now : ℕ) (ts : List ℕ) → t < now → IsBefore t ts → IsBefore now ts
weaken t now [] h b = tt
weaken t now (u ∷ ts) h (lt, b) = (omega (arith, h, lt), b)

replies-invariant :
    (limit : ℤ) (ts : List ℕ) (now : ℕ)
    → IsBefore now ts
    → let (rs, es) = replies limit ts in
      (rs ≡ expected limit ts) × (entries_in now es ≡ recent now ts) × IsOlder now es
unfolding replies entries_in is_inside
replies-invariant limit [] now b = (refl, refl, tt)
replies-invariant limit (t ∷ ts) now (lt, b) =
    let es = (replies limit ts).1 in
    let n : Entry = record { score = t / 1000; member = t } in
    let at = replies-invariant limit ts t b in
    let later = replies-invariant limit ts now (weaken t now ts lt b) in
    let older = drop_old-IsOlder t t es at.2 in
    let counted = entries_in-zadd now n (drop_old t es) older in
    let kept = entries_in-drop_old t now es (omega (arith, lt)) in
    let here : zcard (drop_old t es) ≡ recent t ts = zcard-drop_old t es ∙ at.1 in
    let answer : ltb_ℤ (pos (zcard (drop_old t es))) limit ≡ ltb_ℤ (pos (recent t ts)) limit =
      ap (λ k. ltb_ℤ (pos k) limit) here in
    (
      rw (answer, at.0) refl,
      ground (arith, counted, kept, later.1),
      zadd-IsOlder now n (drop_old t es) lt older,
    )

-- While Redis answers, for requests of a project at increasing times: each is allowed exactly where
-- fewer than the limit of earlier requests, allowed or not, lie in the second before it.
pub replies-expected :
    (limit : ℤ) (now : ℕ) (ts : List ℕ) → IsBefore now ts → (replies limit ts).0 ≡ expected limit ts
replies-expected limit now ts b = (replies-invariant limit ts now b).0
