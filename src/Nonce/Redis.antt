-- ===== src/Nonce/Redis.antt =====
-- The Redis commands that the nonce manager calls, with what their documentation says of them, and
-- an instance that shows that the laws can hold.
use vaultkey.Prelude.{
  ℕ, ◌-◌, ◌^◌, ◌≡◌, ◌≢◌, refl, ap, ◌∙◌, leb, Option, none, some, Bytes, bytes_eq, bytes_eq_iff,
  bytes_eq_refl, Bool-cases, inl, inr, if◌then◌else◌,
}
use vaultkey.Prelude.Int.{ℤ, pos, ◌+ℤ◌, ltb_ℤ}

-- INCR adds one to a 64-bit signed integer, takes a missing key for 0, and fails with the key left
-- alone where the result does not fit; the time that the key has left stays. SET writes the value
-- whatever stood there, and the seconds that the key lives. A key whose time is over is gone.
abbrev pub incremented : Option ℤ → Option ℤ
incremented none = some (pos 1)
incremented (some v) = if ltb_ℤ v (pos (2 ^ 63 - 1)) then some (v +ℤ pos 1) else none

abbrev pub after_incr : Option ℤ → Option ℤ
after_incr v = elim (incremented v) [ none ↦ v | some w ↦ some w ]

-- What is left of a value and of its time after `d` seconds.
abbrev pub survives : ℕ → Option ℕ → Option ℤ → Option ℤ
survives d none v = v
survives d (some left) v = if leb left d then none else v

abbrev pub shortened : ℕ → Option ℕ → Option ℕ
shortened d none = none
shortened d (some left) = if leb left d then none else some (left - d)

pub record Counters : Type 1 where
  pub State : Type 0
  pub get : Bytes → State → Option ℤ
  pub left : Bytes → State → Option ℕ
  pub incr : Bytes → State → Option ℤ × State
  pub set : Bytes → ℕ → ℕ → State → State
  pub pass : ℕ → State → State
  pub incr_value : (k : Bytes) (s : State) → (incr k s).0 ≡ incremented (get k s)
  pub get-incr_self : (k : Bytes) (s : State) → get k (incr k s).1 ≡ after_incr (get k s)
  pub get-incr_ne : (j k : Bytes) (s : State) → j ≢ k → get j (incr k s).1 ≡ get j s
  pub left-incr : (j k : Bytes) (s : State) → left j (incr k s).1 ≡ left j s
  pub get-set_self : (k : Bytes) (n ttl : ℕ) (s : State) → get k (set k n ttl s) ≡ some (pos n)
  pub get-set_ne : (j k : Bytes) (n ttl : ℕ) (s : State) → j ≢ k → get j (set k n ttl s) ≡ get j s
  pub left-set_self : (k : Bytes) (n ttl : ℕ) (s : State) → left k (set k n ttl s) ≡ some ttl
  pub get-pass :
      (k : Bytes) (d : ℕ) (s : State) → get k (pass d s) ≡ survives d (left k s) (get k s)
  pub left-pass : (k : Bytes) (d : ℕ) (s : State) → left k (pass d s) ≡ shortened d (left k s)

-- A value, and the seconds it has left where it expires.
abbrev pub Slot : Type 0
Slot = Option (ℤ × Option ℕ)

abbrev pub Keys : Type 0
Keys = Bytes → Slot

abbrev pub value_of : Slot → Option ℤ
value_of none = none
value_of (some (v, t)) = some v

abbrev pub left_of : Slot → Option ℕ
left_of none = none
left_of (some (v, t)) = t

abbrev pub with_value : Option ℤ → Slot → Slot
with_value none slot = slot
with_value (some w) none = some (w, none)
with_value (some w) (some (v, t)) = some (w, t)

abbrev pub aged : ℕ → Slot → Slot
aged d none = none
aged d (some (v, none)) = some (v, none)
aged d (some (v, some left)) = if leb left d then none else some (v, some (left - d))

abbrev pub write : Bytes → Slot → Keys → Keys
write k v s j = if bytes_eq k j then v else s j

pub write_self : (k : Bytes) (v : Slot) (s : Keys) → write k v s k ≡ v
write_self k v s = rw (bytes_eq_refl k)

pub write_ne : (j k : Bytes) (v : Slot) (s : Keys) → j ≢ k → write k v s j ≡ s j
write_ne j k v s ne = elim (Bool-cases (bytes_eq k j)) [
  | inl e ↦ absurd (ne (cc ((bytes_eq_iff k j).0 e)))
  | inr e ↦ rw e
]

pub value_of-with_value :
    (w : Option ℤ) (slot : Slot)
    → value_of (with_value w slot) ≡ elim w [ none ↦ value_of slot | some u ↦ some u ]
value_of-with_value none slot = refl
value_of-with_value (some u) none = refl
value_of-with_value (some u) (some (v, t)) = refl

left_of-with_value : (w : Option ℤ) (slot : Slot) → left_of (with_value w slot) ≡ left_of slot
left_of-with_value none slot = refl
left_of-with_value (some w) none = refl
left_of-with_value (some w) (some (v, t)) = refl

pub left_of-write :
    (j k : Bytes) (w : Option ℤ) (s : Keys)
    → left_of (write k (with_value w (s k)) s j) ≡ left_of (s j)
left_of-write j k w s = elim (Bool-cases (bytes_eq k j)) [
  | inl e ↦
      let same = (bytes_eq_iff k j).0 e in
      rw e (left_of-with_value w (s k) ∙ ap (λ i. left_of (s i)) same)
  | inr e ↦ rw e refl
]

pub value_of-aged :
    (d : ℕ) (slot : Slot) → value_of (aged d slot) ≡ survives d (left_of slot) (value_of slot)
value_of-aged d none = refl
value_of-aged d (some (v, none)) = refl
value_of-aged d (some (v, some left)) = elim (Bool-cases (leb left d)) [
  | inl e ↦ rw e refl
  | inr e ↦ rw e refl
]

pub left_of-aged : (d : ℕ) (slot : Slot) → left_of (aged d slot) ≡ shortened d (left_of slot)
left_of-aged d none = refl
left_of-aged d (some (v, none)) = refl
left_of-aged d (some (v, some left)) = elim (Bool-cases (leb left d)) [
  | inl e ↦ rw e refl
  | inr e ↦ rw e refl
]

-- Keys with values and times, and no failures.
abbrev pub in_memory : Counters
in_memory = record {
  State = Keys;
  get = λ k s. value_of (s k);
  left = λ k s. left_of (s k);
  incr = λ k s.
      (incremented (value_of (s k)), write k (with_value (incremented (value_of (s k))) (s k)) s);
  set = λ k n ttl s. write k (some (pos n, some ttl)) s;
  pass = λ d s k. aged d (s k);
  incr_value = λ k s. refl;
  get-incr_self = λ k s.
      ap value_of (write_self k _ s) ∙ value_of-with_value (incremented (value_of (s k))) (s k);
  get-incr_ne = λ j k s ne. ap value_of (write_ne j k _ s ne);
  left-incr = λ j k s. left_of-write j k (incremented (value_of (s k))) s;
  get-set_self = λ k n ttl s. ap value_of (write_self k (some (pos n, some ttl)) s);
  get-set_ne = λ j k n ttl s ne. ap value_of (write_ne j k (some (pos n, some ttl)) s ne);
  left-set_self = λ k n ttl s. ap left_of (write_self k (some (pos n, some ttl)) s);
  get-pass = λ k d s. value_of-aged d (s k);
  left-pass = λ k d s. left_of-aged d (s k);
}
