-- ===== src/Stablecoin/Cache.antt =====
-- The Redis commands that the registry calls, with what their documentation says of them.
use vaultkey.Prelude.{
  ◌≡◌, ◌≢◌, refl, Option, none, some, Bytes, bytes_eq, bytes_eq_iff, bytes_eq_refl, Bool-cases, inl,
  inr, if◌then◌else◌,
}

-- An expiry removes a key, as DEL does.
pub record Cache : Type 1 where
  pub State : Type 0
  pub get : Bytes → State → Option Bytes
  pub set : Bytes → Bytes → State → State
  pub del : Bytes → State → State
  pub get-set_self : (k v : Bytes) (s : State) → get k (set k v s) ≡ some v
  pub get-set_ne : (j k v : Bytes) (s : State) → j ≢ k → get j (set k v s) ≡ get j s
  pub get-del_self : (k : Bytes) (s : State) → get k (del k s) ≡ none
  pub get-del_ne : (j k : Bytes) (s : State) → j ≢ k → get j (del k s) ≡ get j s

abbrev pub Keys : Type 0
Keys = Bytes → Option Bytes

abbrev pub write : Bytes → Option Bytes → Keys → Keys
write k v s j = if bytes_eq k j then v else s j

pub write_self : (k : Bytes) (v : Option Bytes) (s : Keys) → write k v s k ≡ v
write_self k v s = rw (bytes_eq_refl k) refl

pub write_ne : (j k : Bytes) (v : Option Bytes) (s : Keys) → j ≢ k → write k v s j ≡ s j
write_ne j k v s ne = elim (Bool-cases (bytes_eq k j)) [
  | inl e ↦ absurd (ne (cc ((bytes_eq_iff k j).0 e)))
  | inr e ↦ rw e refl
]

abbrev pub in_memory : Cache
in_memory = record {
  State = Keys;
  get = λ k s. s k;
  set = λ k v s. write k (some v) s;
  del = λ k s. write k none s;
  get-set_self = λ k v s. write_self k (some v) s;
  get-set_ne = λ j k v s ne. write_ne j k (some v) s ne;
  get-del_self = λ k s. write_self k none s;
  get-del_ne = λ j k s ne. write_ne j k none s ne;
}
