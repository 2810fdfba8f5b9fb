-- ===== src/Queue/Redis.antt =====
-- The Redis list commands that the queue calls, by what their documentation says of the three lists,
-- and the JSON codec of an envelope. Both are parameters of the queue.
use vaultkey.Prelude.{
  ℕ, ◌≡◌, refl, Option, none, some, List, [], ◌∷◌, ◌++◌, Bytes, bytes_eq, if◌then◌else◌,
}

-- `Job`; ids are only compared.
pub record Job : Type 0 where
  pub id : ℕ
  pub project : ℕ
  pub wallet : ℕ
  pub operation : Bytes

-- QueueKey, ProcessingKey and DLQKey, each list from its head.
pub record Lists : Type 0 where
  pub jobs : List Bytes
  pub processing : List Bytes
  pub dlq : List Bytes

pub data ListKey : Type 0 where
  queue_key processing_key dlq_key : ListKey

abbrev pub items : ListKey → Lists → List Bytes
items queue_key l = l.jobs
items processing_key l = l.processing
items dlq_key l = l.dlq

abbrev pub with_items : ListKey → List Bytes → Lists → Lists
with_items queue_key xs l = record l { jobs = xs }
with_items processing_key xs l = record l { processing = xs }
with_items dlq_key xs l = record l { dlq = xs }

abbrev pub last? : List Bytes → Option Bytes
last? [] = none
last? (x ∷ []) = some x
last? (x ∷ y ∷ xs) = last? (y ∷ xs)

abbrev pub but_last : List Bytes → List Bytes
but_last [] = []
but_last (x ∷ []) = []
but_last (x ∷ y ∷ xs) = x ∷ but_last (y ∷ xs)

-- LREM with count 1 removes the first equal element from the head.
unfoldable pub remove_first : Bytes → List Bytes → List Bytes
remove_first e [] = []
remove_first e (x ∷ xs) = let rest = x ∷ remove_first e xs in if bytes_eq x e then xs else rest

-- BRPOPLPUSH takes the tail of one list and puts it at the head of the other.
abbrev pub pop_push : ListKey → ListKey → Lists → Lists
pop_push from to l = elim (last? (items from l)) [
  | none ↦ l
  | some e ↦
      let l' = with_items from (but_last (items from l)) l in with_items to (e ∷ items to l') l'
]

pub record ListStore : Type 1 where
  pub State : Type 0
  pub lists : State → Lists
  pub rpush : ListKey → Bytes → State → State
  pub lpush : ListKey → Bytes → State → State
  pub lrem : ListKey → Bytes → State → State
  pub brpoplpush : ListKey → ListKey → State → Option Bytes × State
  pub lrange : ListKey → State → List Bytes
  pub lists-rpush :
      (k : ListKey) (e : Bytes) (s : State)
      → lists (rpush k e s) ≡ with_items k (items k (lists s) ++ (e ∷ [])) (lists s)
  pub lists-lpush :
      (k : ListKey) (e : Bytes) (s : State)
      → lists (lpush k e s) ≡ with_items k (e ∷ items k (lists s)) (lists s)
  pub lists-lrem :
      (k : ListKey) (e : Bytes) (s : State)
      → lists (lrem k e s) ≡ with_items k (remove_first e (items k (lists s))) (lists s)
  pub brpoplpush_value :
      (from to : ListKey) (s : State) → (brpoplpush from to s).0 ≡ last? (items from (lists s))
  pub lists-brpoplpush :
      (from to : ListKey) (s : State) → lists (brpoplpush from to s).1 ≡ pop_push from to (lists s)
  pub lrange_value : (k : ListKey) (s : State) → lrange k s ≡ items k (lists s)

-- `json.Marshal` and `json.Unmarshal` of a `Job`, and the dead letter's text.
pub record Codec : Type 0 where
  pub encode : Job → Bytes
  pub decode : Bytes → Option Job
  pub dead_letter : Job → Bytes → ℕ → Bytes
  pub decode-encode : (j : Job) → decode (encode j) ≡ some j

abbrev pub in_memory : ListStore
in_memory = record {
  State = Lists;
  lists = λ s. s;
  rpush = λ k e s. with_items k (items k s ++ (e ∷ [])) s;
  lpush = λ k e s. with_items k (e ∷ items k s) s;
  lrem = λ k e s. with_items k (remove_first e (items k s)) s;
  brpoplpush = λ from to s. (last? (items from s), pop_push from to s);
  lrange = items;
  lists-rpush = λ k e s. refl;
  lists-lpush = λ k e s. refl;
  lists-lrem = λ k e s. refl;
  brpoplpush_value = λ from to s. refl;
  lists-brpoplpush = λ from to s. refl;
  lrange_value = λ k s. refl;
}
