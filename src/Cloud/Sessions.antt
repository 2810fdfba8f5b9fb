-- ===== src/Cloud/Sessions.antt =====
-- Requests of many sessions, interleaved at their SQL statements.
use vaultkey.Prelude.{ℕ, List, [], ◌∷◌, Bytes, ◌==◌, if◌then◌else◌}
use vaultkey.Cloud.Requests.{Request, Pc, idle, arrive}
use vaultkey.Cloud.Handlers.{World, Now, step}

pub record System : Type 0 where
  pub world : World
  pub at : ℕ → Pc

-- A session serves one request; what happens to it out of turn changes nothing.
pub data Event : Type 0 where
  arrives : ℕ → Request → Event
  advances : ℕ → Now → Event

unfoldable pub put_at : ℕ → Pc → (ℕ → Pc) → ℕ → Pc
put_at i p at j = if i == j then p else at j

unfoldable pub admitted : Pc → Request → Pc
unfolding arrive
admitted idle r = arrive r
admitted p r = p

module _ (to_lower : Bytes → Bytes) where
  unfoldable pub happen : Event → System → System
  unfolding put_at admitted step
  happen (arrives i r) s = record s { at = put_at i (admitted (s.at i) r) s.at }
  happen (advances i n) s =
      let (p, w) = step to_lower n (s.at i) s.world in record { world = w; at = put_at i p s.at }

  unfoldable pub happen_all : List Event → System → System
  unfolding happen
  happen_all [] s = s
  happen_all (e ∷ es) s = happen_all es (happen e s)
