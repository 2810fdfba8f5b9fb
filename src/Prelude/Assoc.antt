-- ===== src/Prelude/Assoc.antt =====
-- Tables keyed by row ids, which the program only compares: association lists over numbers.
use Prim.Native.Nat.{ℕ}
use mathlib.Core.Path.{◌≡◌}
use mathlib.Core.Option.{Option, none, some}
use mathlib.Core.List.{List, [], ◌∷◌}
use native.Mathlib.Omega.{arith}
use vaultkey.Prelude.Tests.{◌==◌, if◌then◌else◌}

abbrev pub Table {ℓ} : Type ℓ → Type ℓ
Table V = List (ℕ × V)

module _ {ℓ} {V : Type ℓ} where
  abbrev pub lookup : ℕ → Table V → Option V
  lookup k [] = none
  lookup k ((j, v) ∷ t) = let rest = lookup k t in if j == k then some v else rest

  -- INSERT … ON CONFLICT DO NOTHING: a row that is there stays.
  abbrev pub insert_new : ℕ → V → Table V → Table V
  insert_new k v [] = (k, v) ∷ []
  insert_new k v ((j, w) ∷ t) =
      let rest = (j, w) ∷ insert_new k v t in if j == k then (j, w) ∷ t else rest

  -- UPDATE … WHERE id = k: without such a row nothing changes.
  abbrev pub update : ℕ → V → Table V → Table V
  update k v [] = []
  update k v ((j, w) ∷ t) = let rest = (j, w) ∷ update k v t in if j == k then (j, v) ∷ t else rest

  pub lookup-insert_new :
      (j k : ℕ) (v : V) (t : Table V)
      → lookup j (insert_new k v t)
        ≡ (if k == j then elim (lookup k t) [ none ↦ some v | some w ↦ some w ] else lookup j t)
  lookup-insert_new j k v [] = ground arith
  lookup-insert_new j k v ((i, w) ∷ t) = ground (arith, lookup-insert_new j k v t)

  pub lookup-update :
      (j k : ℕ) (v : V) (t : Table V)
      → lookup j (update k v t)
        ≡ (if k == j then elim (lookup k t) [ none ↦ none | some w ↦ some v ] else lookup j t)
  lookup-update j k v [] = ground arith
  lookup-update j k v ((i, w) ∷ t) = ground (arith, lookup-update j k v t)
