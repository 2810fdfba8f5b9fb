-- ===== src/Prelude/Text.antt =====
-- Texts that the program builds or walks: lists of byte values, with the equality test on them.
use Prim.Native.Nat.{ℕ}
use Prim.Native.Char.{code}
use Prim.Native.String.{String}
use mathlib.Core.Path.{◌≡◌, refl}
use mathlib.Core.Logic.{◌≢◌, ◌↔◌}
use mathlib.Core.Bool.{Bool, true, false, ◌&&◌}
use mathlib.Core.List.{List, [], ◌∷◌, ◌++◌}
use native.Mathlib.Omega.{arith}
use vaultkey.Prelude.Tests.{◌==◌}

abbrev pub Bytes : Type 0
Bytes = List ℕ

-- The code points of a literal; these are its bytes when the text is ASCII.
abbrev pub codes : String → Bytes
codes String.[] = []
codes (String.◌∷◌ c s) = code c ∷ codes s

unfoldable pub bytes_eq : Bytes → Bytes → Bool
bytes_eq [] [] = true
bytes_eq [] (y ∷ ys) = false
bytes_eq (x ∷ xs) [] = false
bytes_eq (x ∷ xs) (y ∷ ys) = x == y && bytes_eq xs ys

pub bytes_eq_sound : (xs ys : Bytes) → bytes_eq xs ys ≡ true → xs ≡ ys
unfolding bytes_eq
bytes_eq_sound [] [] h = refl
bytes_eq_sound [] (y ∷ ys) h = cc
bytes_eq_sound (x ∷ xs) [] h = cc
bytes_eq_sound (x ∷ xs) (y ∷ ys) h = ground (arith, bytes_eq_sound xs ys)

pub bytes_eq_refl : (xs : Bytes) → bytes_eq xs xs ≡ true
unfolding bytes_eq
bytes_eq_refl [] = refl
bytes_eq_refl (x ∷ xs) = ground (arith, bytes_eq_refl xs)

pub bytes_eq_iff : (xs ys : Bytes) → (bytes_eq xs ys ≡ true) ↔ (xs ≡ ys)
bytes_eq_iff xs ys = (bytes_eq_sound xs ys, λ e. rw e (bytes_eq_refl ys))

-- Two texts cut at their first separator: equal wholes have equal parts.
abbrev pub Lacks : ℕ → Bytes → Type 0
Lacks b [] = Unit
Lacks b (c ∷ s) = (c ≢ b) × Lacks b s

pub cut_unique :
    (b : ℕ) (xs ys s t : Bytes)
    → Lacks b xs
    → Lacks b ys
    → xs ++ (b ∷ s) ≡ ys ++ (b ∷ t)
    → (xs ≡ ys) × (s ≡ t)
cut_unique b [] [] s t hx hy e = (refl, cc)
cut_unique b [] (y ∷ ys) s t hx hy e = absurd (hy.0 (cc))
cut_unique b (x ∷ xs) [] s t hx hy e = absurd (hx.0 (cc))
cut_unique b (x ∷ xs) (y ∷ ys) s t hx hy e =
    let (p, q) = cut_unique b xs ys s t hx.1 hy.1 (cc) in (cc, q)

pub prefix_cancel : (xs s t : Bytes) → xs ++ s ≡ xs ++ t → s ≡ t
prefix_cancel [] s t e = e
prefix_cancel (x ∷ xs) s t e = prefix_cancel xs s t (cc)
