-- ===== src/Base/Bytes.antt =====
-- Byte strings: equality (`strcmp`, `memcmp`), and facts about bytes checked over the whole range.
use Prim.Native.Nat.{ℕ, zero, suc, ◌<◌}
use mathlib.Core.Path.{◌≡◌, refl}
use mathlib.Core.Logic.{◌↔◌}
use mathlib.Core.Bool.{Bool, true, false, ◌&&◌}
use mathlib.Core.List.{List, [], ◌∷◌}
use native.Mathlib.Omega.{arith}
use u_mqttbroker.Base.Tests.{if◌then◌else◌, ◌==◌}

-- `strcmp(a, b) == 0`
abbrev pub str_eq : List ℕ → List ℕ → Bool
str_eq [] [] = true
str_eq [] (y ∷ ys) = false
str_eq (x ∷ xs) [] = false
str_eq (x ∷ xs) (y ∷ ys) = (x == y) && str_eq xs ys

pub str_eq_refl : (xs : List ℕ) → str_eq xs xs ≡ true
str_eq_refl [] = refl
str_eq_refl (x ∷ xs) = ground (arith, str_eq_refl xs)

pub str_eq→eq : (xs ys : List ℕ) → str_eq xs ys ≡ true → xs ≡ ys
str_eq→eq [] [] h = refl
str_eq→eq [] (y ∷ ys) h = cc
str_eq→eq (x ∷ xs) [] h = cc
str_eq→eq (x ∷ xs) (y ∷ ys) h = ground (arith, str_eq→eq xs ys)

pub str_eq_iff : (xs ys : List ℕ) → (str_eq xs ys ≡ true) ↔ (xs ≡ ys)
str_eq_iff xs ys = (str_eq→eq xs ys, λ e. rw e (str_eq_refl ys))

-- Every element is a byte.
abbrev pub AllBytes : List ℕ → Type 0
AllBytes [] = Unit {0}
AllBytes (x ∷ xs) = (x < 256) × AllBytes xs

-- Whether a test says yes for the first `k` numbers; a table of bytes is settled by evaluation.
unfoldable pub passes : (ℕ → Bool) → ℕ → Bool
passes p zero = true
passes p (suc k) = if p k then passes p k else false

pub passes_at : (p : ℕ → Bool) (k b : ℕ) → b < k → passes p k ≡ true → p b ≡ true
unfolding passes
passes_at p zero b l e = absurd (omega arith)
passes_at p (suc k) b l e = ground (arith, passes_at p k b)

-- A string in memory, up to its final 0 or the end of the list.
abbrev pub c_string : List ℕ → List ℕ
c_string [] = []
c_string (x ∷ xs) = let rest = c_string xs in if x == 0 then [] else x ∷ rest
