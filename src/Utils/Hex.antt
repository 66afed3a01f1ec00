-- ===== src/Utils/Hex.antt =====
-- `UTILS_Atoh` against the value of a hexadecimal number.
use u_mqttbroker.Base.{
  ℕ, ◌+◌, ◌*◌, ◌%◌, ◌^◌, ◌<◌, ◌≡◌, inl, inr, ◌∙◌, none, some, List, [], ◌∷◌, arith, Option-cases,
}
use u_mqttbroker.Utils.{hex_digit, atoh_loop, atoh}

-- The digits that a string begins with.
abbrev pub hex_prefix : List ℕ → List ℕ
hex_prefix [] = []
hex_prefix (c ∷ s) = let rest = hex_prefix s in elim (hex_digit c) [ none ↦ [] | some d ↦ d ∷ rest ]

-- The number that digits stand for, the highest first, below a number `v`.
abbrev pub hex_value : ℕ → List ℕ → ℕ
hex_value v [] = v
hex_value v (d ∷ ds) = hex_value (v * 16 + d) ds

hex_digit_below : (c d : ℕ) → hex_digit c ≡ some d → d < 16
hex_digit_below c d h = ground arith

hex_value_mod :
    (ds : List ℕ) (v w : ℕ)
    → v % 2 ^ 32 ≡ w % 2 ^ 32
    → hex_value v ds % 2 ^ 32 ≡ hex_value w ds % 2 ^ 32
hex_value_mod [] v w h = h
hex_value_mod (d ∷ ds) v w h = hex_value_mod ds (v * 16 + d) (w * 16 + d) (omega arith)

atoh_loop_lem :
    (s : List ℕ) (v : ℕ) → v < 2 ^ 32 → atoh_loop v s ≡ hex_value v (hex_prefix s) % 2 ^ 32
atoh_loop_lem [] v h = omega arith
atoh_loop_lem (c ∷ s) v h = elim (Option-cases (hex_digit c)) [
  | inl n ↦ rw (atoh_loop, hex_prefix, n) (omega arith)
  | inr (d, e) ↦
      rw (atoh_loop, hex_prefix, e)
        (atoh_loop_lem s (v * 2 ^ 4 % 2 ^ 32 + d) (omega (arith, hex_digit_below c d e))
          ∙ hex_value_mod (hex_prefix s) (v * 2 ^ 4 % 2 ^ 32 + d) (v * 16 + d) (omega arith))
]

-- `UTILS_Atoh` gives the number that the leading hexadecimal digits stand for, modulo 2 ^ 32.
pub atoh_lem : (s : List ℕ) → atoh s ≡ hex_value 0 (hex_prefix s) % 2 ^ 32
unfolding atoh
atoh_lem s = atoh_loop_lem s 0 (omega arith)
