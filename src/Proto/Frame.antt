-- ===== src/Proto/Frame.antt =====
-- The frame of a packet, apart from any buffer, and the bytes that can stand in it.
use Prim.Native.Nat.{bit_xor}
use u_mqttbroker.Base.{
  ℕ, ◌<◌, ◌≡◌, refl, Bool, true, false, not, ◌&&◌, ◌||◌, List, [], ◌∷◌, ◌++◌, arith, ◌==◌,
  if◌then◌else◌, passes, passes_at,
}
use u_mqttbroker.Proto.{is_special}

abbrev pub escape : List ℕ → List ℕ
escape [] = []
escape (b ∷ bs) =
    let rest = escape bs in if is_special b then 0x7D ∷ bit_xor b 0x20 ∷ rest else b ∷ rest

abbrev pub frame : List ℕ → List ℕ
frame packet = 0x7E ∷ (escape packet ++ 0x7F ∷ [])

-- No end of frame stands in it.
abbrev pub NoEnd : List ℕ → Type 0
NoEnd [] = Unit {0}
NoEnd (b ∷ bs) = ((b == 0x7F) ≡ false) × NoEnd bs

-- Flipping bit 5 twice gives the byte back, and takes a special byte to one that is not special.
abbrev flips_back : ℕ → Bool
flips_back b =
    let e = bit_xor b 0x20 in (bit_xor e 0x20 == b) && (not (is_special b) || not (is_special e))

flip_table : passes flips_back 256 ≡ true
unfolding passes
flip_table = refl

pub flip_twice :
    (b : ℕ)
    → b < 256
    → (bit_xor (bit_xor b 0x20) 0x20 ≡ b)
      × (is_special b ≡ true → is_special (bit_xor b 0x20) ≡ false)
flip_twice b h = ground (arith, passes_at flips_back 256 b h flip_table)
