-- ===== src/Utils.antt =====
-- src/utils.c: reading of IPv4 addresses and of hexadecimal numbers. A string is the list of its
-- characters before the final 0; a character of 128 or more is negative there, and so no digit either way.
pub mod Ip
pub mod Hex
mod Tests
use u_mqttbroker.Base.{
  ℕ, zero, suc, ◌+◌, ◌-◌, ◌*◌, ◌%◌, ◌^◌, Bool, true, false, not, ◌&&◌, ◌||◌, Option, none, some,
  List, [], ◌∷◌, ◌++◌, if◌then◌else◌, ltb, leb, ◌==◌,
}

-- '.', '0' and '9'.
abbrev pub dot : ℕ
dot = 0x2E

abbrev pub is_digit : ℕ → Bool
is_digit c = leb 0x30 c && leb c 0x39

-- The loop of `UTILS_IsIPV4` from any place on; all three numbers are of 8 bits.
abbrev pub is_ipv4_loop : ℕ → ℕ → ℕ → List ℕ → Bool
is_ipv4_loop segs chcnt accum [] = if not (segs == 3) then false else not (chcnt == 0)
is_ipv4_loop segs chcnt accum (c ∷ str) =
    let accum' = (accum * 10 + c - 0x30) % 2 ^ 8 in
    let rest = is_ipv4_loop segs ((chcnt + 1) % 2 ^ 8) accum' str in
    let next = is_ipv4_loop ((segs + 1) % 2 ^ 8) 0 0 str in
    if c == dot
    then (if chcnt == 0 then false else if (segs + 1) % 2 ^ 8 == 4 then false else next)
    else if ltb c 0x30 || ltb 0x39 c
    then false
    else if ltb 255 accum'
    then false
    else rest

-- `UTILS_IsIPV4`; the argument `none` is the pointer NULL.
unfoldable pub is_ipv4 : Option (List ℕ) → Bool
is_ipv4 str = elim str [ none ↦ false | some s ↦ is_ipv4_loop 0 0 0 s ]

-- The inner loop of `UTILS_StrToIP` for the number `i`: its value as the 32 bits of the `int n`,
-- and the rest of the string. The end of the string is the character 0.
abbrev pub number : ℕ → ℕ → List ℕ → Option (ℕ × List ℕ)
number i n [] = if i == 3 then some (n, []) else none
number i n (c ∷ str) =
    let rest = number i ((n * 10 + (c - 0x30)) % 2 ^ 32) str in
    if is_digit c then rest else if (ltb i 3 && (c == dot)) || (i == 3) then some (n, str) else none

-- `n >= 256` for a signed `n` of 32 bits.
abbrev pub is_large : ℕ → Bool
is_large n = ltb n (2 ^ 31) && leb 256 n

-- The numbers left to read, and `i`.
abbrev pub str_to_ip_loop : ℕ → ℕ → List ℕ → Bool × List ℕ
str_to_ip_loop zero i str = (true, [])
str_to_ip_loop (suc k) i str = elim (number i 0 str) [
  | none ↦ (false, [])
  | some r ↦
      let (done, ip) = str_to_ip_loop k (i + 1) r.1 in
      if is_large r.0 then (false, []) else (done, r.0 % 2 ^ 8 ∷ ip)
]

-- `UTILS_StrToIP`: its result, and the bytes that it has written to `ip`.
unfoldable pub str_to_ip : List ℕ → Bool × List ℕ
str_to_ip str = str_to_ip_loop 4 0 str

-- The value of a hexadecimal digit, from the three tests of `UTILS_Atoh`.
abbrev pub hex_digit : ℕ → Option ℕ
hex_digit c =
    if leb 0x30 c && leb c 0x39
    then some (c - 0x30)
    else if leb 0x41 c && leb c 0x46
    then some (c - 0x41 + 10)
    else if leb 0x61 c && leb c 0x66
    then some (c - 0x61 + 10)
    else none

-- `value` has 32 bits, so its upper four are lost in `value << 4`, whose lower four are 0: `|` adds.
abbrev pub atoh_loop : ℕ → List ℕ → ℕ
atoh_loop value [] = value
atoh_loop value (c ∷ s) = elim (hex_digit c) [
  | none ↦ value
  | some digit ↦ atoh_loop (value * 2 ^ 4 % 2 ^ 32 + digit) s
]

unfoldable pub atoh : List ℕ → ℕ
atoh s = atoh_loop 0 s
