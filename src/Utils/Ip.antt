-- ===== src/Utils/Ip.antt =====
-- `UTILS_IsIPV4` and `UTILS_StrToIP` against the division of a string at its dots.
use u_mqttbroker.Base.{
  ℕ, suc, ◌+◌, ◌-◌, ◌*◌, ◌%◌, ◌^◌, ◌<◌, ◌≤◌, ◌≡◌, refl, ◌∙◌, ap, Bool, true, not, ◌&&◌, some, List,
  [], ◌∷◌, ◌++◌, arith, if◌then◌else◌, ◌==◌, length,
}
use u_mqttbroker.Utils.{dot, is_digit, is_ipv4_loop, is_ipv4, number, str_to_ip_loop, str_to_ip}

-- The part of a string before its first dot, and the parts behind the dots.
abbrev pub split : List ℕ → List ℕ × List (List ℕ)
split [] = ([], [])
split (c ∷ s) = let r = split s in if c == dot then ([], r.0 ∷ r.1) else (c ∷ r.0, r.1)

abbrev pub all_digits : List ℕ → Bool
all_digits [] = true
all_digits (c ∷ s) = is_digit c && all_digits s

-- The count of characters has 8 bits.
abbrev pub is_group : List ℕ → Bool
is_group g = all_digits g && not (length g % 2 ^ 8 == 0)

abbrev pub all_groups : List (List ℕ) → Bool
all_groups [] = true
all_groups (g ∷ gs) = is_group g && all_groups gs

is_ipv4_loop_lem :
    (s : List ℕ) (segs chcnt accum : ℕ)
    → segs < 4
    → chcnt < 2 ^ 8
    → is_ipv4_loop segs chcnt accum s
      ≡ all_digits (split s).0
        && not ((chcnt + length (split s).0) % 2 ^ 8 == 0)
        && all_groups (split s).1
        && (segs + length (split s).1 == 3)
is_ipv4_loop_lem [] segs chcnt accum h k = ground arith
is_ipv4_loop_lem (c ∷ s) segs chcnt accum h k = ground (
  arith,
  is_ipv4_loop_lem s segs ((chcnt + 1) % 2 ^ 8) ((accum * 10 + c - 0x30) % 2 ^ 8),
  is_ipv4_loop_lem s ((segs + 1) % 2 ^ 8) 0 0,
)

-- `UTILS_IsIPV4` accepts exactly four groups of digits between three dots, whatever numbers they
-- stand for, where the number of digits in a group is not 0 modulo 256.
pub is_ipv4_lem :
    (s : List ℕ)
    → is_ipv4 (some s) ≡ is_group (split s).0 && all_groups (split s).1 && (length (split s).1 == 3)
unfolding is_ipv4
is_ipv4_lem s = is_ipv4_loop_lem s 0 0 0 (omega arith) (omega arith) ∙ ground arith

-- The number that characters of digits stand for, the highest first, below a number `n`.
abbrev pub dec_value : ℕ → List ℕ → ℕ
dec_value n [] = n
dec_value n (c ∷ g) = dec_value (n * 10 + (c - 0x30)) g

dec_value_grows : (g : List ℕ) (n : ℕ) → n ≤ dec_value n g
dec_value_grows [] n = omega arith
dec_value_grows (c ∷ g) n = omega (arith, dec_value_grows g (n * 10 + (c - 0x30)))

-- What may stand behind the fourth number: the end of the string, or anything but a digit.
abbrev pub is_end : List ℕ → Bool
is_end [] = true
is_end (c ∷ s) = not (is_digit c)

number-dot :
    (g s : List ℕ) (i n : ℕ)
    → i < 3
    → all_digits g ≡ true
    → dec_value n g < 2 ^ 8
    → number i n (g ++ dot ∷ s) ≡ some (dec_value n g, s)
number-dot [] s i n h d v = ground arith
number-dot (c ∷ g) s i n h d v =
    let grows = dec_value_grows g (n * 10 + (c - 0x30)) in
    ground (arith, number-dot g s i (n * 10 + (c - 0x30)), grows)

number_end :
    (g s : List ℕ) (n : ℕ)
    → all_digits g ≡ true
    → is_end s ≡ true
    → dec_value n g < 2 ^ 8
    → (rest : List ℕ) × (number 3 n (g ++ s) ≡ some (dec_value n g, rest))
number_end [] [] n d e v = ([], refl)
number_end [] (c ∷ s) n d e v = (s, ground arith)
number_end (c ∷ g) s n d e v =
    let grows = dec_value_grows g (n * 10 + (c - 0x30)) in
    let (rest, r) = number_end g s (n * 10 + (c - 0x30)) (ground arith) e v in
    (rest, ground (arith, r, grows))

abbrev before : ℕ → Bool × List ℕ → Bool × List ℕ
before v r = (r.0, v ∷ r.1)

str_to_ip_next :
    (k i v : ℕ) (s s' : List ℕ)
    → v < 2 ^ 8
    → number i 0 s ≡ some (v, s')
    → str_to_ip_loop (suc k) i s ≡ before v (str_to_ip_loop k (i + 1) s')
str_to_ip_next k i v s s' h e = rw (str_to_ip_loop, e) (ground arith)

-- Digits that stand for a number of 8 bits.
abbrev pub IsByte : List ℕ → Type 0
IsByte g = (all_digits g ≡ true) × (dec_value 0 g < 2 ^ 8)

-- `UTILS_StrToIP` reads four groups of digits below 256 between dots, with no digit behind them,
-- and writes the numbers.
pub str_to_ip_lem :
    (a b c d s : List ℕ)
    → IsByte a
    → IsByte b
    → IsByte c
    → IsByte d
    → is_end s ≡ true
    → str_to_ip (a ++ dot ∷ (b ++ dot ∷ (c ++ dot ∷ (d ++ s))))
      ≡ (true, dec_value 0 a ∷ dec_value 0 b ∷ dec_value 0 c ∷ dec_value 0 d ∷ [])
unfolding str_to_ip
str_to_ip_lem a b c d s p q r t e =
    let s₃ = d ++ s in
    let s₂ = c ++ (dot ∷ s₃) in
    let s₁ = b ++ (dot ∷ s₂) in
    let (rest, n) = number_end d s 0 t.0 e t.1 in
    str_to_ip_next 3 0 (dec_value 0 a) (a ++ dot ∷ s₁) s₁ p.1
      (number-dot a s₁ 0 0 (omega arith) p.0 p.1)
    ∙ ap (before (dec_value 0 a)) (
        str_to_ip_next 2 1 (dec_value 0 b) s₁ s₂ q.1 (number-dot b s₂ 1 0 (omega arith) q.0 q.1)
        ∙ ap (before (dec_value 0 b)) (
            str_to_ip_next 1 2 (dec_value 0 c) s₂ s₃ r.1 (number-dot c s₃ 2 0 (omega arith) r.0 r.1)
            ∙ ap (before (dec_value 0 c)) (str_to_ip_next 0 3 (dec_value 0 d) s₃ rest t.1 n)))
