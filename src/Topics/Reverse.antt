-- ===== src/Topics/Reverse.antt =====
-- The in-place reversal of `_strrev` is the reversal of the list.
use mathlib.Core.List.{reverse, reverse-cons, reverse-append}
use u_mqttbroker.Base.{
  ℕ, zero, suc, ◌+◌, ◌-◌, ◌≤◌, ◌≡◌, refl, sym, ap, subst, ◌∙◌, List, [], ◌∷◌, ◌++◌, append_assoc,
  append-nil, arith, set, get_or, get_or-append, length, length-append,
}
use u_mqttbroker.Topics.{strrev_loop, strrev}

set-append :
    (pre rest : List ℕ) (x v i : ℕ) → i ≡ length pre → set (pre ++ x ∷ rest) i v ≡ pre ++ v ∷ rest
set-append [] rest x v zero e = refl
set-append [] rest x v (suc i) e = absurd (omega arith)
set-append (p ∷ pre) rest x v zero e = absurd (omega arith)
set-append (p ∷ pre) rest x v (suc i) e = ap (◌∷◌ p) (set-append pre rest x v i (omega arith))

last_view : (x : ℕ) (xs : List ℕ) → (m : List ℕ) × (y : ℕ) × (x ∷ xs ≡ m ++ y ∷ [])
last_view x [] = ([], x, refl)
last_view x (z ∷ xs) = let (m, y, e) = last_view z xs in (x ∷ m, y, ap (◌∷◌ x) e)

-- One round exchanges the first and the last element of the part that is left.
swap_ends :
    (pre m post : List ℕ) (x y : ℕ)
    → let s = pre ++ x ∷ (m ++ y ∷ post) in
      let b = length pre + length m + 1 in
      set (set s (length pre) (get_or s b 0)) b (get_or s (length pre) 0)
      ≡ pre ++ y ∷ (m ++ x ∷ post)
swap_ends pre m post x y =
    let s = pre ++ x ∷ (m ++ y ∷ post) in
    let b = length pre + length m + 1 in
    let first : get_or s (length pre) 0 ≡ x =
      get_or-append pre (x ∷ (m ++ y ∷ post)) (length pre) 0 0 (omega arith) in
    let last : get_or s b 0 ≡ y =
      get_or-append pre (x ∷ (m ++ y ∷ post)) b (suc (length m)) 0 (omega arith)
      ∙ get_or-append m (y ∷ post) (length m) 0 0 (omega arith) in
    rw (first, last, set-append pre (m ++ y ∷ post) x y (length pre) refl)
      (ap (λ t. set t b x) (sym (append_assoc pre (y ∷ m) (y ∷ post)))
        ∙ set-append (pre ++ y ∷ m) post y x b (omega (arith, length-append pre (y ∷ m)))
        ∙ append_assoc pre (y ∷ m) (x ∷ post))

reverse_ends : (m : List ℕ) (x y : ℕ) → reverse (x ∷ (m ++ y ∷ [])) ≡ y ∷ (reverse m ++ x ∷ [])
reverse_ends m x y =
    reverse-cons x (m ++ y ∷ []) ∙ ap (λ r. r ++ x ∷ []) (reverse-append m (y ∷ []))

strrev_step :
    (fuel : ℕ) (pre m post : List ℕ) (x y f b : ℕ)
    → f ≡ length pre
    → b ≡ length pre + length m + 1
    → strrev_loop fuel (pre ++ y ∷ (m ++ x ∷ post)) (f + 1) (b - 1)
      ≡ pre ++ y ∷ (reverse m ++ x ∷ post)
    → strrev_loop (suc fuel) (pre ++ x ∷ ((m ++ y ∷ []) ++ post)) f b
      ≡ pre ++ (reverse (x ∷ (m ++ y ∷ [])) ++ post)
unfolding strrev_loop
strrev_step fuel pre m post x y f b ef eb h = ground (
  arith,
  reverse_ends m x y,
  append_assoc m (y ∷ []) post,
  append_assoc (reverse m) (x ∷ []) post,
  swap_ends pre m post x y,
)

strrev_loop_lem :
    (fuel : ℕ) (pre mid post : List ℕ) (f b : ℕ)
    → f ≡ length pre
    → b ≡ length pre + length mid - 1
    → length mid ≤ fuel
    → strrev_loop fuel (pre ++ (mid ++ post)) f b ≡ pre ++ (reverse mid ++ post)
unfolding strrev_loop
strrev_loop_lem zero pre [] post f b ef eb h = refl
strrev_loop_lem zero pre (x ∷ mid) post f b ef eb h = absurd (omega arith)
strrev_loop_lem (suc fuel) pre [] post f b ef eb h = ground arith
strrev_loop_lem (suc fuel) pre (x ∷ []) post f b ef eb h = ground arith
strrev_loop_lem (suc fuel) pre (x ∷ z ∷ mid) post f b ef eb h =
    let (m, y, e) = last_view z mid in
    let size : suc (length mid) ≡ length m + 1 =
      omega (arith, ap length e, length-append m (y ∷ [])) in
    let ih =
      strrev_loop_lem fuel (pre ++ y ∷ []) m (x ∷ post) (f + 1) (b - 1)
        (omega (arith, length-append pre (y ∷ []))) (omega (arith, length-append pre (y ∷ [])))
        (omega arith) in
    subst
      (λ q.
        strrev_loop (suc fuel) (pre ++ ((x ∷ q) ++ post)) f b ≡ pre ++ (reverse (x ∷ q) ++ post))
      (sym e)
      (strrev_step fuel pre m post x y f b ef (omega arith) (
        rw
          (
            append_assoc pre (y ∷ []) (m ++ x ∷ post),
            append_assoc pre (y ∷ []) (reverse m ++ x ∷ post),
          )
          at ih))

-- `_strrev` reverses the string.
pub strrev_lem : (s : List ℕ) → strrev s ≡ reverse s
unfolding strrev
strrev_lem [] = refl
strrev_lem (x ∷ []) = refl
strrev_lem (x ∷ y ∷ s) =
    let all =
      strrev_loop_lem (length (x ∷ y ∷ s)) [] (x ∷ y ∷ s) [] 0 (length (x ∷ y ∷ s) - 1) refl
        (omega arith) (omega arith) in
    ground (arith, all, append-nil s, append-nil (reverse (x ∷ y ∷ s)))
