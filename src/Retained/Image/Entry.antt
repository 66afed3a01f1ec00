-- ===== src/Retained/Image/Entry.antt =====
-- The bytes of one entry, as the reader of an image finds them.
use u_mqttbroker.Base.{
  ℕ, ◌+◌, ◌*◌, ◌/◌, ◌%◌, ◌^◌, ◌<◌, ◌≡◌, ◌≢◌, ◌⊎◌, refl, sym, subst, ◌∙◌, ap, Bool, true, false, not,
  none, some, List, [], ◌∷◌, ◌++◌, arith, if◌then◌else◌, get_or, length, take, take-append, drop,
  drop_more, get_or-append, append_assoc,
}
use u_mqttbroker.Proto.{u16}
use u_mqttbroker.Retained.{Slot, Store, Memory, Calls, update}
use u_mqttbroker.Retained.Image.{str_of, c_string}
use u_mqttbroker.Retained.Image.Layout.{entry_image}

-- A string without the character 0.
abbrev pub NoZero : List ℕ → Type 0
NoZero [] = Unit {0}
NoZero (c ∷ s) = (c ≢ 0) × NoZero s

c_string-append : (t ys : List ℕ) → NoZero t → c_string (t ++ 0 ∷ ys) ≡ t
c_string-append [] ys z = refl
c_string-append (c ∷ t) ys z = ground (arith, c_string-append t ys, z.0)

-- What an image can keep of an entry.
abbrev pub AllStorable : List Slot → Type 0
AllStorable [] = Unit {0}
AllStorable (s ∷ slots) =
    ((s.topic ≡ none) ⊎ ((c : ℕ) × (t : List ℕ) × (s.topic ≡ some (c ∷ t)) × NoZero (c ∷ t)))
    × (length (str_of s.content) < 2 ^ 16)
    × AllStorable slots

-- The updates for the entries from a place of the image on, up to the first that fails.
abbrev pub replay : (ℕ → Memory) → ℕ → List Slot → Store → Bool × Store × Calls
replay memory pos [] st = (true, st, [])
replay memory pos (s ∷ slots) st = elim s.topic [
  | none ↦ replay memory pos slots st
  | some t ↦
      let d = str_of s.content in
      let r = update (memory pos) st t d s.qos in
      let q = replay memory (pos + length (entry_image t d s.qos)) slots r.1 in
      if not r.0 then (false, r.1, r.2) else (q.0, q.1, r.2 ++ q.2)
]

-- What the loop reads where an entry's bytes stand.
abbrev pub Reads : List ℕ → List ℕ → ℕ → List ℕ → ℕ → Type 0
Reads t d q buf pos =
    (c_string (drop pos buf) ≡ t)
    × (u16 (get_or buf (pos + length t + 1) 0 + get_or buf (pos + length t + 2) 0 * 2 ^ 8)
        ≡ length d)
    × (take (length d) (drop (pos + length t + 3) buf) ≡ d)
    × (get_or buf (pos + length t + 3 + length d) 0 ≡ q)

-- A byte, and a part, behind two known parts of a memory.
get_or-behind :
    (xs ys zs : List ℕ) (i k : ℕ)
    → i ≡ length xs + length ys + k
    → get_or (xs ++ (ys ++ zs)) i 0 ≡ get_or zs k 0
get_or-behind xs ys zs i k e =
    get_or-append xs (ys ++ zs) i (length ys + k) 0 (omega arith)
    ∙ get_or-append ys zs (length ys + k) k 0 refl

drop-behind :
    (xs ys zs : List ℕ) (i k : ℕ)
    → i ≡ length xs + length ys + k
    → drop i (xs ++ (ys ++ zs)) ≡ drop k zs
drop-behind xs ys zs i k e =
    drop_more xs (ys ++ zs) i (length ys + k) (omega arith) ∙ drop_more ys zs (length ys + k) k refl

pub entry_image-append :
    (t d more : List ℕ) (q : ℕ)
    → entry_image t d q ++ more
      ≡ t ++ 0 ∷ length d % 2 ^ 8 ∷ length d / 2 ^ 8 % 2 ^ 8 ∷ (d ++ q ∷ more)
entry_image-append t d more q =
    append_assoc t (0 ∷ length d % 2 ^ 8 ∷ length d / 2 ^ 8 % 2 ^ 8 ∷ (d ++ q ∷ [])) more
    ∙ ap (λ x. t ++ 0 ∷ length d % 2 ^ 8 ∷ length d / 2 ^ 8 % 2 ^ 8 ∷ x)
        (append_assoc d (q ∷ []) more)

pub entry-Reads :
    (done t d more : List ℕ) (q : ℕ)
    → NoZero t
    → length d < 2 ^ 16
    → Reads t d q (done ++ (entry_image t d q ++ more)) (length done)
entry-Reads done t d more q z h =
    let lo = length d % 2 ^ 8 in
    let hi = length d / 2 ^ 8 % 2 ^ 8 in
    let rest = 0 ∷ lo ∷ hi ∷ (d ++ q ∷ more) in
    let buf = done ++ (t ++ rest) in
    let e : done ++ (entry_image t d q ++ more) ≡ buf =
      ap (λ x. done ++ x) (entry_image-append t d more q) in
    let e₁ : get_or buf (length done + length t + 1) 0 ≡ lo =
      get_or-behind done t rest (length done + length t + 1) 1 refl in
    let e₂ : get_or buf (length done + length t + 2) 0 ≡ hi =
      get_or-behind done t rest (length done + length t + 2) 2 refl in
    subst (λ b. Reads t d q b (length done)) (sym e)
      (
        ap c_string (drop_more done (t ++ rest) (length done) 0 (omega arith))
            ∙ c_string-append t (lo ∷ hi ∷ (d ++ q ∷ more)) z,
        rw (e₁, e₂) (omega arith),
        ap (take (length d)) (drop-behind done t rest (length done + length t + 3) 3 refl)
            ∙ take-append d (q ∷ more),
        get_or-behind done t rest (length done + length t + 3 + length d) (3 + length d)
              (omega arith)
            ∙ get_or-append (0 ∷ lo ∷ hi ∷ d) (q ∷ more) (3 + length d) 0 0 (omega arith),
      )
