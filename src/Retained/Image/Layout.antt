-- ===== src/Retained/Image/Layout.antt =====
-- The bytes of one entry in the image of the retained messages, and how they get there.
use u_mqttbroker.Base.{
  ℕ, zero, suc, ◌+◌, ◌/◌, ◌%◌, ◌^◌, ◌<◌, ◌≤◌, ◌≡◌, refl, subst, ◌∙◌, ap, none, some, List, [], ◌∷◌,
  ◌++◌, arith, set, get_or, length, length-set, length-append, take, take_all, write, length-write,
  take-write, get_or-set_self,
}
use u_mqttbroker.Proto.{u16}
use u_mqttbroker.Retained.{Slot}
use u_mqttbroker.Retained.Image.{str_of, put_entry}

abbrev pub entry_image : List ℕ → List ℕ → ℕ → List ℕ
entry_image t d q = t ++ 0 ∷ length d % 2 ^ 8 ∷ length d / 2 ^ 8 % 2 ^ 8 ∷ (d ++ q ∷ [])

-- The bytes for a list of entries.
abbrev pub image : List Slot → List ℕ
image [] = []
image (s ∷ slots) =
    let rest = image slots in
    elim s.topic [ none ↦ rest | some t ↦ entry_image t (str_of s.content) s.qos ++ rest ]

-- `data_len` is the length of the data.
abbrev pub AllSized : List Slot → Type 0
AllSized [] = Unit {0}
AllSized (s ∷ slots) = (s.data_len ≡ length (str_of s.content)) × AllSized slots

-- The first bytes of a buffer.
abbrev pub Holds : List ℕ → ℕ → List ℕ → Type 0
Holds done pos buf = (pos ≡ length done) × (take pos buf ≡ done) × (pos ≤ length buf)

pub Holds-write :
    (done xs buf : List ℕ) (pos pos' : ℕ)
    → Holds done pos buf
    → pos' ≡ pos + length xs
    → pos' ≤ length buf
    → Holds (done ++ xs) pos' (write buf pos xs)
Holds-write done xs buf pos pos' h e r = (
  omega (arith, length-append done xs, h.0),
  take-write xs buf pos pos' e r ∙ ap (λ d. d ++ xs) h.1,
  omega (arith, length-write xs buf pos),
)

take-set_after : (buf : List ℕ) (pos v : ℕ) → take pos (set buf pos v) ≡ take pos buf
take-set_after [] pos v = refl
take-set_after (x ∷ buf) zero v = refl
take-set_after (x ∷ buf) (suc pos) v = ap (◌∷◌ x) (take-set_after buf pos v)

-- A byte behind the place changes nothing before it.
Holds-set : (done buf : List ℕ) (pos v : ℕ) → Holds done pos buf → Holds done pos (set buf pos v)
Holds-set done buf pos v h =
    (h.0, take-set_after buf pos v ∙ h.1, omega (arith, length-set buf pos v, h.2))

-- The places of an entry's parts, behind a place `pos`.
abbrev Places : ℕ → List ℕ → List ℕ → ℕ → ℕ → ℕ → ℕ → ℕ → Type 0
Places pos t d p₁ p₂ p₃ p₄ p₅ =
    (p₁ ≡ pos + length t + 1) × (p₂ ≡ p₁ + 1) × (p₃ ≡ p₂ + 1) × (p₄ ≡ p₃ + length d) × (p₅ ≡ p₄ + 1)

flat :
    (done t d : List ℕ) (z lo hi q : ℕ)
    → done ++ (t ++ z ∷ []) ++ lo ∷ [] ++ hi ∷ [] ++ d ++ q ∷ []
      ≡ done ++ (t ++ z ∷ lo ∷ hi ∷ (d ++ q ∷ []))
flat [] [] d z lo hi q = refl
flat [] (c ∷ t) d z lo hi q = ap (◌∷◌ c) (flat [] t d z lo hi q)
flat (c ∷ done) t d z lo hi q = ap (◌∷◌ c) (flat done t d z lo hi q)

written :
    (done t d buf : List ℕ) (q pos p₁ p₂ p₃ p₄ p₅ : ℕ)
    → Holds done pos buf
    → Places pos t d p₁ p₂ p₃ p₄ p₅
    → p₅ < length buf
    → let b₁ = write buf pos (t ++ 0 ∷ []) in
      let b₂ = set b₁ p₁ (length d % 2 ^ 8) in
      let b₃ = set b₂ p₂ (length d / 2 ^ 8 % 2 ^ 8) in
      let b₅ = set (write b₃ p₃ d) p₄ q in
      Holds (done ++ entry_image t d q) p₅ b₅ × (length b₅ ≡ length buf)
written done t d buf q pos p₁ p₂ p₃ p₄ p₅ h e r =
    let lo = length d % 2 ^ 8 in
    let hi = length d / 2 ^ 8 % 2 ^ 8 in
    let b₁ = write buf pos (t ++ 0 ∷ []) in
    let b₂ = set b₁ p₁ lo in
    let b₃ = set b₂ p₂ hi in
    let b₄ = write b₃ p₃ d in
    let l₁ = length-write (t ++ 0 ∷ []) buf pos in
    let l₂ = length-set b₁ p₁ lo ∙ l₁ in
    let l₃ = length-set b₂ p₂ hi ∙ l₂ in
    let l₄ = length-write d b₃ p₃ ∙ l₃ in
    let d₁ = done ++ (t ++ 0 ∷ []) in
    let d₂ = d₁ ++ lo ∷ [] in
    let d₃ = d₂ ++ hi ∷ [] in
    let h₁ =
      Holds-write done (t ++ 0 ∷ []) buf pos p₁ h (omega (arith, e.0, length-append t (0 ∷ [])))
        (omega (arith, e)) in
    let h₂ = Holds-write d₁ (lo ∷ []) b₁ p₁ p₂ h₁ e.1 (omega (arith, e, l₁)) in
    let h₃ = Holds-write d₂ (hi ∷ []) b₂ p₂ p₃ h₂ e.2 (omega (arith, e, l₂)) in
    let h₄ = Holds-write d₃ d b₃ p₃ p₄ h₃ e.3 (omega (arith, e, l₃)) in
    let h₅ = Holds-write (d₃ ++ d) (q ∷ []) b₄ p₄ p₅ h₄ e.4 (omega (arith, e, l₄)) in
    (subst (λ x. Holds x p₅ (set b₄ p₄ q)) (flat done t d 0 lo hi q) h₅, length-set b₄ p₄ q ∙ l₄)

pub length-entry_image :
    (t d : List ℕ) (q : ℕ) → length (entry_image t d q) ≡ length t + length d + 4
length-entry_image t d q = omega (
  arith,
  length-append t (0 ∷ length d % 2 ^ 8 ∷ length d / 2 ^ 8 % 2 ^ 8 ∷ (d ++ q ∷ [])),
  length-append d (q ∷ []),
)

-- What a round leaves: the entry behind what is written, and a 0 behind it.
abbrev pub Written : List ℕ → ℕ → List ℕ → ℕ × List ℕ → Type 0
Written done n buf r =
    Holds done n r.1 × (r.0 ≡ n) × (length r.1 ≡ length buf) × (get_or r.1 n 1 ≡ 0)

pub put_entry_lem :
    (t d done : List ℕ) (q pos : ℕ) (buf : List ℕ)
    → length buf ≤ 2 ^ 16
    → Holds done pos buf
    → let e = entry_image t d q in
      pos + length e < length buf
      → Written (done ++ e) (pos + length e) buf (put_entry t d (length d) q pos buf)
put_entry_lem t d done q pos buf w h f =
    let n = length-entry_image t d q in
    let p₁ = pos + length t + 1 in
    let p₃ = p₁ + 1 + 1 in
    let p₅ = p₃ + length d + 1 in
    let e₁ : u16 p₁ ≡ p₁ = omega (arith, n) in
    let e₂ : u16 (p₁ + 1) ≡ p₁ + 1 = omega (arith, n) in
    let e₃ : u16 p₃ ≡ p₃ = omega (arith, n) in
    let e₄ : u16 (p₃ + length d) ≡ p₃ + length d = omega (arith, n) in
    let e₅ : u16 p₅ ≡ p₅ = omega (arith, n) in
    let at : p₅ ≡ pos + length (entry_image t d q) = omega (arith, n) in
    let r =
      written done t d buf q pos p₁ (p₁ + 1) p₃ (p₃ + length d) p₅ h (refl, refl, refl, refl, refl)
        (omega (arith, n)) in
    let b₁ = write buf pos (t ++ 0 ∷ []) in
    let b₃ = set (set b₁ p₁ (length d % 2 ^ 8)) (p₁ + 1) (length d / 2 ^ 8 % 2 ^ 8) in
    let b₅ = set (write b₃ p₃ d) (p₃ + length d) q in
    rw (e₁, e₂, e₃, e₄, e₅, take_all (length d) d (omega arith))
      (subst (λ x. Written (done ++ entry_image t d q) x buf (p₅, set b₅ p₅ 0)) at
        (
          Holds-set (done ++ entry_image t d q) b₅ p₅ 0 r.0,
          refl,
          length-set b₅ p₅ 0 ∙ r.1,
          get_or-set_self b₅ p₅ 0 1 (omega (arith, r.1, n)),
        ))
