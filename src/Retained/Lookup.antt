-- ===== src/Retained/Lookup.antt =====
-- The list of slots as a map from topics, and what a write to a slot does to it.
use u_mqttbroker.Base.{
  ℕ, zero, suc, ◌<◌, ◌≡◌, ◌⊎◌, inl, inr, refl, ap, subst, ◌∙◌, Bool, true, false, Option, none,
  some, List, [], ◌∷◌, arith, if◌then◌else◌, set, get_or, length, str_eq, str_eq_iff, Bool-cases,
}
use u_mqttbroker.Retained.{Slot, empty_slot, search, has_topic, is_free}

-- The data and QoS that are kept for a topic: those of the first slot that has it.
abbrev pub Value : Type 0
Value = Option (Option (List ℕ) × ℕ)

abbrev pub lookup : List Slot → List ℕ → Value
lookup [] t = none
lookup (s ∷ slots) t =
    let rest = lookup slots t in if has_topic t s then some (s.content, s.qos) else rest

abbrev pub Absent : List ℕ → List Slot → Type 0
Absent t [] = Unit {0}
Absent t (s ∷ slots) = (has_topic t s ≡ false) × Absent t slots

abbrev pub Fresh : Slot → List Slot → Type 0
Fresh s slots = (t : List ℕ) → s.topic ≡ some t → Absent t slots

-- No topic is in two slots.
abbrev pub Distinct : List Slot → Type 0
Distinct [] = Unit {0}
Distinct (s ∷ slots) = Fresh s slots × Distinct slots

some-str_eq :
    (o : Option (List ℕ)) (t : List ℕ)
    → (elim o [ none ↦ false | some t' ↦ str_eq t' t ]) ≡ true
    → o ≡ some t
some-str_eq none t h = cc
some-str_eq (some t') t h = ap some ((str_eq_iff t' t).0 h)

pub has_topic-some : (t : List ℕ) (s : Slot) → has_topic t s ≡ true → s.topic ≡ some t
has_topic-some t s h = some-str_eq s.topic t h

pub lookup-Absent : (t : List ℕ) (slots : List Slot) → Absent t slots → lookup slots t ≡ none
lookup-Absent t [] a = refl
lookup-Absent t (s ∷ slots) a = rw (a.0, lookup-Absent t slots a.1) refl

pub search-Absent :
    (t : List ℕ) (slots : List Slot) → (search (has_topic t) slots < length slots) ⊎ Absent t slots
search-Absent t [] = inr tt
search-Absent t (s ∷ slots) = elim (Bool-cases (has_topic t s)) [
  | inl e ↦ inl (ground (arith, e))
  | inr e ↦ elim (search-Absent t slots) [ inl l ↦ inl (ground (arith, e)) | inr a ↦ inr (e, a) ]
]

pub search_found :
    (p : Slot → Bool) (slots : List Slot)
    → search p slots < length slots
    → p (get_or slots (search p slots) empty_slot) ≡ true
search_found p [] h = absurd (omega arith)
search_found p (s ∷ slots) h = elim (Bool-cases (p s)) [
  | inl e ↦ ground (arith, e)
  | inr e ↦ rw e (search_found p slots (ground (arith, e)))
]

-- What a topic has once the slot that has it, or a free one, is filled.
abbrev pub set_value : List ℕ → Value → List Slot → List ℕ → Value
set_value t v slots t' = if str_eq t t' then v else lookup slots t'

module _ (t : List ℕ) (s' : Slot) where
  pub lookup-set_found :
      (slots : List Slot) (t' : List ℕ)
      → search (has_topic t) slots < length slots
      → s'.topic ≡ some t
      → lookup (set slots (search (has_topic t) slots) s') t'
        ≡ set_value t (some (s'.content, s'.qos)) slots t'
  lookup-set_found [] t' h e = absurd (omega arith)
  lookup-set_found (s ∷ slots) t' h e = elim (Bool-cases (has_topic t s)) [
    | inl same ↦ ground (arith, has_topic-some t s same)
    | inr other ↦ ground (arith, other, lookup-set_found slots t', str_eq_iff t t')
  ]

  pub lookup-set_gone :
      (slots : List Slot) (t' : List ℕ)
      → Distinct slots
      → s'.topic ≡ none
      → lookup (set slots (search (has_topic t) slots) s') t' ≡ set_value t none slots t'
  lookup-set_gone [] t' d e = ground arith
  lookup-set_gone (s ∷ slots) t' d e = elim (Bool-cases (has_topic t s)) [
    | inl same ↦ ground (
      arith,
      has_topic-some t s same,
      lookup-Absent t slots (d.0 t (has_topic-some t s same)),
      str_eq_iff t t',
    )
    | inr other ↦ ground (arith, other, lookup-set_gone slots t' d.1, str_eq_iff t t')
  ]

  pub lookup-set_new :
      (slots : List Slot) (t' : List ℕ)
      → search is_free slots < length slots
      → Absent t slots
      → s'.topic ≡ some t
      → lookup (set slots (search is_free slots) s') t'
        ≡ set_value t (some (s'.content, s'.qos)) slots t'
  lookup-set_new [] t' h a e = absurd (omega arith)
  lookup-set_new (s ∷ slots) t' h a e = elim (Bool-cases (is_free s)) [
    | inl free ↦ ground (arith, free)
    | inr taken ↦ ground (arith, taken, a, lookup-set_new slots t', str_eq_iff t t')
  ]

  -- Taking back what was put into a free slot.
  pub lookup-set_back :
      (slots : List Slot) (t' : List ℕ)
      → Absent t slots
      → s'.topic ≡ none
      → lookup (set slots (search is_free slots) s') t' ≡ set_value t none slots t'
  lookup-set_back [] t' a e = ground arith
  lookup-set_back (s ∷ slots) t' a e = elim (Bool-cases (is_free s)) [
    | inl free ↦ ground (arith, free, lookup-Absent t slots a.1, str_eq_iff t t')
    | inr taken ↦ ground (arith, taken, a.0, lookup-set_back slots t' a.1, str_eq_iff t t')
  ]

  Absent-set :
      (slots : List Slot) (i : ℕ) (t' : List ℕ)
      → Absent t' slots
      → has_topic t' s' ≡ false
      → Absent t' (set slots i s')
  Absent-set [] i t' a h = tt
  Absent-set (s ∷ slots) zero t' a h = (h, a.1)
  Absent-set (s ∷ slots) (suc i) t' a h = (a.0, Absent-set slots i t' a.1 h)

  -- The new slot's topic is none, or one that the other slots do not have.
  not_other :
      (s : Slot) (t' : List ℕ)
      → has_topic t s ≡ false
      → (s'.topic ≡ none) ⊎ (s'.topic ≡ some t)
      → s.topic ≡ some t'
      → has_topic t' s' ≡ false
  not_other s t' h e q = ground (arith, str_eq_iff t t', str_eq_iff t' t)

  pub Distinct-set :
      (slots : List Slot)
      → Distinct slots
      → (s'.topic ≡ none) ⊎ (s'.topic ≡ some t)
      → Distinct (set slots (search (has_topic t) slots) s')
  Distinct-set [] d e = tt
  Distinct-set (s ∷ slots) d e = elim (Bool-cases (has_topic t s)) [
    | inl same ↦
        rw same (λ t' q. d.0 t' (has_topic-some t s same ∙ ap some (ground (arith, e))), d.1)
    | inr other ↦ rw other (
      λ t' q.
          Absent-set slots (search (has_topic t) slots) t' (d.0 t' q) (not_other s t' other e q),
      Distinct-set slots d.1 e,
    )
  ]

  pub Distinct-set_new :
      (slots : List Slot)
      → Distinct slots
      → Absent t slots
      → (s'.topic ≡ none) ⊎ (s'.topic ≡ some t)
      → Distinct (set slots (search is_free slots) s')
  Distinct-set_new [] d a e = tt
  Distinct-set_new (s ∷ slots) d a e = elim (Bool-cases (is_free s)) [
    | inl free ↦ rw free (λ t' q. subst (λ u. Absent u slots) (ground (arith, e)) a.1, d.1)
    | inr taken ↦ rw taken (
      λ t' q. Absent-set slots (search is_free slots) t' (d.0 t' q) (not_other s t' a.0 e q),
      Distinct-set_new slots d.1 a.1 e,
    )
  ]
