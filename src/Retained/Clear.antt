-- ===== src/Retained/Clear.antt =====
-- `clear_retainedtopics` of src/mqtt_retainedlist.c: its loop runs over a list that its callback changes.
use u_mqttbroker.Base.{
  ℕ, zero, suc, ◌+◌, ◌<◌, ◌≡◌, inl, inr, refl, ◌∙◌, Bool, true, none, some, List, [], ◌∷◌, arith,
  ltb, set, get_or, length, length-set, subst, str_eq_refl, Option-cases,
}
use u_mqttbroker.Retained.{
  Slot, empty_slot, search, has_topic, update_slots, store_at, no_memory, clear_slots, clear,
}
use u_mqttbroker.Retained.Lookup.{lookup}

-- The first `i` entries are free.
abbrev FreeBelow : ℕ → List Slot → Type 0
FreeBelow zero slots = Unit {0}
FreeBelow (suc i) [] = Unit {0}
FreeBelow (suc i) (s ∷ slots) = (s.topic ≡ none) × FreeBelow i slots

lookup-FreeBelow :
    (slots : List Slot) (t : List ℕ) → FreeBelow (length slots) slots → lookup slots t ≡ none
lookup-FreeBelow [] t f = refl
lookup-FreeBelow (s ∷ slots) t f = ground (arith, f.0, lookup-FreeBelow slots t f.1)

-- The entry `i` is the first that has its topic.
search-FreeBelow :
    (slots : List Slot) (i : ℕ) (t : List ℕ)
    → FreeBelow i slots
    → (get_or slots i empty_slot).topic ≡ some t
    → (search (has_topic t) slots ≡ i) × (i < length slots)
search-FreeBelow [] i t f h = absurd cc
search-FreeBelow (s ∷ slots) zero t f h = ground (arith, str_eq_refl t)
search-FreeBelow (s ∷ slots) (suc i) t f h = ground (arith, f.0, search-FreeBelow slots i t f.1 h)

FreeBelow-set :
    (slots : List Slot) (i : ℕ) (s : Slot)
    → FreeBelow i slots
    → s.topic ≡ none
    → FreeBelow (suc i) (set slots i s)
FreeBelow-set [] i s f h = tt
FreeBelow-set (s₀ ∷ slots) zero s f h = (h, tt)
FreeBelow-set (s₀ ∷ slots) (suc i) s f h = (f.0, FreeBelow-set slots i s f.1 h)

FreeBelow-next :
    (slots : List Slot) (i : ℕ)
    → FreeBelow i slots
    → (get_or slots i empty_slot).topic ≡ none
    → FreeBelow (suc i) slots
FreeBelow-next [] i f h = tt
FreeBelow-next (s ∷ slots) zero f h = (h, tt)
FreeBelow-next (s ∷ slots) (suc i) f h = (f.0, FreeBelow-next slots i f.1 h)

ltb-true : (m n : ℕ) → m < n → ltb m n ≡ true
ltb-true m n h = ground arith

-- The round for an entry with a topic frees it.
update_slots-free :
    (cb : Bool) (slots : List Slot) (i : ℕ) (t : List ℕ) (q : ℕ)
    → FreeBelow i slots
    → (get_or slots i empty_slot).topic ≡ some t
    → (update_slots cb no_memory slots t [] q).1
      ≡ set slots i
          (record (get_or slots i empty_slot) { topic = none; content = none; data_len = 0 })
unfolding update_slots store_at
update_slots-free cb slots i t q f h =
    let (e, l) = search-FreeBelow slots i t f h in rw (e, ltb-true i (length slots) l) refl

abbrev pub IsCleared : List Slot → List Slot → Type 0
IsCleared slots slots' = (length slots' ≡ length slots) × ((t : List ℕ) → lookup slots' t ≡ none)

clear_slots-IsCleared :
    (cb : Bool) (n i : ℕ) (slots : List Slot)
    → i + n ≡ length slots
    → FreeBelow i slots
    → IsCleared slots (clear_slots cb n i slots).0
unfolding clear_slots
clear_slots-IsCleared cb zero i slots h f =
    (refl, λ t. lookup-FreeBelow slots t (subst (λ k. FreeBelow k slots) (omega arith) f))
clear_slots-IsCleared cb (suc n) i slots h f =
    let s = get_or slots i empty_slot in
    let gone = record s { topic = none; content = none; data_len = 0 } in
    elim (Option-cases s.topic) [
      | inl e ↦
          rw (clear_slots, e)
            (clear_slots-IsCleared cb n (suc i) slots (omega arith) (FreeBelow-next slots i f e))
      | inr (t, e) ↦
          let rest =
            clear_slots-IsCleared cb n (suc i) (set slots i gone)
              (omega (arith, length-set slots i gone)) (FreeBelow-set slots i gone f refl) in
          rw (clear_slots, e, update_slots-free cb slots i t s.qos f e)
            (rest.0 ∙ length-set slots i gone, rest.1)
    ]

-- When the loop of `clear_retainedtopics` ends, no topic has a message and the list is as long as
-- it was.
pub clear-IsCleared :
    (cb : Bool) (slots : List Slot)
    → (slots' : List Slot) × ((clear
          (record { retained_list = some slots; retained_cb = cb })).0.retained_list
        ≡ some slots')
      × IsCleared slots slots'
unfolding clear
clear-IsCleared cb slots = (
  (clear_slots cb (length slots) 0 slots).0,
  refl,
  clear_slots-IsCleared cb (length slots) 0 slots (omega arith) tt,
)
