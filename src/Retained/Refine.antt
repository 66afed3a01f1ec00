-- ===== src/Retained/Refine.antt =====
-- What `update_retainedtopic` does to the map of retained messages, on every branch.
use u_mqttbroker.Base.{
  ℕ, ◌≤◌, ◌≡◌, ◌≢◌, ◌⊎◌, Bool, true, false, none, some, List, [], if◌then◌else◌, ◌==◌, length,
}
use u_mqttbroker.Retained.{Slot, Memory, search, is_free}
use u_mqttbroker.Retained.Lookup.{lookup, Distinct, set_value}

-- The entry for a topic behind an update with data.
abbrev pub entry_of : List ℕ → List ℕ → ℕ → Slot
entry_of t d q = record { topic = some t; content = some d; data_len = length d; qos = q }

-- Why an update fails: one of the two allocations, or no free slot.
abbrev pub Exhausted : Memory → List Slot → Type 0
Exhausted memory slots =
    (memory.topic ≡ false) ⊎ (memory.content ≡ false) ⊎ (length slots ≤ search is_free slots)

-- The update works, and the topic has the new value, or none for empty data.
abbrev pub Worked : List Slot → List ℕ → List ℕ → ℕ → List Slot → Type 0
Worked slots t d q slots' =
    (t' : List ℕ)
    → lookup slots' t' ≡ set_value t (if length d == 0 then none else some (some d, q)) slots t'

-- The update fails: nothing changes, or the topic's old message is gone.
abbrev pub Failed : Memory → List Slot → List ℕ → List ℕ → List Slot → Type 0
Failed memory slots t d slots' =
    (d ≢ [])
    × Exhausted memory slots
    × ((slots' ≡ slots) ⊎ ((t' : List ℕ) → lookup slots' t' ≡ set_value t none slots t'))

pub record Updates (memory : Memory) (slots : List Slot) (t d : List ℕ) (q : ℕ) (done : Bool)
    (slots' : List Slot) : Type 0 where
  pub distinct : Distinct slots'
  pub capacity : length slots' ≡ length slots
  pub outcome :
      ((done ≡ true) × Worked slots t d q slots')
      ⊎ ((done ≡ false) × Failed memory slots t d slots')
