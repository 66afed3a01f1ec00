-- ===== src/Retained/Tests.antt =====
-- Runs of the list of retained messages.
use u_mqttbroker.Base.{
  ◌≡◌, inl, inr, refl, true, false, some, List, [], ◌∷◌, arith, replicate, take,
}
use u_mqttbroker.Retained.{Slot, empty_slot, Store, Memory, clear}
use u_mqttbroker.Retained.Clear.{IsCleared, clear-IsCleared}
use u_mqttbroker.Retained.Image.{serialize, deserialize}
use u_mqttbroker.Retained.Image.Entry.{AllStorable, replay}
use u_mqttbroker.Retained.Image.Load.{load_saved}

abbrev memory : Memory
memory = record { topic = true; content = true }

abbrev slot : Slot
slot = record { topic = some (b'a' ∷ []); content = some (1 ∷ 2 ∷ []); data_len = 2; qos = 1 }

abbrev slots : List Slot
slots = slot ∷ empty_slot ∷ []

clear_example :
    (slots' : List Slot) × ((clear
        (record { retained_list = some slots; retained_cb = true })).0.retained_list
      ≡ some slots')
    × IsCleared slots slots'
clear_example = clear-IsCleared true slots

slots-AllStorable : AllStorable slots
slots-AllStorable =
    (inr (b'a', [], refl, (ground arith, tt)), omega arith, (inl refl, omega arith, tt))

abbrev restored : Store
restored = record { retained_list = some (empty_slot ∷ empty_slot ∷ []); retained_cb = false }

load_saved_example :
    let r =
      serialize (record { retained_list = some slots; retained_cb = true }) (replicate 16 9) 16 in
    deserialize true (λ pos. memory) 3 (take r.0 r.1) restored
    ≡ some (replay (λ pos. memory) 0 slots restored)
load_saved_example =
    load_saved true (λ pos. memory) 3 slots (replicate 16 9) restored (refl, (refl, tt))
      slots-AllStorable (omega arith) (omega arith) (omega arith)
