-- ===== src/Retained.antt =====
-- src/mqtt_retainedlist.c: the list of retained messages, its flash image, its callback.
-- `retained_list` is `none` before it is created, and `max_entry` is its length. Strings are without
-- the final 0. Whether an `os_malloc` gives memory is an argument of the operation.
pub mod Lookup
pub mod Refine
pub mod Clear
pub mod Image
mod Tests
use u_mqttbroker.Base.{
  ℕ, zero, suc, ◌+◌, ◌-◌, ◌*◌, ◌/◌, ◌%◌, ◌^◌, Bool, true, false, not, ◌&&◌, Option, none, some,
  List, [], ◌∷◌, ◌++◌, if◌then◌else◌, ltb, leb, ◌==◌, set, get_or, length, take, drop, replicate,
  str_eq, write,
}
use u_mqttbroker.Topics.{matches}

-- `retained_entry`; `data` is `content`.
pub record Slot : Type 0 where
  pub topic : Option (List ℕ)
  pub content : Option (List ℕ)
  pub data_len : ℕ
  pub qos : ℕ

abbrev pub empty_slot : Slot
empty_slot = record { topic = none; content = none; data_len = 0; qos = 0 }

-- The file's static variables; `retained_cb` tells whether a callback is set.
pub record Store : Type 0 where
  pub retained_list : Option (List Slot)
  pub retained_cb : Bool

-- What the two `os_malloc` calls of an update return: memory, or NULL.
pub record Memory : Type 0 where
  pub topic : Bool
  pub content : Bool

unfoldable pub create : Bool → ℕ → Bool × Store
create memory num_entries =
    if memory
    then (
      true,
      record { retained_list = some (replicate num_entries empty_slot); retained_cb = false },
    )
    else (false, record { retained_list = none; retained_cb = false })

unfoldable pub set_on_retainedtopic_cb : Store → Bool → Store
set_on_retainedtopic_cb s cb = record s { retained_cb = cb }

-- `for (i = 0; i < max_entry; i++) if (…) break;`
abbrev pub search : (Slot → Bool) → List Slot → ℕ
search p [] = 0
search p (s ∷ slots) = let rest = search p slots in if p s then 0 else suc rest

abbrev pub has_topic : List ℕ → Slot → Bool
has_topic topic s = elim s.topic [ none ↦ false | some t ↦ str_eq t topic ]

abbrev pub is_free : Slot → Bool
is_free s = elim s.topic [ none ↦ true | some t ↦ false ]

-- The calls of `retained_cb`: `none` is the argument NULL.
abbrev pub Calls : Type 0
Calls = List (Option Slot)

abbrev pub call : Bool → Option Slot → Calls
call set_cb entry = if set_cb then entry ∷ [] else []

-- Whether `data` points to memory behind the allocation: it stays if the size is the same.
abbrev pub has_memory : Bool → Slot → ℕ → Bool
has_memory memory s data_len = elim s.content [
  | none ↦ memory
  | some _ ↦ if s.data_len == data_len then true else memory
]

-- The part behind the search: the entry `i` has the topic.
unfoldable pub store_at : Bool → Bool → List Slot → ℕ → List ℕ → ℕ → Bool × List Slot × Calls
store_at cb memory slots i content qos =
    let s = get_or slots i empty_slot in
    if length content == 0
    then (true, set slots i (record s { topic = none; content = none; data_len = 0 }), call cb none)
    else if has_memory memory s (length content)
    then (let s' = record s { content = some content; data_len = length content; qos = qos } in
        (true, set slots i s', call cb (some s')))
    else (false, set slots i (record s { topic = none; content = none; data_len = 0 }), [])

unfoldable pub update_slots :
    Bool → Memory → List Slot → List ℕ → List ℕ → ℕ → Bool × List Slot × Calls
unfolding store_at
update_slots cb memory slots topic content qos =
    let i = search (has_topic topic) slots in
    let j = search is_free slots in
    if ltb i (length slots)
    then store_at cb memory.content slots i content qos
    else if length content == 0
    then (true, slots, [])
    else if leb (length slots) j
    then (false, slots, [])
    else if memory.topic
    then store_at cb memory.content
        (set slots j (record (get_or slots j empty_slot) { topic = some topic })) j content qos
    else (false, slots, [])

-- `update_retainedtopic`, for data of fewer than 2 ^ 16 bytes.
unfoldable pub update : Memory → Store → List ℕ → List ℕ → ℕ → Bool × Store × Calls
unfolding update_slots
update memory s topic content qos = elim s.retained_list [
  | none ↦ (false, s, [])
  | some slots ↦
      let (done, slots', calls) = update_slots s.retained_cb memory slots topic content qos in
      (done, record s { retained_list = some slots' }, calls)
]

-- `find_retainedtopic`: the entries that the callback is called with, in order.
abbrev pub find_slots : List Slot → List ℕ → List Slot
find_slots [] topic = []
find_slots (s ∷ slots) topic =
    let rest = find_slots slots topic in
    elim s.topic [ none ↦ rest | some t ↦ if matches topic true t then s ∷ rest else rest ]

unfoldable pub find : Store → List ℕ → List Slot × Bool
find s topic = elim s.retained_list [
  | none ↦ ([], false)
  | some slots ↦ let found = find_slots slots topic in (found, ltb 0 (length found))
]

-- `iterate_retainedtopics`, whose callback can stop the loop.
module _ {ℓ} {S : Type ℓ} (cb : Slot → S → Bool × S) where
  abbrev pub iterate_slots : List Slot → S → S
  iterate_slots [] state = state
  iterate_slots (s ∷ slots) state =
      let (stop, state') = cb s state in
      let rest = iterate_slots slots state' in
      elim s.topic [ none ↦ iterate_slots slots state | some t ↦ if stop then state' else rest ]

  unfoldable pub iterate : Store → S → S
  iterate s state = elim s.retained_list [ none ↦ state | some slots ↦ iterate_slots slots state ]

-- An update without data allocates nothing.
abbrev pub no_memory : Memory
no_memory = record { topic = false; content = false }

-- `clear_retainedtopics`: the loop over `clear_cb`, which changes the list under it; the numbers
-- are the rounds left and `i`.
unfoldable pub clear_slots : Bool → ℕ → ℕ → List Slot → List Slot × Calls
unfolding update_slots
clear_slots cb zero i slots = (slots, [])
clear_slots cb (suc n) i slots =
    let entry = get_or slots i empty_slot in
    elim entry.topic [
      | none ↦ clear_slots cb n (suc i) slots
      | some t ↦
          let (_, slots', calls) = update_slots cb no_memory slots t [] entry.qos in
          let (slots'', more) = clear_slots cb n (suc i) slots' in (slots'', calls ++ more)
    ]

unfoldable pub clear : Store → Store × Calls
unfolding clear_slots
clear s = elim s.retained_list [
  | none ↦ (s, [])
  | some slots ↦
      let (slots', calls) = clear_slots s.retained_cb (length slots) 0 slots in
      (record s { retained_list = some slots' }, calls)
]
