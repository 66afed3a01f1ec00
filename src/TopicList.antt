-- ===== src/TopicList.antt =====
-- src/mqtt_topiclist.cpp: the table of subscriptions. `topic_list` is `none` before it is created.
-- Strings are without the final 0. Whether an `os_malloc` gives memory is an argument.
pub mod Inv
pub mod Refine
mod Tests
use u_mqttbroker.Base.{
  ℕ, zero, suc, ◌+◌, Bool, true, false, not, ◌&&◌, ◌||◌, Option, none, some, List, [], ◌∷◌,
  if◌then◌else◌, ltb, ◌==◌, set, get_or, length, replicate, str_eq,
}
use u_mqttbroker.Topics.{matches, is_valid_name}

-- A pointer to a string: NULL, memory that is in use, or memory that was given back.
pub data Str : Type 0 where
  null : Str
  live : List ℕ → Str
  freed : Str

-- `topic_entry`; a connection is known by its address, and `none` is NULL.
pub record Entry : Type 0 where
  pub clientcon : Option ℕ
  pub topic : Str
  pub qos : ℕ

abbrev pub free_entry : Entry
free_entry = record { clientcon = none; topic = null; qos = 0 }

unfoldable pub create : Bool → ℕ → Bool × Option (List Entry)
create memory num_entries =
    if memory then (true, some (replicate num_entries free_entry)) else (false, none)

-- The loop of `add_topic`: the first entry without a connection is taken.
abbrev pub add_entry : Bool → ℕ → List ℕ → ℕ → List Entry → Bool × List Entry
add_entry memory client topic qos [] = (false, [])
add_entry memory client topic qos (e ∷ entries) =
    let rest = add_entry memory client topic qos entries in
    elim e.clientcon [
      | none ↦
          if memory
          then (true, record { clientcon = some client; topic = live topic; qos = qos } ∷ entries)
          else (false, record e { topic = null } ∷ entries)
      | some _ ↦ (rest.0, e ∷ rest.1)
    ]

unfoldable pub add : Bool → Option (List Entry) → ℕ → List ℕ → ℕ → Bool × Option (List Entry)
add memory topic_list client topic qos = elim topic_list [
  | none ↦ (false, none)
  | some entries ↦
      if is_valid_name topic
      then (let (done, entries') = add_entry memory client topic qos entries in
          (done, some entries'))
      else (false, some entries)
]

-- `clientcon == NULL || topic_list[i].clientcon == clientcon`, for an entry of the client `owner`.
abbrev pub is_client : Option ℕ → ℕ → Bool
is_client none owner = true
is_client (some c) owner = owner == c

-- `topic == NULL || (… != NULL && strcmp(…) == 0)`; the text of freed memory counts as another.
abbrev pub is_topic : Option (List ℕ) → Str → Bool
is_topic none s = true
is_topic (some t) null = false
is_topic (some t) (live s) = str_eq t s
is_topic (some t) freed = false

abbrev pub delete_entry : Option ℕ → Option (List ℕ) → Entry → Entry
delete_entry client topic e = elim e.clientcon [
  | none ↦ e
  | some owner ↦
      if is_client client owner && is_topic topic e.topic
      then record { clientcon = none; topic = freed; qos = 0 }
      else e
]

abbrev pub delete_entries : Option ℕ → Option (List ℕ) → List Entry → List Entry
delete_entries client topic [] = []
delete_entries client topic (e ∷ entries) =
    delete_entry client topic e ∷ delete_entries client topic entries

unfoldable pub delete :
    Option (List Entry) → Option ℕ → Option (List ℕ) → Bool × Option (List Entry)
delete topic_list client topic = elim topic_list [
  | none ↦ (false, none)
  | some entries ↦ (true, some (delete_entries client topic entries))
]

-- `Topics_matches` on the topic of an entry.
abbrev pub str_matches : Str → List ℕ → Bool
str_matches null topic = false
str_matches (live s) topic = matches s true topic
str_matches freed topic = false

-- The entries that `find_topic` calls its callback with, in order.
abbrev pub find_entries : List ℕ → List Entry → List Entry
find_entries topic [] = []
find_entries topic (e ∷ entries) =
    let rest = find_entries topic entries in
    elim e.clientcon [ none ↦ rest | some _ ↦ if str_matches e.topic topic then e ∷ rest else rest ]

unfoldable pub find : Option (List Entry) → List ℕ → List Entry × Bool
find topic_list topic = elim topic_list [
  | none ↦ ([], false)
  | some entries ↦ let found = find_entries topic entries in (found, ltb 0 (length found))
]

-- `iterate_topics`, whose callback can stop the loop.
module _ {ℓ} {S : Type ℓ} (cb : Entry → S → Bool × S) where
  abbrev pub iterate_entries : List Entry → S → S
  iterate_entries [] state = state
  iterate_entries (e ∷ entries) state =
      let (stop, state') = cb e state in
      let rest = iterate_entries entries state' in
      elim e.clientcon [
        | none ↦ iterate_entries entries state
        | some _ ↦ if stop then state' else rest
      ]

  unfoldable pub iterate : Option (List Entry) → S → S
  iterate topic_list state = elim topic_list [
    | none ↦ state
    | some entries ↦ iterate_entries entries state
  ]
