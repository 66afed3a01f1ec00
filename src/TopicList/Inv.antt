-- ===== src/TopicList/Inv.antt =====
-- The memory behind the table: an entry with a connection has a topic in use.
use u_mqttbroker.Base.{
  ℕ, zero, suc, ◌≡◌, ◌⊎◌, inl, inr, refl, Bool, true, false, Option, none, some, List, [], ◌∷◌,
  Bool-cases, Option-cases, replicate, ◌&&◌,
}
use u_mqttbroker.Topics.{is_valid_name}
use u_mqttbroker.TopicList.{
  live, Entry, free_entry, create, add_entry, add, delete_entry, delete_entries, delete, is_client,
  is_topic,
}

-- An entry is free, or its topic is a valid name in memory that is in use.
abbrev pub IsOwned : Entry → Type 0
IsOwned e = (e.clientcon ≡ none) ⊎ ((s : List ℕ) × (e.topic ≡ live s) × (is_valid_name s ≡ true))

abbrev pub AllOwned : List Entry → Type 0
AllOwned [] = Unit {0}
AllOwned (e ∷ entries) = IsOwned e × AllOwned entries

abbrev pub IsValid : Option (List Entry) → Type 0
IsValid none = Unit {0}
IsValid (some entries) = AllOwned entries

AllOwned-replicate : (n : ℕ) → AllOwned (replicate n free_entry)
AllOwned-replicate zero = tt
AllOwned-replicate (suc n) = (inl refl, AllOwned-replicate n)

pub create-IsValid : (memory : Bool) (n : ℕ) → IsValid (create memory n).1
unfolding create
create-IsValid true n = AllOwned-replicate n
create-IsValid false n = tt

module _ (memory : Bool) (client : ℕ) (topic : List ℕ) (qos : ℕ) where
  add_entry-AllOwned :
      (entries : List Entry)
      → is_valid_name topic ≡ true
      → AllOwned entries
      → AllOwned (add_entry memory client topic qos entries).1
  add_entry-AllOwned [] v a = tt
  add_entry-AllOwned (e ∷ entries) v a = elim (Option-cases e.clientcon) [
    | inl n ↦ elim (Bool-cases memory) [
      | inl m ↦ rw (n, m) (inr (topic, refl, v), a.1)
      | inr m ↦ rw (n, m) (inl refl, a.1)
    ]
    | inr (c, n) ↦ rw n ((rw n at a.0), add_entry-AllOwned entries v a.1)
  ]

  -- If each entry of the table is free or has a valid name in memory that is in use, then so after
  -- `add_topic`, on every branch.
  pub add-IsValid :
      (topic_list : Option (List Entry))
      → IsValid topic_list
      → IsValid (add memory topic_list client topic qos).1
  unfolding add
  add-IsValid none a = tt
  add-IsValid (some entries) a = elim (Bool-cases (is_valid_name topic)) [
    | inl v ↦ rw v (add_entry-AllOwned entries v a)
    | inr v ↦ rw v a
  ]

module _ (client : Option ℕ) (topic : Option (List ℕ)) where
  delete_entry-IsOwned : (e : Entry) → IsOwned e → IsOwned (delete_entry client topic e)
  delete_entry-IsOwned e o = elim (Option-cases e.clientcon) [
    | inl n ↦ rw n (inl refl)
    | inr (c, n) ↦ elim (Bool-cases (is_client client c && is_topic topic e.topic)) [
      | inl m ↦ rw (n, m) (inl refl)
      | inr m ↦ rw (n, m) (rw n at o)
    ]
  ]

  delete_entries-AllOwned :
      (entries : List Entry) → AllOwned entries → AllOwned (delete_entries client topic entries)
  delete_entries-AllOwned [] a = tt
  delete_entries-AllOwned (e ∷ entries) a =
      (delete_entry-IsOwned e a.0, delete_entries-AllOwned entries a.1)

  -- If each entry of the table is free or has a valid name in memory that is in use, then so after
  -- `delete_topic`, for any client and topic or for all.
  pub delete-IsValid :
      (topic_list : Option (List Entry))
      → IsValid topic_list
      → IsValid (delete topic_list client topic).1
  unfolding delete
  delete-IsValid none a = tt
  delete-IsValid (some entries) a = delete_entries-AllOwned entries a
