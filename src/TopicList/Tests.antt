-- ===== src/TopicList/Tests.antt =====
-- Runs of the table of subscriptions.
use u_mqttbroker.Base.{
  ◌≡◌, ◌⊎◌, inl, inr, refl, Bool, true, false, not, ◌&&◌, none, some, List, [], ◌∷◌,
}
use u_mqttbroker.Topics.{is_valid_name}
use u_mqttbroker.TopicList.{live, Entry, free_entry, add, delete, find, str_matches}
use u_mqttbroker.TopicList.Inv.{IsValid}
use u_mqttbroker.TopicList.Refine.{subscriptions, keep, Adds, selects, add-Adds, find-delete}

-- The client 3 has subscribed to "a"; the second entry is free.
abbrev entries : List Entry
entries = record { clientcon = some 3; topic = live (b'a' ∷ []); qos = 0 } ∷ free_entry ∷ []

entries-IsValid : IsValid (some entries)
unfolding is_valid_name
entries-IsValid = (inr (b'a' ∷ [], refl, refl), (inl refl, tt))

add-Adds_example :
    (r : Bool × List Entry) × (add true (some entries) 4 (b'b' ∷ []) 0 ≡ (r.0, some r.1))
    × (((is_valid_name (b'b' ∷ []) ≡ true)
          × Adds true (record { client = 4; topic = live (b'b' ∷ []); qos = 0 }) entries r)
        ⊎ ((is_valid_name (b'b' ∷ []) ≡ false) × (r ≡ (false, entries))))
add-Adds_example = add-Adds true 4 (b'b' ∷ []) 0 entries

find-delete_example :
    subscriptions (find (delete (some entries) (some 3) none).1 (b'a' ∷ [])).0
    ≡ keep
        (λ s. not (selects (some 3) none s) && str_matches s.topic (b'a' ∷ []))
        (subscriptions entries)
find-delete_example = find-delete (some 3) none (b'a' ∷ []) entries
