-- ===== src/TopicList/Refine.antt =====
-- The table as the list of its subscriptions, and what `add_topic`, `delete_topic` and `find_topic`
-- do to it.
use u_mqttbroker.Base.{
  ℕ, suc, ◌≡◌, ◌⊎◌, inl, inr, refl, ap, Bool, true, false, not, Option, none, some, List, [], ◌∷◌,
  ◌++◌, if◌then◌else◌, Bool-cases, Option-cases, length, ◌&&◌,
}
use u_mqttbroker.Topics.{is_valid_name}
use u_mqttbroker.TopicList.{
  Str, live, Entry, add_entry, add, delete_entries, delete, is_client, is_topic, find_entries, find,
  str_matches,
}

pub record Subscription : Type 0 where
  pub client : ℕ
  pub topic : Str
  pub qos : ℕ

abbrev pub subscription : ℕ → Entry → Subscription
subscription c e = record { client = c; topic = e.topic; qos = e.qos }

abbrev pub subscriptions : List Entry → List Subscription
subscriptions [] = []
subscriptions (e ∷ entries) =
    let rest = subscriptions entries in
    elim e.clientcon [ none ↦ rest | some c ↦ subscription c e ∷ rest ]

abbrev pub keep : {A : Type 0} → (A → Bool) → List A → List A
keep p [] = []
keep p (x ∷ xs) = let rest = keep p xs in if p x then x ∷ rest else rest

-- The new subscription stands somewhere in the list, and the others are as they were.
abbrev pub Inserted : Subscription → List Subscription → List Subscription → Type 0
Inserted s old new =
    (front : List Subscription) × (back : List Subscription) × (old ≡ front ++ back)
    × (new ≡ front ++ s ∷ back)

abbrev pub Full : List Entry → Type 0
Full entries = (length (subscriptions entries) ≡ length entries)

-- The subscription is added; or it is refused for want of memory or of a free entry, and the list
-- stays as it is.
abbrev pub Adds : Bool → Subscription → List Entry → Bool × List Entry → Type 0
Adds memory s entries r =
    ((r.0 ≡ true) × Inserted s (subscriptions entries) (subscriptions r.1))
    ⊎ ((r.0 ≡ false)
        × ((memory ≡ false) ⊎ Full entries)
        × (subscriptions r.1 ≡ subscriptions entries))

module _ (memory : Bool) (client : ℕ) (topic : List ℕ) (qos : ℕ) where
  add_entry-Adds :
      (entries : List Entry)
      → Adds memory
          (record { client = client; topic = live topic; qos = qos })
          entries
          (add_entry memory client topic qos entries)
  add_entry-Adds [] = inr (refl, inr refl, refl)
  add_entry-Adds (e ∷ entries) = elim (Option-cases e.clientcon) [
    | inl n ↦ elim (Bool-cases memory) [
      | inl m ↦ rw (n, m) (inl (refl, ([], subscriptions entries, refl, refl)))
      | inr m ↦ rw (n, m) (inr (refl, inl refl, refl))
    ]
    | inr (c, n) ↦ elim (add_entry-Adds entries) [
      | inl (d, (front, back, old, new)) ↦
          rw n (inl (d, (subscription c e ∷ front, back, rw old refl, rw new refl)))
      | inr (d, why, same) ↦
          rw n (inr (d, elim why [ inl m ↦ inl m | inr f ↦ inr (ap suc f) ], rw same refl))
    ]
  ]

  -- On a table that exists, a valid name is inserted as a new subscription, or refused for want of
  -- memory or of a free entry with the subscriptions unchanged; a name that is not valid is refused
  -- and the table stays as it is.
  pub add-Adds :
      (entries : List Entry)
      → (r : Bool × List Entry) × (add memory (some entries) client topic qos ≡ (r.0, some r.1))
        × (((is_valid_name topic ≡ true)
              × Adds memory (record { client = client; topic = live topic; qos = qos }) entries r)
            ⊎ ((is_valid_name topic ≡ false) × (r ≡ (false, entries))))
  unfolding add
  add-Adds entries = elim (Bool-cases (is_valid_name topic)) [
    | inl v ↦
        (add_entry memory client topic qos entries, rw v refl, inl (v, add_entry-Adds entries))
    | inr v ↦ ((false, entries), rw v refl, inr (v, refl))
  ]

-- Whether `delete_topic` means the subscription.
abbrev pub selects : Option ℕ → Option (List ℕ) → Subscription → Bool
selects client topic s = is_client client s.client && is_topic topic s.topic

pub delete_entries_lem :
    (client : Option ℕ) (topic : Option (List ℕ)) (entries : List Entry)
    → subscriptions (delete_entries client topic entries)
      ≡ keep (λ s. not (selects client topic s)) (subscriptions entries)
delete_entries_lem client topic [] = refl
delete_entries_lem client topic (e ∷ entries) = elim (Option-cases e.clientcon) [
  | inl n ↦ rw (n, delete_entries_lem client topic entries) refl
  | inr (c, n) ↦ elim (Bool-cases (is_client client c && is_topic topic e.topic)) [
    | inl m ↦ rw (n, m, delete_entries_lem client topic entries) refl
    | inr m ↦ rw (n, m, delete_entries_lem client topic entries) refl
  ]
]

pub find_entries_lem :
    (topic : List ℕ) (entries : List Entry)
    → subscriptions (find_entries topic entries)
      ≡ keep (λ s. str_matches s.topic topic) (subscriptions entries)
find_entries_lem topic [] = refl
find_entries_lem topic (e ∷ entries) = elim (Option-cases e.clientcon) [
  | inl n ↦ rw (n, find_entries_lem topic entries) refl
  | inr (c, n) ↦ elim (Bool-cases (str_matches e.topic topic)) [
    | inl m ↦ rw (n, m, n, find_entries_lem topic entries) refl
    | inr m ↦ rw (n, m, find_entries_lem topic entries) refl
  ]
]

keep-keep :
    {A : Type 0} (p q : A → Bool) (xs : List A) → keep p (keep q xs) ≡ keep (λ x. q x && p x) xs
keep-keep p q [] = refl
keep-keep p q (x ∷ xs) = elim (Bool-cases (q x)) [
  | inl e ↦ elim (Bool-cases (p x)) [
    | inl f ↦ rw (e, f, keep-keep p q xs) refl
    | inr f ↦ rw (e, f, keep-keep p q xs) refl
  ]
  | inr e ↦ rw (e, keep-keep p q xs) refl
]

-- After a deletion, the subscriptions that a topic finds are those that the deletion does not mean
-- and that match, in order.
pub find-delete :
    (client : Option ℕ) (name : Option (List ℕ)) (topic : List ℕ) (entries : List Entry)
    → subscriptions (find (delete (some entries) client name).1 topic).0
      ≡ keep (λ s. not (selects client name s) && str_matches s.topic topic) (subscriptions entries)
unfolding find delete
find-delete client name topic entries =
    rw
      (
        find_entries_lem topic (delete_entries client name entries),
        delete_entries_lem client name entries,
      )
      (keep-keep (λ s. str_matches s.topic topic) (λ s. not (selects client name s))
        (subscriptions entries))
