-- ===== src/Server/Removal.antt =====
-- src/mqtt_server.cpp: what is left of a client that was removed.
use u_mqttbroker.Base.{
  ℕ, ◌≡◌, inl, inr, refl, ap, subst, ◌∙◌, Bool, not, none, some, List, [], ◌∷◌, arith, ◌==◌,
  Bool-cases, Option-cases,
}
use u_mqttbroker.TopicList.{Entry}
use u_mqttbroker.TopicList
use u_mqttbroker.TopicList.Refine.{subscriptions, keep, selects, delete_entries_lem}
use u_mqttbroker.Retained.{Memory}
use u_mqttbroker.Retained.Image.{str_of}
use u_mqttbroker.Server.{
  Broker, Client, ClientId, no_id, zero_len_id, id, local_mqtt_client, find_client, unlink,
}
use u_mqttbroker.Server.Publish.{
  enqueue, publish_topic, publish_all, publish, next_client, activate_next_client,
}
use u_mqttbroker.Server.Close.{notify, publish_will, delete_client_con}
use u_mqttbroker.Server.Delivery.{put_client-none}

-- What the removal of a client leaves in peace: the subscriptions, and that a client is not listed.
abbrev Leaves : ℕ → Broker → Broker → Type 0
Leaves a b b' =
    (b'.topic_list ≡ b.topic_list)
    × (find_client a b.clientcon_list ≡ none → find_client a b'.clientcon_list ≡ none)

Leaves-trans : (a : ℕ) (b b' b'' : Broker) → Leaves a b b' → Leaves a b' b'' → Leaves a b b''
Leaves-trans a b b' b'' l k = (k.0 ∙ l.0, λ e. k.1 (l.1 e))

publish_topic-Leaves :
    (a : ℕ) (b : Broker) (e : Entry) (topic content : List ℕ)
    → Leaves a b (publish_topic b e topic content).1
unfolding publish_topic enqueue
publish_topic-Leaves a b e topic content = elim (Option-cases e.clientcon) [
  | inl n ↦ rw (publish_topic, n) (refl, λ h. h)
  | inr (address, n) ↦ elim (Bool-cases (address == local_mqtt_client)) [
    | inl l ↦ elim (Bool-cases b.local_data_cb) [
      | inl cb ↦ rw (publish_topic, n, l, cb) (refl, λ h. h)
      | inr cb ↦ rw (publish_topic, n, l, cb) (refl, λ h. h)
    ]
    | inr l ↦ elim (Option-cases (find_client address b.clientcon_list)) [
      | inl f ↦ rw (publish_topic, n, l, f) (refl, λ h. h)
      | inr (c, f) ↦ rw (publish_topic, n, l, f) (refl, λ h. put_client-none a _ b.clientcon_list h)
    ]
  ]
]

publish_all-Leaves :
    (a : ℕ) (entries : List Entry) (b : Broker) (topic content : List ℕ)
    → Leaves a b (publish_all b entries topic content)
publish_all-Leaves a [] b topic content = (refl, λ h. h)
publish_all-Leaves a (e ∷ entries) b topic content =
    let b' = (publish_topic b e topic content).1 in
    Leaves-trans a b b' (publish_all b' entries topic content)
      (publish_topic-Leaves a b e topic content) (publish_all-Leaves a entries b' topic content)

activate_next_client-Leaves :
    (a : ℕ) (connected : ℕ → Bool) (b : Broker) → Leaves a b (activate_next_client connected b)
unfolding activate_next_client
activate_next_client-Leaves a connected b =
    elim (Option-cases (next_client connected b.clientcon_list)) [
      | inl n ↦ rw (activate_next_client, n) (refl, λ h. h)
      | inr (c, n) ↦ rw (activate_next_client, n) (refl, λ h. h)
    ]

publish_will-Leaves :
    (a : ℕ) (connected : ℕ → Bool) (memory : Memory) (b : Broker) (c : Client)
    → Leaves a b (publish_will connected memory b c)
unfolding publish_will publish
publish_will-Leaves a connected memory b c = elim (Option-cases c.connect_info.will_topic) [
  | inl n ↦ rw (publish_will, n) (refl, λ h. h)
  | inr (topic, n) ↦
      let content = str_of c.connect_info.will_data in
      let entries = (TopicList.find b.topic_list topic).0 in
      let b₁ = publish_all b entries topic content in
      let b₂ = activate_next_client connected b₁ in
      let leaves =
        Leaves-trans a b b₁ b₂ (publish_all-Leaves a entries b topic content)
          (activate_next_client-Leaves a connected b₁) in
      elim (Bool-cases c.connect_info.will_retain) [
        | inl r ↦ rw (publish_will, n, r) leaves
        | inr r ↦ rw (publish_will, n, r) leaves
      ]
]

notify-Leaves : (a : ℕ) (b : Broker) (c : Client) → Leaves a b (notify b c)
notify-Leaves a b c = notified c.connect_info.client_id refl
  where
    notified : (i : ClientId) → c.connect_info.client_id ≡ i → Leaves a b (notify b c)
    notified no_id e = rw e (refl, λ h. h)
    notified zero_len_id e = rw e (refl, λ h. h)
    notified (id s) e = elim (Bool-cases b.local_disconnect_cb) [
      | inl l ↦ rw (e, l) (refl, λ h. h)
      | inr l ↦ rw (e, l) (refl, λ h. h)
    ]

-- No two clients have one address.
abbrev pub AllApart : List Client → Type 0
AllApart [] = Unit {0}
AllApart (c ∷ clients) = (find_client c.address clients ≡ none) × AllApart clients

find_client-unlink :
    (a : ℕ) (clients : List Client) → AllApart clients → find_client a (unlink a clients) ≡ none
find_client-unlink a [] k = refl
find_client-unlink a (c ∷ clients) k = elim (Bool-cases (c.address == a)) [
  | inl e ↦
      let at : c.address ≡ a = ground (arith, e) in
      rw e (subst (λ x. find_client x clients ≡ none) at k.0)
  | inr e ↦ rw (e, e) (find_client-unlink a clients k.1)
]

-- A client that was deleted is not in the list of clients, and exactly its subscriptions are gone.
abbrev pub Removed : Client → List Entry → Broker → Type 0
Removed c entries b =
    (find_client c.address b.clientcon_list ≡ none)
    × (entries' : List Entry) × (b.topic_list ≡ some entries')
    × (subscriptions entries'
        ≡ keep (λ s. not (selects (some c.address) none s)) (subscriptions entries))

-- Where no two clients have one address, a client that was deleted, its last will published or not,
-- is not in the list of clients, and exactly its subscriptions are gone.
pub delete_client_con-Removed :
    (connected : ℕ → Bool) (memory : Memory) (b : Broker) (c : Client) (entries : List Entry)
    → b.topic_list ≡ some entries
    → AllApart b.clientcon_list
    → Removed c entries (delete_client_con connected memory b c)
unfolding delete_client_con TopicList.delete
delete_client_con-Removed connected memory b c entries t k =
    let a = c.address in
    let b₁ = record b { clientcon_list = unlink a b.clientcon_list; aside = unlink a b.aside } in
    let b₂ = notify b₁ c in
    let leaves =
      Leaves-trans a b₁ b₂ (publish_will connected memory b₂ c) (notify-Leaves a b₁ c)
        (publish_will-Leaves a connected memory b₂ c) in
    (
      leaves.1 (find_client-unlink a b.clientcon_list k),
      TopicList.delete_entries (some a) none entries,
      ap (λ l. (TopicList.delete l (some a) none).1) (leaves.0 ∙ t),
      delete_entries_lem (some a) none entries,
    )
