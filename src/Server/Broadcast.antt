-- ===== src/Server/Broadcast.antt =====
-- src/mqtt_server.cpp: `find_topic(topic, publish_topic, …)` as a whole, from the subscriptions to
-- the queues.
use u_mqttbroker.Base.{
  ℕ, ◌+◌, ◌<◌, ◌≡◌, inl, inr, refl, sym, subst, Bool, false, none, some, List, [], ◌∷◌, ◌++◌, arith,
  if◌then◌else◌, ltb, leb, ◌==◌, length, AllBytes, Bool-cases, Option-cases,
}
use u_mqttbroker.Msg.{Connection, MessageType}
use u_mqttbroker.Msg.Build.{msg_publish}
use u_mqttbroker.Msg.Packet.{packet, remaining, string, message_bytes, IsReady}
use u_mqttbroker.Msg.Kept.{msg_publish-Same}
use u_mqttbroker.Msg.Publishing.{msg_publish_lem}
use u_mqttbroker.TopicList.{Entry}
use u_mqttbroker.TopicList
use u_mqttbroker.Server.{Broker, Client, local_mqtt_client, mqtt_buf_size, find_client}
use u_mqttbroker.Server.Publish.{enqueue, publish_topic, publish}
use u_mqttbroker.Server.Delivery.{
  Pending, Serves, Keeps, Keeps-find, find_client-address, offered, enqueue-Serves,
}

-- What is queued for a publish of QoS 0: a PUBLISH packet, or nothing if the buffer is too small.
abbrev pub publish_bytes : ℕ → List ℕ → List ℕ → List ℕ
publish_bytes retain topic content =
    let body = string topic ++ content in
    if leb (3 + length body) mqtt_buf_size then packet MessageType.publish 0 0 retain body else []

AllBytes-append : (xs ys : List ℕ) → AllBytes xs → AllBytes ys → AllBytes (xs ++ ys)
AllBytes-append [] ys a b = b
AllBytes-append (x ∷ xs) ys a b = (a.0, AllBytes-append xs ys a.1 b)

AllBytes-remaining : (n : ℕ) → n < 16384 → AllBytes (remaining n)
AllBytes-remaining n h = elim (Bool-cases (ltb 127 n)) [
  | inl e ↦ rw e (omega arith, (omega arith, tt))
  | inr e ↦ rw e (ground (arith, e), tt)
]

AllBytes-publish_bytes :
    (retain : ℕ) (topic content : List ℕ)
    → AllBytes topic
    → AllBytes content
    → AllBytes (publish_bytes retain topic content)
AllBytes-publish_bytes retain topic content a b =
    let body = string topic ++ content in
    elim (Bool-cases (leb (3 + length body) mqtt_buf_size)) [
      | inl e ↦ rw e (
        omega arith,
        AllBytes-append (remaining (length body)) body
            (AllBytes-remaining (length body) (ground (arith, e)))
            (omega arith, (omega arith, AllBytes-append topic content a b)),
      )
      | inr e ↦ rw e tt
    ]

-- What waits for the clients once a message was offered to the one of a subscription.
abbrev offered_to : Broker → Entry → Bool → List ℕ → Pending → Pending
offered_to b e done m pending = elim e.clientcon [
  | none ↦ pending
  | some address ↦
      if address == local_mqtt_client
      then pending
      else elim (find_client address b.clientcon_list) [
        | none ↦ pending
        | some c ↦ offered done c.address m pending
      ]
]

abbrev pub served : Broker → Entry → List ℕ → List ℕ → Pending → Pending
served b e topic content pending =
    offered_to b e (publish_topic b e topic content).0 (publish_bytes 0 topic content) pending

publish_bytes_lem :
    (conn : Connection) (x : ℕ) (s content : List ℕ) (retain : ℕ)
    → conn.buffer_length ≡ mqtt_buf_size
    → length conn.buffer ≡ mqtt_buf_size
    → message_bytes (msg_publish conn (some (x ∷ s)) content 0 retain).1
      ≡ publish_bytes retain (x ∷ s) content
publish_bytes_lem conn x s content retain l m =
    let ready : IsReady conn = record {
      header = omega (arith, l);
      storage = omega (arith, l, m);
      short = omega (arith, l);
    } in
    let body = string (x ∷ s) ++ content in
    subst
      (λ n.
        message_bytes (msg_publish conn (some (x ∷ s)) content 0 retain).1
        ≡ (if leb (3 + length body) n then packet MessageType.publish 0 0 retain body else []))
      l (msg_publish_lem x s content 0 retain ready)

publish_client :
    (b : Broker) (c : Client) (address x : ℕ) (s content : List ℕ) (pending : Pending)
    → Serves b pending
    → find_client address b.clientcon_list ≡ some c
    → AllBytes (x ∷ s)
    → AllBytes content
    → let r = enqueue b c (λ conn. (msg_publish conn (some (x ∷ s)) content 0 0).1) in
      Serves r.1 (offered r.0 c.address (publish_bytes 0 (x ∷ s) content) pending)
publish_client b c address x s content pending v f a d =
    let at = find_client-address address b.clientcon_list c f in
    let keeps =
      subst (λ y. Keeps c (pending y)) (sym at)
        (Keeps-find pending b.clientcon_list address c v.1 f) in
    let conn = record c.connection { buffer = b.shared_out_buffer } in
    enqueue-Serves b c (λ k. (msg_publish k (some (x ∷ s)) content 0 0).1)
      (publish_bytes 0 (x ∷ s) content) pending v keeps
      (AllBytes-publish_bytes 0 (x ∷ s) content a d)
      (msg_publish-Same conn (some (x ∷ s)) content 0 0)
      (publish_bytes_lem conn x s content 0 keeps.3 v.0)

publish_topic-client :
    (b : Broker) (e : Entry) (address : ℕ) (c : Client) (topic content : List ℕ)
    → e.clientcon ≡ some address
    → (address == local_mqtt_client) ≡ false
    → find_client address b.clientcon_list ≡ some c
    → e.qos ≡ 0
    → publish_topic b e topic content
      ≡ enqueue b c (λ conn. (msg_publish conn (some topic) content 0 0).1)
unfolding publish_topic
publish_topic-client b e address c topic content n l f q = rw (publish_topic, n, l, f, q) refl

served-client :
    (b : Broker) (e : Entry) (done : Bool) (address : ℕ) (c : Client) (m : List ℕ)
    (pending : Pending)
    → e.clientcon ≡ some address
    → (address == local_mqtt_client) ≡ false
    → find_client address b.clientcon_list ≡ some c
    → offered_to b e done m pending ≡ offered done c.address m pending
served-client b e done address c m pending n l f = rw (n, l, f) refl

pub publish_topic-Serves :
    (b : Broker) (e : Entry) (x : ℕ) (s content : List ℕ) (pending : Pending)
    → Serves b pending
    → e.qos ≡ 0
    → AllBytes (x ∷ s)
    → AllBytes content
    → Serves (publish_topic b e (x ∷ s) content).1 (served b e (x ∷ s) content pending)
unfolding publish_topic
publish_topic-Serves b e x s content pending v q a d = elim (Option-cases e.clientcon) [
  | inl n ↦ rw (publish_topic, n) v
  | inr (address, n) ↦ elim (Bool-cases (address == local_mqtt_client)) [
    | inl l ↦ elim (Bool-cases b.local_data_cb) [
      | inl cb ↦ rw (publish_topic, n, l, cb) v
      | inr cb ↦ rw (publish_topic, n, l, cb) v
    ]
    | inr l ↦ elim (Option-cases (find_client address b.clientcon_list)) [
      | inl f ↦ rw (publish_topic, n, l, f) v
      | inr (c, f) ↦
          let m = publish_bytes 0 (x ∷ s) content in
          subst (λ p. Serves (publish_topic b e (x ∷ s) content).1 p)
            (sym
              (served-client b e (publish_topic b e (x ∷ s) content).0 address c m pending n l f))
            (subst (λ r. Serves r.1 (offered r.0 c.address m pending))
              (sym (publish_topic-client b e address c (x ∷ s) content n l f q))
              (publish_client b c address x s content pending v f a d))
    ]
  ]
]

-- Every subscription has QoS 0, as the broker adds them.
abbrev pub AllPlain : List Entry → Type 0
AllPlain [] = Unit {0}
AllPlain (e ∷ entries) = (e.qos ≡ 0) × AllPlain entries

abbrev pub served_all : Broker → List Entry → List ℕ → List ℕ → Pending → Pending
served_all b [] topic content pending = pending
served_all b (e ∷ entries) topic content pending =
    served_all (publish_topic b e topic content).1 entries topic content
      (served b e topic content pending)
