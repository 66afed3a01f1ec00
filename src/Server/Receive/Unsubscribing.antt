-- ===== src/Server/Receive/Unsubscribing.antt =====
-- src/mqtt_server.cpp, MQTT_ClientCon_recv_cb: an UNSUBSCRIBE.
use u_mqttbroker.Base.{
  ℕ, zero, suc, ◌+◌, ◌/◌, ◌%◌, ◌≤◌, ◌<◌, ◌≡◌, refl, sym, ap, ◌∙◌, true, false, Option, some, List,
  [], ◌∷◌, ◌++◌, append_assoc, arith, ltb, length, length-append, lt→ltb, Bool-cases, Option-cases,
  inl, inr,
}
use u_mqttbroker.Msg.{MessageType}
use u_mqttbroker.Msg.Read.{get_type, get_id}
use u_mqttbroker.Msg.Build.{msg_unsuback}
use u_mqttbroker.Msg.Packet.{packet, string, u16_bytes, given_id, message_bytes, IsReady}
use u_mqttbroker.Msg.Builders.{acks_lem}
use u_mqttbroker.TopicList.{Entry}
use u_mqttbroker.TopicList
use u_mqttbroker.Server.{Broker, Client, Inbound, mqtt_buf_size}
use u_mqttbroker.Server.Publish.{enqueue}
use u_mqttbroker.Server.Receive.Session.{
  Outside, next, topic_at, unsubscribe_loop, unsubscribe, receive_data,
}
use u_mqttbroker.Server.Receive.Topics.{IsText, topic_at_lem}

-- The topics of an UNSUBSCRIBE.
abbrev pub name_bytes : List (List ℕ) → List ℕ
name_bytes [] = []
name_bytes (s ∷ names) = string s ++ name_bytes names

abbrev pub AllNames : List (List ℕ) → Type 0
AllNames [] = Unit {0}
AllNames (s ∷ names) = IsText s × (0 < length s) × AllNames names

-- The client's subscriptions are deleted one by one.
abbrev pub deleted : ℕ → List (List ℕ) → Option (List Entry) → Option (List Entry)
deleted address [] l = l
deleted address (s ∷ names) l = deleted address names (TopicList.delete l (some address) (some s)).1

unsubscribe_loop_lem :
    (inb : Inbound) (address n : ℕ) (names : List (List ℕ)) (head rest : List ℕ) (index : ℕ)
    (b : Broker)
    → inb.in_buffer ≡ head ++ (name_bytes names ++ rest)
    → index ≡ length head
    → inb.message_length ≡ index + length (name_bytes names)
    → AllNames names
    → length (name_bytes names) ≤ n
    → unsubscribe_loop n inb address index b
      ≡ (true, record b { topic_list = deleted address names b.topic_list })
unfolding unsubscribe_loop
unsubscribe_loop_lem inb address zero [] head rest index b e i m t l = refl
unsubscribe_loop_lem inb address zero (s ∷ names) head rest index b e i m t l = absurd (omega arith)
unsubscribe_loop_lem inb address (suc n) [] head rest index b e i m t l =
    let x : ltb index inb.message_length ≡ false = ground (arith, m) in
    rw (unsubscribe_loop, x) refl
unsubscribe_loop_lem inb address (suc n) (s ∷ names) head rest index b e i m t l =
    let bytes = name_bytes names in
    let size : inb.message_length ≡ index + 2 + length s + length bytes =
      omega (arith, m, length-append (string s) bytes) in
    let e' : inb.in_buffer ≡ head ++ (string s ++ (bytes ++ rest)) =
      e ∙ ap (◌++◌ head) (append_assoc (string s) bytes rest) in
    let at =
      topic_at_lem inb head s (bytes ++ rest) index e' i t.0 (omega (arith, size))
        (omega (arith, size, t.1)) in
    let x : ltb index inb.message_length ≡ true = lt→ltb _ _ (omega (arith, size)) in
    rw (unsubscribe_loop, x, at)
      (unsubscribe_loop_lem inb address n names (head ++ string s) rest (index + 2 + length s)
        (record b { topic_list = (TopicList.delete b.topic_list (some address) (some s)).1 })
        (e' ∙ sym (append_assoc head (string s) (bytes ++ rest)))
        (omega (arith, i, length-append head (string s))) size t.2
        (omega (arith, l, length-append (string s) bytes)))

abbrev pub unsubscribe_bytes : ℕ → List (List ℕ) → List ℕ
unsubscribe_bytes id names =
    0xA2 ∷ (2 + length (name_bytes names)) ∷ id / 256 ∷ id % 256 ∷ name_bytes names

get_id-unsubscribe :
    (id : ℕ) (names : List (List ℕ)) (rest : List ℕ)
    → 2 + length (name_bytes names) < 128
    → get_id (unsubscribe_bytes id names ++ rest) mqtt_buf_size ≡ id
unfolding get_id
get_id-unsubscribe id names rest h = ground (arith, h)

get_type-unsubscribe :
    (id : ℕ) (names : List (List ℕ)) (rest : List ℕ)
    → get_type (unsubscribe_bytes id names ++ rest) ≡ 10
unfolding get_type
get_type-unsubscribe id names rest = refl

-- An UNSUBSCRIBE that is whole in the buffer, with topics that are not empty and without 0 and less
-- than 128 bytes behind its header, deletes the topics one by one from the subscriptions of the
-- client and queues the UNSUBACK with the message's id, or the next id where that is 0.
pub unsubscribe_lem :
    (outside : Outside) (b : Broker) (c : Client) (inb : Inbound) (id : ℕ) (names : List (List ℕ))
    (rest : List ℕ)
    → inb.in_buffer ≡ unsubscribe_bytes id names ++ rest
    → inb.message_length ≡ 4 + length (name_bytes names)
    → 7 ≤ inb.message_length
    → inb.message_length < 130
    → AllNames names
    → c.connection.buffer_length ≡ mqtt_buf_size
    → length b.shared_out_buffer ≡ mqtt_buf_size
    → let conn = record c.connection { buffer = b.shared_out_buffer } in
      let b₁ = record b { topic_list = deleted c.address names b.topic_list } in
      (receive_data outside b c inb ≡ next (enqueue b₁ c λ conn. msg_unsuback conn id).1 inb)
      × (message_bytes (msg_unsuback conn id)
          ≡ packet MessageType.unsuback 0 0 0 (u16_bytes (given_id conn.message_id id)))
unfolding receive_data unsubscribe
unsubscribe_lem outside b c inb id names rest e m s l t w v =
    let ready : IsReady (record c.connection { buffer = b.shared_out_buffer }) = record {
      header = omega (arith, w);
      storage = omega (arith, w, v);
      short = omega (arith, w);
    } in
    let loop =
      unsubscribe_loop_lem inb c.address inb.message_length names
        (0xA2 ∷ (2 + length (name_bytes names)) ∷ id / 256 ∷ id % 256 ∷ []) rest 4 b e refl
        (omega (arith, m)) t (omega (arith, m)) in
    let type : get_type inb.in_buffer ≡ 10 = ap get_type e ∙ get_type-unsubscribe id names rest in
    let short : ltb inb.message_length 7 ≡ false = ground (arith, s) in
    let i : get_id inb.in_buffer mqtt_buf_size ≡ id =
      ap (λ x. get_id x mqtt_buf_size) e ∙ get_id-unsubscribe id names rest (omega (arith, m, l)) in
    (
      rw (receive_data, type, unsubscribe, short, loop, i) refl,
      (acks_lem id ready (omega (arith, w))).4,
    )

-- Each round goes on by two bytes, so more rounds than the message has bytes change nothing.
unsubscribe_loop-fuel :
    (inb : Inbound) (address n index : ℕ) (b : Broker)
    → inb.message_length ≤ index + n
    → unsubscribe_loop (suc n) inb address index b ≡ unsubscribe_loop n inb address index b
unfolding unsubscribe_loop
unsubscribe_loop-fuel inb address zero index b h =
    let x : ltb index inb.message_length ≡ false = ground (arith, h) in
    rw (unsubscribe_loop, x) refl
unsubscribe_loop-fuel inb address (suc n) index b h =
    elim (Bool-cases (ltb index inb.message_length)) [
      | inr x ↦ rw (unsubscribe_loop, x) refl
      | inl x ↦ elim (Option-cases (topic_at inb index)) [
        | inl t ↦ rw (unsubscribe_loop, x, t) refl
        | inr (t, u) ↦
            rw (unsubscribe_loop, x, u)
              (unsubscribe_loop-fuel inb address n (index + 2 + t.0)
                (record b {
                  topic_list = (TopicList.delete b.topic_list (some address) (some t.1)).1;
                })
                (omega (arith, h)))
      ]
    ]
