-- ===== src/Server/Receive/Subscribing.antt =====
-- src/mqtt_server.cpp, MQTT_ClientCon_recv_cb: a SUBSCRIBE as a whole, from its bytes to the SUBACK.
use u_mqttbroker.Base.{
  ℕ, suc, ◌+◌, ◌/◌, ◌%◌, ◌≤◌, ◌<◌, ◌≡◌, inl, inr, refl, ap, ◌∙◌, Bool, true, false, Option, some,
  List, [], ◌∷◌, ◌++◌, arith, ◌==◌, ltb, length, AllBytes, Bool-cases,
}
use u_mqttbroker.Msg.{MessageType}
use u_mqttbroker.Msg.Read.{get_id, get_type}
use u_mqttbroker.Msg.Build.{msg_suback}
use u_mqttbroker.Msg.Packet.{packet, u16_bytes, given_id, message_bytes, IsReady}
use u_mqttbroker.Msg.Builders.{msg_suback_lem}
use u_mqttbroker.TopicList.{Entry}
use u_mqttbroker.TopicList
use u_mqttbroker.Retained
use u_mqttbroker.Server.{Broker, Client, Inbound, mqtt_buf_size}
use u_mqttbroker.Server.Publish.{enqueue}
use u_mqttbroker.Server.Receive.Session.{
  Outside, next, max_subs_per_req, publish_retained_all, subscribed, subscribe, receive_data,
}
use u_mqttbroker.Server.Receive.Topics.{
  Filters, filter_bytes, AllText, added, last_topic, subscribe_loop_lem,
}

-- The bytes of a SUBSCRIBE of fewer than 128 bytes.
abbrev pub subscribe_bytes : ℕ → Filters → List ℕ
subscribe_bytes id fs =
    0x82 ∷ (2 + length (filter_bytes fs)) ∷ id / 256 ∷ id % 256 ∷ filter_bytes fs

get_id-subscribe :
    (id : ℕ) (fs : Filters) (rest : List ℕ)
    → 2 + length (filter_bytes fs) < 128
    → get_id (subscribe_bytes id fs ++ rest) mqtt_buf_size ≡ id
unfolding get_id
get_id-subscribe id fs rest h = ground (arith, h)

get_type-subscribe :
    (id : ℕ) (fs : Filters) (rest : List ℕ) → get_type (subscribe_bytes id fs ++ rest) ≡ 8
unfolding get_type
get_type-subscribe id fs rest = refl

codes_fit :
    (memory : ℕ → Bool) (a k : ℕ) (fs : Filters) (l : Option (List Entry))
    → let codes = (added memory a k fs l).0 in (length codes ≡ length fs) × AllBytes codes
codes_fit memory a k [] l = (refl, tt)
codes_fit memory a k ((s, qos) ∷ fs) l =
    let (done, l₁) = TopicList.add (memory k) l a s 0 in
    let (n, bytes) = codes_fit memory a (suc k) fs l₁ in
    elim (Bool-cases done) [
      | inl d ↦ rw d (ap suc n, (omega arith, bytes))
      | inr d ↦ rw d (ap suc n, (omega arith, bytes))
    ]

-- What the message does: the subscriptions are added, the SUBACK is queued, and then the retained
-- messages of the last topic.
abbrev pub subscribes : Outside → Broker → Client → ℕ → Filters → Broker
subscribes outside b c id fs =
    let (codes, l) = added outside.topic_memory c.address 0 fs b.topic_list in
    let b₁ = (enqueue (record b { topic_list = l }) c λ conn. msg_suback conn codes id).1 in
    publish_retained_all b₁ c.address (Retained.find b₁.retained (last_topic [] fs)).0

-- A SUBSCRIBE that is whole in the buffer, with up to 16 topics without 0 and less than 128 bytes
-- behind its header, adds the topics one by one as subscriptions of the client, queues the SUBACK
-- with the message's id and one code for each topic, and then the retained messages of the last
-- topic; whether a topic was added is told by its code.
pub subscribe_lem :
    (outside : Outside) (b : Broker) (c : Client) (inb : Inbound) (id : ℕ) (fs : Filters)
    (rest : List ℕ)
    → inb.in_buffer ≡ subscribe_bytes id fs ++ rest
    → inb.message_length ≡ 4 + length (filter_bytes fs)
    → 8 ≤ inb.message_length
    → inb.message_length < 130
    → AllText fs
    → length fs ≤ max_subs_per_req
    → c.connection.buffer_length ≡ mqtt_buf_size
    → length b.shared_out_buffer ≡ mqtt_buf_size
    → let codes = (added outside.topic_memory c.address 0 fs b.topic_list).0 in
      let conn = record c.connection { buffer = b.shared_out_buffer } in
      (receive_data outside b c inb ≡ next (subscribes outside b c id fs) inb)
      × (message_bytes (msg_suback conn codes id)
          ≡ packet MessageType.suback 0 0 0 (u16_bytes (given_id conn.message_id id) ++ codes))
      × (length codes ≡ length fs)
unfolding receive_data subscribe
subscribe_lem outside b c inb id fs rest e m s l t n w v =
    let (codes, l₁) = added outside.topic_memory c.address 0 fs b.topic_list in
    let (many, bytes) = codes_fit outside.topic_memory c.address 0 fs b.topic_list in
    let ready : IsReady (record c.connection { buffer = b.shared_out_buffer }) = record {
      header = omega (arith, w);
      storage = omega (arith, w, v);
      short = omega (arith, w);
    } in
    let loop =
      subscribe_loop_lem outside.topic_memory inb c.address max_subs_per_req 0 fs
        (0x82 ∷ (2 + length (filter_bytes fs)) ∷ id / 256 ∷ id % 256 ∷ []) rest 4 ([], []) b e refl
        (omega (arith, m)) t n refl in
    let type : (get_type inb.in_buffer == 8) ≡ true =
      ap (λ x. get_type x == 8) e ∙ ap (λ x. x == 8) (get_type-subscribe id fs rest) in
    let short : ltb inb.message_length 8 ≡ false = ground (arith, s) in
    let i : get_id inb.in_buffer mqtt_buf_size ≡ id =
      ap (λ x. get_id x mqtt_buf_size) e ∙ get_id-subscribe id fs rest (omega (arith, m, l)) in
    (
      rw (receive_data, type, subscribe, short)
          (ap (subscribed outside c inb (get_id inb.in_buffer mqtt_buf_size)) loop
            ∙ ap
                (λ i.
                  subscribed outside c inb i
                    (some (codes, last_topic [] fs), record b { topic_list = l₁ }))
                i),
      msg_suback_lem _ id ready bytes (omega (arith, many, n, w)),
      many,
    )
