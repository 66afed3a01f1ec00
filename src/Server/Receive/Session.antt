-- ===== src/Server/Receive/Session.antt =====
-- src/mqtt_server.cpp, MQTT_ClientCon_recv_cb: the messages of a client in the state MQTT_DATA.
use u_mqttbroker.Base.{
  ℕ, zero, suc, ◌+◌, ◌-◌, Bool, true, false, Option, none, some, List, [], ◌∷◌, ◌++◌, if◌then◌else◌,
  ltb, leb, ◌==◌, get_or, take, drop, c_string,
}
use u_mqttbroker.Msg.Read.{
  get_str, get_id, get_type, get_publish_topic, get_publish_data, get_retain, get_qos,
}
use u_mqttbroker.Msg.Build.{msg_suback, msg_unsuback, msg_pingresp}
use u_mqttbroker.TopicList
use u_mqttbroker.Retained.{Slot, Memory}
use u_mqttbroker.Retained
use u_mqttbroker.Server.{Broker, Client, Inbound, wild_access, log, find_client, mqtt_buf_size}
use u_mqttbroker.Server.Publish.{enqueue, publish_retainedtopic, publish, retain}
use u_mqttbroker.Server.Close.{disconnect_client_con}
use u_mqttbroker.Server.Receive.Connect.{ConnectMemory, Auth}

-- What the handling of a message gets from outside: which connections are open, what the
-- allocations get, those of `add_topic` by the number of the topic, and `local_auth_cb`.
pub record Outside : Type 0 where
  pub connected : ℕ → Bool
  pub memory : Memory
  pub topic_memory : ℕ → Bool
  pub connect_memory : ConnectMemory
  pub auth : Option Auth

-- How the handling of a message ends: behind the `switch`, or with a `return`.
pub data Received : Type 0 where
  next : Broker → Inbound → Received
  left : Broker → Received

-- `MAX_SUBS_PER_REQ`
abbrev pub max_subs_per_req : ℕ
max_subs_per_req = 16

-- `MQTT_server_disconnectClientCon`, and `return`.
abbrev pub hang_up : Outside → Broker → Client → Received
hang_up outside b c = left (disconnect_client_con outside.connected outside.memory b c)

-- `mqtt_get_str` at an index below the message's end: the length and the string in `topic_buffer`.
abbrev pub topic_at : Inbound → ℕ → Option (ℕ × List ℕ)
topic_at inb index = elim (get_str (drop index inb.in_buffer) (inb.message_length - index)) [
  | none ↦ none
  | some s ↦ some (s.1, c_string (take s.1 (drop (index + s.0) inb.in_buffer)))
]

-- The loop over the topics of a SUBSCRIBE, with the rounds that `MAX_SUBS_PER_REQ` leaves; `none`
-- is a topic or a QoS that is missing. The result holds `ret_codes` and `topic_buffer`.
unfoldable pub subscribe_loop :
    (ℕ → Bool) → Inbound → ℕ → ℕ → ℕ → List ℕ × List ℕ → Broker → Option (List ℕ × List ℕ) × Broker
subscribe_loop memory inb address zero index r b = (some r, b)
subscribe_loop memory inb address (suc n) index r b = elim (ltb index inb.message_length) [
  | false ↦ (some r, b)
  | true ↦ elim (topic_at inb index) [
    | none ↦ (none, b)
    | some t ↦ elim (leb inb.message_length (index + 2 + t.0)) [
      | true ↦ (none, b)
      | false ↦
          let (added, l) =
            TopicList.add (memory (max_subs_per_req - suc n)) b.topic_list address t.1 0 in
          subscribe_loop memory inb address n (index + 3 + t.0)
            (r.0 ++ (if added then 0 else 0x80) ∷ [], t.1) (record b { topic_list = l })
    ]
  ]
]

-- The calls of `publish_retainedtopic` by `find_retainedtopic`.
unfoldable pub publish_retained_all : Broker → ℕ → List Slot → Broker
publish_retained_all b address [] = b
publish_retained_all b address (s ∷ slots) = elim (find_client address b.clientcon_list) [
  | none ↦ b
  | some c ↦ publish_retained_all (publish_retainedtopic b c s).1 address slots
]

-- What follows the loop: the SUBACK, and the retained messages for the topic in `topic_buffer`.
abbrev pub subscribed :
    Outside → Client → Inbound → ℕ → Option (List ℕ × List ℕ) × Broker → Received
subscribed outside c inb msg_id (none, b) = hang_up outside b c
subscribed outside c inb msg_id (some (ret_codes, topic_buffer), b) =
    let b₁ = (enqueue b c λ conn. msg_suback conn ret_codes msg_id).1 in
    next (publish_retained_all b₁ c.address (Retained.find b₁.retained topic_buffer).0) inb

-- A SUBSCRIBE. A client that is listed stays so in the loop.
unfoldable pub subscribe : Outside → Broker → Client → Inbound → Received
unfolding subscribe_loop publish_retained_all enqueue
subscribe outside b c inb =
    if ltb inb.message_length 8
    then hang_up outside b c
    else subscribed outside c inb (get_id inb.in_buffer mqtt_buf_size)
        (subscribe_loop outside.topic_memory inb c.address max_subs_per_req 4 ([], []) b)

-- The loop over the topics of an UNSUBSCRIBE, with fuel; `none` is a topic that is missing.
unfoldable pub unsubscribe_loop : ℕ → Inbound → ℕ → ℕ → Broker → Bool × Broker
unsubscribe_loop zero inb address index b = (true, b)
unsubscribe_loop (suc n) inb address index b = elim (ltb index inb.message_length) [
  | false ↦ (true, b)
  | true ↦ elim (topic_at inb index) [
    | none ↦ (false, b)
    | some t ↦
        unsubscribe_loop n inb address (index + 2 + t.0)
          (record b { topic_list = (TopicList.delete b.topic_list (some address) (some t.1)).1 })
  ]
]

-- An UNSUBSCRIBE. Each round goes on by two bytes at least, so `message_length` rounds are enough.
unfoldable pub unsubscribe : Outside → Broker → Client → Inbound → Received
unfolding unsubscribe_loop enqueue
unsubscribe outside b c inb =
    if ltb inb.message_length 7
    then hang_up outside b c
    else let msg_id = get_id inb.in_buffer mqtt_buf_size in
      let (done, b₁) = unsubscribe_loop inb.message_length inb c.address 4 b in
      if done
      then next (enqueue b₁ c λ conn. msg_unsuback conn msg_id).1 inb
      else hang_up outside b₁ c

-- The data of a PUBLISH; NULL comes with the length 0.
abbrev pub publish_data : Inbound → List ℕ
publish_data inb =
    let (k, n) = get_publish_data inb.in_buffer mqtt_buf_size in
    elim k [ none ↦ [] | some k ↦ take n (drop k inb.in_buffer) ]

-- A PUBLISH with its topic and data.
abbrev pub publish_message : Outside → Broker → Inbound → List ℕ → List ℕ → Broker
publish_message outside b inb topic content =
    if get_or topic 0 0 == b'$'
    then b
    else let b₁ = publish b topic content in
      if get_retain inb.in_buffer == 0
      then b₁
      else retain outside.memory b₁ topic content (get_qos inb.in_buffer)

-- A PUBLISH. A topic that is NULL is copied from there, with the buffer's length.
unfoldable pub receive_publish : Outside → Broker → Client → Inbound → Received
receive_publish outside b c inb = elim (get_publish_topic inb.in_buffer mqtt_buf_size) [
  | none ↦ left (log b (wild_access c.pcon))
  | some t ↦
      let topic = c_string (take t.1 (drop t.0 inb.in_buffer)) in
      next (publish_message outside b inb topic (publish_data inb)) inb
]

unfoldable pub receive_pingreq : Broker → Client → Inbound → Received
unfolding enqueue
receive_pingreq b c inb = next (enqueue b c msg_pingresp).1 inb

-- A DISCONNECT: the last will goes first.
unfoldable pub receive_disconnect : Outside → Broker → Client → Received
receive_disconnect outside b c =
    hang_up outside b (record c { connect_info = record c.connect_info { will_topic = none } })

-- The `switch` over the type of a message, in the state MQTT_DATA.
unfoldable pub receive_data : Outside → Broker → Client → Inbound → Received
unfolding subscribe unsubscribe receive_publish receive_pingreq receive_disconnect
receive_data outside b c inb =
    let t = get_type inb.in_buffer in
    if t == 8
    then subscribe outside b c inb
    else if t == 10
    then unsubscribe outside b c inb
    else if t == 3
    then receive_publish outside b c inb
    else if t == 12
    then receive_pingreq b c inb
    else if t == 14
    then receive_disconnect outside b c
    else next b inb
