-- ===== src/Msg/Builders.antt =====
-- What each `mqtt_msg_…` function leaves to be sent: one well-formed packet, or nothing where the
-- buffer is too small.
use u_mqttbroker.Base.{
  ℕ, ◌+◌, ◌%◌, ◌≤◌, ◌<◌, ◌≡◌, inl, inr, refl, true, some, List, [], ◌∷◌, ◌++◌, append_assoc,
  append-nil, arith, if◌then◌else◌, leb, length, Bool-cases, AllBytes,
}
use u_mqttbroker.Msg.{Connection, MessageType, push, append_message_id, init_message}
use u_mqttbroker.Msg.Build.{
  id_message, msg_puback, msg_pubrec, msg_pubrel, msg_pubcomp, msg_unsuback, msg_subscribe,
  msg_unsubscribe, msg_suback, push_all, msg_connack, ConnectReturnCode, return_code,
}
use u_mqttbroker.Msg.Packet.{
  packet, string, u16_bytes, message_bytes, IsReady, IsOpen, init_message-IsOpen, write-IsOpen,
  append_string_lem, append_message_id_lem, append_message_id_full, given_id, next_id,
  given_id-ne-zero, fail_message_lem, fini_message_lem,
}

-- A message with an id alone.
id_message_lem :
    {c : Connection} (type : MessageType) (qos id : ℕ)
    → IsReady c
    → message_bytes (id_message c type qos id) ≡ (
        if leb 5 c.buffer_length
        then packet type 0 qos 0 (u16_bytes (given_id c.message_id id))
        else [])
unfolding init_message
id_message_lem {c} type qos id r = elim (Bool-cases (leb 5 c.buffer_length)) [
  | inl room ↦
      let m = append_message_id_lem id (init_message-IsOpen r) (ground arith) in
      ground (arith, m, given_id-ne-zero c.message_id id, fini_message_lem type 0 qos 0 m.1)
  | inr full ↦ ground (
    arith,
    append_message_id_full (init_message c) id,
    fail_message_lem (append_message_id (init_message c) id).1,
  )
]

-- In a buffer with room, the five acknowledgements carry the caller's id, or the next one where
-- that is 0; a PUBREL has QoS 1.
pub acks_lem :
    {c : Connection} (id : ℕ)
    → IsReady c
    → 5 ≤ c.buffer_length
    → let body = u16_bytes (given_id c.message_id id) in
      (message_bytes (msg_puback c id) ≡ packet MessageType.puback 0 0 0 body)
      × (message_bytes (msg_pubrec c id) ≡ packet MessageType.pubrec 0 0 0 body)
      × (message_bytes (msg_pubrel c id) ≡ packet MessageType.pubrel 0 1 0 body)
      × (message_bytes (msg_pubcomp c id) ≡ packet MessageType.pubcomp 0 0 0 body)
      × (message_bytes (msg_unsuback c id) ≡ packet MessageType.unsuback 0 0 0 body)
unfolding msg_puback msg_pubrec msg_pubrel msg_pubcomp msg_unsuback
acks_lem {c} id r h =
    let t : leb 5 c.buffer_length ≡ true = ground arith in
    (
      ground (arith, id_message_lem MessageType.puback 0 id r),
      ground (arith, id_message_lem MessageType.pubrec 0 id r),
      ground (arith, id_message_lem MessageType.pubrel 1 id r),
      ground (arith, id_message_lem MessageType.pubcomp 0 id r),
      ground (arith, id_message_lem MessageType.unsuback 0 id r),
    )

push-IsOpen :
    {c : Connection} {payload : List ℕ} (b : ℕ)
    → b < 256
    → IsOpen c payload
    → c.msg_length < c.buffer_length
    → IsOpen (push c b) (payload ++ b ∷ [])
unfolding push
push-IsOpen {c} b h o room =
    let e : b % 256 ≡ b = omega arith in
    rw e (write-IsOpen (b ∷ []) (c.msg_length + 1) o refl (omega arith))

push_size :
    (c : Connection) (b : ℕ)
    → ((push c b).msg_length ≡ c.msg_length + 1) × ((push c b).buffer_length ≡ c.buffer_length)
unfolding push
push_size c b = (refl, refl)

push_all-IsOpen :
    (bs : List ℕ) (c : Connection) (payload : List ℕ)
    → AllBytes bs
    → IsOpen c payload
    → c.msg_length + length bs ≤ c.buffer_length
    → IsOpen (push_all c bs) (payload ++ bs)
unfolding push_all
push_all-IsOpen [] c p a o h = rw append-nil o
push_all-IsOpen (b ∷ bs) c p a o h =
    let next =
      push_all-IsOpen bs (push c b) (p ++ b ∷ []) a.1 (push-IsOpen b a.0 o (omega arith))
        (omega (arith, push_size c b)) in
    rw (append_assoc p (b ∷ []) bs) at next

code_byte : (code : ConnectReturnCode) → return_code code < 256
code_byte ConnectReturnCode.accepted = omega arith
code_byte _ = omega arith

-- In a buffer with room, a CONNACK is four bytes: no flags, and the return code.
pub msg_connack_lem :
    {c : Connection} (code : ConnectReturnCode)
    → IsReady c
    → 5 ≤ c.buffer_length
    → message_bytes (msg_connack c code) ≡ 0x20 ∷ 2 ∷ 0 ∷ return_code code ∷ []
unfolding msg_connack init_message
msg_connack_lem {c} code r h = fini_message_lem MessageType.connack 0 0 0 (
    push-IsOpen (return_code code) (code_byte code)
      (push-IsOpen 0 (omega arith) (init_message-IsOpen r) (omega arith))
      (omega (arith, push_size (init_message c) 0)))

-- In a buffer with room, a SUBACK carries the id and the return codes. The function checks no bound
-- for the codes: that they fit is the caller's part.
pub msg_suback_lem :
    {c : Connection} (codes : List ℕ) (id : ℕ)
    → IsReady c
    → AllBytes codes
    → 5 + length codes ≤ c.buffer_length
    → message_bytes (msg_suback c codes id)
      ≡ packet MessageType.suback 0 0 0 (u16_bytes (given_id c.message_id id) ++ codes)
unfolding msg_suback init_message
msg_suback_lem {c} codes id r a h =
    let m = append_message_id_lem id (init_message-IsOpen r) (omega arith) in
    ground (
      arith,
      m,
      given_id-ne-zero c.message_id id,
      fini_message_lem MessageType.suback 0 0 0
          (push_all-IsOpen codes _ _ a m.1 (omega (arith, m.2, m.3))),
    )

-- The body of a SUBSCRIBE and of an UNSUBSCRIBE: a new id, the topic, and the QoS asked for.
abbrev pub topic_body : ℕ → List ℕ → List ℕ → List ℕ
topic_body counter topic qos = u16_bytes (next_id counter) ++ (string topic ++ qos)

-- In a buffer with room, `mqtt_msg_subscribe` and `mqtt_msg_unsubscribe` with a topic that is not
-- empty leave a packet with a new id, which they report; a SUBSCRIBE asks for the QoS.
pub msg_subscribe_lem :
    {c : Connection} (x : ℕ) (s : List ℕ) (qos : ℕ)
    → IsReady c
    → qos < 256
    → 8 + length (x ∷ s) ≤ c.buffer_length
    → ((msg_subscribe c (some (x ∷ s)) qos).0 ≡ some (next_id c.message_id))
      × (message_bytes (msg_subscribe c (some (x ∷ s)) qos).1
          ≡ packet MessageType.subscribe 0 1 0 (topic_body c.message_id (x ∷ s) (qos ∷ [])))
      × ((msg_unsubscribe c (some (x ∷ s))).0 ≡ some (next_id c.message_id))
      × (message_bytes (msg_unsubscribe c (some (x ∷ s))).1
          ≡ packet MessageType.unsubscribe 0 1 0 (topic_body c.message_id (x ∷ s) []))
unfolding msg_subscribe msg_unsubscribe init_message
msg_subscribe_lem {c} x s qos r q h =
    let m = append_message_id_lem 0 (init_message-IsOpen r) (omega arith) in
    let l = append_string_lem (x ∷ s) m.1 (omega (arith, m.2, m.3)) in
    ground (
      arith,
      m,
      l,
      given_id-ne-zero c.message_id 0,
      fini_message_lem MessageType.unsubscribe 0 1 0 l.1,
      append-nil (string (x ∷ s)),
      l.1.size,
      fini_message_lem MessageType.subscribe 0 1 0
          (push-IsOpen qos q l.1 (omega (arith, l.1.size, l.2, m.2))),
      append_assoc (u16_bytes (next_id c.message_id)) (string (x ∷ s)) (qos ∷ []),
    )
