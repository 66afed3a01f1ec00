-- ===== src/Msg/Publishing.antt =====
-- What `mqtt_msg_publish` leaves to be sent.
use u_mqttbroker.Base.{
  write, ℕ, ◌+◌, ◌≡◌, inl, inr, refl, true, false, Option, some, List, [], ◌∷◌, ◌++◌, append_assoc,
  arith, if◌then◌else◌, ltb, leb, length, length-append, Bool-cases,
}
use u_mqttbroker.Msg.{
  Connection, MessageType, append_message_id, init_message, fail_message, fini_message,
}
use u_mqttbroker.Msg.Build.{msg_publish, with_id}
use u_mqttbroker.Msg.Packet.{
  packet, string, u16_bytes, message_bytes, IsReady, IsOpen, init_message-IsOpen, write-IsOpen,
  append_string_lem, append_string_full, append_message_id_lem, append_message_id_full, given_id,
  next_id, given_id-ne-zero, fail_message_lem, fini_message_lem,
}

-- The end of `mqtt_msg_publish`, behind the topic and the id.
abbrev finish_publish : List ℕ → ℕ → ℕ → ℕ → Connection → Option ℕ × Connection
finish_publish content qos retain id c = (
  some id,
  if ltb c.buffer_length (c.msg_length + length content)
      then fail_message c
      else fini_message
          (record c {
            buffer = write c.buffer c.msg_length content;
            msg_length = c.msg_length + length content;
          })
          MessageType.publish 0 qos retain,
)

finish_publish_lem :
    {c : Connection} {payload : List ℕ} (content : List ℕ) (qos retain id : ℕ)
    → IsOpen c payload
    → message_bytes (finish_publish content qos retain id c).1 ≡ (
        if leb (3 + length (payload ++ content)) c.buffer_length
        then packet MessageType.publish 0 qos retain (payload ++ content)
        else [])
finish_publish_lem {c} {payload} content qos retain id o =
    elim (Bool-cases (leb (3 + length (payload ++ content)) c.buffer_length)) [
      | inl fits ↦
          let t : ltb c.buffer_length (c.msg_length + length content) ≡ false =
            ground (arith, o.size, length-append payload content) in
          rw (fits, t)
            (fini_message_lem MessageType.publish 0 qos retain
              (write-IsOpen content (c.msg_length + length content) o refl (ground arith)))
      | inr full ↦
          let t : ltb c.buffer_length (c.msg_length + length content) ≡ true =
            ground (arith, o.size, length-append payload content) in
          rw (full, t) (fail_message_lem c)
    ]

-- The variable header and the payload of a publish: the topic, the id for a QoS above 0, the data.
abbrev pub publish_body : ℕ → List ℕ → List ℕ → ℕ → List ℕ
publish_body counter topic content qos =
    string topic ++ ((if ltb 0 qos then u16_bytes (next_id counter) else []) ++ content)

publish_id_lem :
    {c : Connection} {payload : List ℕ} (content : List ℕ) (qos retain : ℕ)
    → IsOpen c payload
    → let body = payload ++ (u16_bytes (next_id c.message_id) ++ content) in
      message_bytes (with_id (append_message_id c 0) (finish_publish content qos retain)).1 ≡ (
        if leb (3 + length body) c.buffer_length
        then packet MessageType.publish 0 qos retain body
        else [])
publish_id_lem {c} {payload} content qos retain o =
    elim (Bool-cases (ltb c.buffer_length (c.msg_length + 2))) [
      | inl full ↦ ground (
        arith,
        append_message_id_full c 0,
        fail_message_lem (append_message_id c 0).1,
        o.size,
        length-append payload (u16_bytes (next_id c.message_id) ++ content),
      )
      | inr room ↦
          let m = append_message_id_lem 0 o (ground arith) in
          ground (
            arith,
            m,
            given_id-ne-zero c.message_id 0,
            append_assoc payload (u16_bytes (next_id c.message_id)) content,
            finish_publish_lem content qos retain (given_id c.message_id 0) m.1,
          )
    ]

-- In a buffer of the announced size, `mqtt_msg_publish` with a topic that is not empty leaves the
-- PUBLISH packet of the topic, the next id for a QoS above 0, and the data, if it fits with three
-- bytes for the header; otherwise nothing.
pub msg_publish_lem :
    {c : Connection} (x : ℕ) (s content : List ℕ) (qos retain : ℕ)
    → IsReady c
    → let body = publish_body c.message_id (x ∷ s) content qos in
      message_bytes (msg_publish c (some (x ∷ s)) content qos retain).1 ≡ (
        if leb (3 + length body) c.buffer_length
        then packet MessageType.publish 0 qos retain body
        else [])
unfolding msg_publish init_message
msg_publish_lem {c} x s content qos retain r =
    elim (Bool-cases (ltb c.buffer_length (3 + length (x ∷ s) + 2))) [
      | inl full ↦ ground (
        arith,
        append_string_full (init_message c) (x ∷ s),
        fail_message_lem (init_message c),
        length-append s ((if ltb 0 qos then u16_bytes (next_id c.message_id) else []) ++ content),
      )
      | inr room ↦
          let l = append_string_lem (x ∷ s) (init_message-IsOpen r) (ground arith) in
          ground (
            arith,
            l,
            publish_id_lem content qos retain l.1,
            finish_publish_lem content qos retain 0 l.1,
          )
    ]
