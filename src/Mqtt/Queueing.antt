-- ===== src/Mqtt/Queueing.antt =====
-- src/mqtt.c: `MQTT_Publish`, `MQTT_Subscribe`, `MQTT_UnSubscribe` and `MQTT_Ping`, which make room in
-- the queue by dropping the oldest messages. `stack` and `buffer` are what is on the stack.
use u_mqttbroker.Base.{
  ℕ, zero, suc, Bool, true, false, Option, none, some, List, if◌then◌else◌, ◌==◌,
}
use u_mqttbroker.Proto.{Parser, minus_one}
use u_mqttbroker.Msg.{Connection}
use u_mqttbroker.Msg.Build.{msg_publish, msg_subscribe, msg_unsubscribe, msg_pingreq}
use u_mqttbroker.Msg.Packet.{message_bytes}
use u_mqttbroker.Queue.{Queue, puts, gets}
use u_mqttbroker.Server.{mqtt_buf_size}
use u_mqttbroker.Mqtt.{MqttClient, post, log}

-- `while (QUEUE_Puts(…) == -1) if (QUEUE_Gets(…) == -1) return FALSE;` with fuel.
unfoldable pub push_loop : ℕ → Parser → List ℕ → Queue → List ℕ → Option (Bool × Queue)
push_loop zero stack buffer q m = none
push_loop (suc n) stack buffer q m =
    let (r, q₁) = puts q m in
    let (t, q₂) = gets stack q₁ buffer mqtt_buf_size in
    elim (r == minus_one) [
      | false ↦ some (true, q₁)
      | true ↦ elim t.len [ none ↦ some (false, q₂) | some _ ↦ push_loop n stack buffer q₂ m ]
    ]

-- The loop for a message that was built, and the post to the task.
unfoldable pub queue_message :
    ℕ → Parser → List ℕ → MqttClient → Connection → Option (Bool × MqttClient)
unfolding push_loop
queue_message fuel stack buffer c conn =
    let c₁ = record c { connection = conn; outbound_message = true } in
    elim (push_loop fuel stack buffer c.msg_queue (message_bytes conn)) [
      | none ↦ none
      | some r ↦
          let c₂ = record c₁ { msg_queue = r.1 } in some (r.0, if r.0 then log c₂ post else c₂)
    ]

-- `pending_msg_id`, where the builder writes it.
abbrev pub set_id : MqttClient → Option ℕ → MqttClient
set_id c id = elim id [ none ↦ c | some n ↦ record c { pending_msg_id = n } ]

-- A message that could not be built is not queued.
abbrev pub unless_empty :
    MqttClient → Connection → Option (Bool × MqttClient) → Option (Bool × MqttClient)
unless_empty c conn next =
    if conn.msg_length == 0
    then some (false, record c { connection = conn; outbound_message = true })
    else next

unfoldable pub publish :
    ℕ → Parser → List ℕ → MqttClient → Option (List ℕ) → List ℕ → ℕ → ℕ → Option (Bool × MqttClient)
unfolding queue_message
publish fuel stack buffer c topic content qos retain =
    let (id, conn) = msg_publish c.connection topic content qos retain in
    let c₁ = set_id c id in unless_empty c₁ conn (queue_message fuel stack buffer c₁ conn)

unfoldable pub subscribe :
    ℕ → Parser → List ℕ → MqttClient → Option (List ℕ) → ℕ → Option (Bool × MqttClient)
unfolding queue_message
subscribe fuel stack buffer c topic qos =
    let (id, conn) = msg_subscribe c.connection topic qos in
    queue_message fuel stack buffer (set_id c id) conn

unfoldable pub unsubscribe :
    ℕ → Parser → List ℕ → MqttClient → Option (List ℕ) → Option (Bool × MqttClient)
unfolding queue_message
unsubscribe fuel stack buffer c topic =
    let (id, conn) = msg_unsubscribe c.connection topic in
    queue_message fuel stack buffer (set_id c id) conn

unfoldable pub ping : ℕ → Parser → List ℕ → MqttClient → Option (Bool × MqttClient)
unfolding queue_message
ping fuel stack buffer c =
    let conn = msg_pingreq c.connection in
    unless_empty c conn (queue_message fuel stack buffer c conn)
