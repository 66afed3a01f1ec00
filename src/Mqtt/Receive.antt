-- ===== src/Mqtt/Receive.antt =====
-- src/mqtt.c: `mqtt_tcpclient_recv`, which takes the bytes that arrive, and `deliver_publish`.
use u_mqttbroker.Base.{
  ℕ, zero, suc, ◌%◌, ◌^◌, Bool, true, false, not, ◌&&◌, Option, none, some, List, if◌then◌else◌,
  ltb, ◌==◌, length, take, drop, write,
}
use u_mqttbroker.Msg.{Connection}
use u_mqttbroker.Msg.Read.{
  get_type, get_id, get_qos, get_connect_return_code, get_total_length, get_publish_topic,
  get_publish_data,
}
use u_mqttbroker.Msg.Build.{msg_puback, msg_pubrec, msg_pubrel, msg_pubcomp, msg_pingresp}
use u_mqttbroker.Msg.Packet.{message_bytes}
use u_mqttbroker.Queue.{puts}
use u_mqttbroker.Server.{mqtt_buf_size}
use u_mqttbroker.Mqtt.{
  MqttClient, ConnState, mqtt_connect_sending, mqtt_data, post, connected, received, log, notify,
  hang_up, is_connected,
}

-- `deliver_publish`: the topic and the data, of which NULL is `none`.
unfoldable pub deliver_publish : MqttClient → ℕ → MqttClient
deliver_publish c len =
    let topic : Option (List ℕ) = elim (get_publish_topic c.in_buffer len) [
      | none ↦ none
      | some t ↦ some (take t.1 (drop t.0 c.in_buffer))
    ] in
    let (k, n) = get_publish_data c.in_buffer len in
    let content : Option (List ℕ) = elim k [
      | none ↦ none
      | some k ↦ some (take n (drop k c.in_buffer))
    ] in
    notify c.callbacks.data_cb c (received topic content)

-- A message is built and queued, if it fits.
unfoldable pub reply : MqttClient → (Connection → Connection) → MqttClient
reply c build =
    let conn = build c.connection in
    record c {
      connection = conn;
      outbound_message = true;
      msg_queue = (puts c.msg_queue (message_bytes conn)).1;
    }

-- In the state MQTT_CONNECT_SENDING, a CONNACK to a CONNECT is waited for.
unfoldable pub receive_connack : MqttClient → MqttClient
receive_connack c =
    if not (get_type c.in_buffer == 2)
    then c
    else if not (c.pending_msg_type == 1)
    then hang_up c
    else if get_connect_return_code c.in_buffer == 0
    then notify c.callbacks.connected_cb (record c { conn_state = mqtt_data }) connected
    else hang_up c

-- The answer that the QoS of a PUBLISH asks for.
unfoldable pub acknowledge : MqttClient → MqttClient
unfolding reply
acknowledge c =
    let id = get_id c.in_buffer mqtt_buf_size in
    let q = get_qos c.in_buffer in
    if q == 1
    then reply c (λ conn. msg_puback conn id)
    else if q == 2
    then reply c (λ conn. msg_pubrec conn id)
    else c

-- In the states MQTT_DATA and MQTT_KEEPALIVE_SEND.
unfoldable pub receive_message : MqttClient → MqttClient
unfolding reply acknowledge deliver_publish
receive_message c =
    let t = get_type c.in_buffer in
    let id = get_id c.in_buffer mqtt_buf_size in
    if t == 3
    then deliver_publish (acknowledge c) c.message_length_read
    else if t == 5
    then reply c (λ conn. msg_pubrel conn id)
    else if t == 6
    then reply c (λ conn. msg_pubcomp conn id)
    else if t == 12
    then reply c msg_pingresp
    else c

abbrev pub is_connecting : ConnState → Bool
is_connecting s = elim s [ mqtt_connect_sending ↦ true | _ ↦ false ]

-- The `switch` over the state, for `len` bytes in the buffer.
abbrev pub receive : MqttClient → ℕ → MqttClient
receive c len =
    if is_connecting c.conn_state
    then receive_connack c
    else if is_connected c.conn_state
    then receive_message (record c {
      message_length_read = len;
      message_length = get_total_length c.in_buffer len % 2 ^ 16;
    })
    else c

-- `goto READPACKET` behind a PUBLISH alone, with fuel.
unfoldable pub recv_loop : ℕ → MqttClient → List ℕ → Option MqttClient
unfolding receive_connack receive_message
recv_loop zero c pdata = none
recv_loop (suc n) c pdata =
    let len = length pdata in
    let c₁ = record c { in_buffer = write c.in_buffer 0 pdata } in
    let total = get_total_length c₁.in_buffer len % 2 ^ 16 in
    let again = is_connected c.conn_state && ((get_type c₁.in_buffer == 3) && ltb total len) in
    elim (ltb 0 len && ltb len mqtt_buf_size) [
      | false ↦ some (log c post)
      | true ↦ elim again [
        | false ↦ some (log (receive c₁ len) post)
        | true ↦ recv_loop n (receive c₁ len) (drop total pdata)
      ]
    ]
