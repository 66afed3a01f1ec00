-- ===== src/Mqtt/Task.antt =====
-- src/mqtt.c: `MQTT_Task`.
use u_mqttbroker.Base.{ℕ, Bool, false, not, ◌||◌, none, some, List, if◌then◌else◌, ◌==◌, take}
use u_mqttbroker.Proto.{Parser}
use u_mqttbroker.Msg.Read.{get_type, get_id}
use u_mqttbroker.Queue.{gets, is_empty}
use u_mqttbroker.Server.{mqtt_buf_size}
use u_mqttbroker.Mqtt.{
  MqttClient, tcp_disconnecting, tcp_disconnected, tcp_reconnect_disconnecting, tcp_reconnect,
  tcp_connecting, mqtt_data, mqtt_keepalive_send, mqtt_deleting, mqtt_deleted, mqtt_send_timout,
  transmit, hang_up, tcpclient_delete, connect, client_delete, send_keepalive,
}

-- The oldest message goes out, if the last one was sent.
unfoldable pub send_next : Parser → List ℕ → MqttClient → MqttClient
send_next stack buffer c =
    let (t, q) = gets stack c.msg_queue buffer mqtt_buf_size in
    if is_empty c.msg_queue || not (c.send_timeout == 0) then c else elim t.len [
      | none ↦ record c { msg_queue = q }
      | some n ↦
          let c₁ = record c {
            msg_queue = q;
            pending_msg_type = get_type t.buf_out;
            pending_msg_id = get_id t.buf_out n;
            send_timeout = mqtt_send_timout;
            keep_alive_tick = 0;
          } in
          record (transmit c₁ (take n t.buf_out)) { outbound_message = false }
    ]

-- `accepts` is what `espconn_send` says to a keepalive.
unfoldable pub task : Bool → Parser → List ℕ → MqttClient → MqttClient
unfolding tcpclient_delete connect client_delete send_keepalive send_next
task accepts stack buffer c = elim c.conn_state [
  | tcp_reconnect ↦ record (connect (tcpclient_delete c)) { conn_state = tcp_connecting }
  | mqtt_deleting ↦ hang_up c
  | tcp_disconnecting ↦ hang_up c
  | tcp_reconnect_disconnecting ↦ hang_up c
  | tcp_disconnected ↦ tcpclient_delete c
  | mqtt_deleted ↦ client_delete c
  | mqtt_keepalive_send ↦ send_keepalive accepts c
  | mqtt_data ↦ send_next stack buffer c
  | _ ↦ c
]
