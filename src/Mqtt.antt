-- ===== src/Mqtt.antt =====
-- src/mqtt.c and src/mqtt/mqtt.h: the MQTT client, its set-up, and what the network and the timer
-- call. `MQTT_SSL_ENABLE` is not defined, so nothing is sent on a secure connection. Allocations get
-- memory, as the code takes for granted. Log output is left out.
pub mod Receive
pub mod Queueing
pub mod Task
pub mod Resend
pub mod Ticks
pub mod Acks
pub mod Sending
pub mod Handshake
pub mod Rounds
pub mod Wrapper
mod Tests
use u_mqttbroker.Base.{
  ℕ, zero, suc, ◌+◌, ◌-◌, ◌/◌, ◌%◌, ◌^◌, Bool, true, false, not, ◌&&◌, ◌||◌, Option, none, some,
  List, [], ◌∷◌, ◌++◌, if◌then◌else◌, ltb, ◌==◌, take, drop, replicate,
}
use u_mqttbroker.Msg.{Connection}
use u_mqttbroker.Msg
use u_mqttbroker.Msg.Read.{get_type, get_id}
use u_mqttbroker.Msg.Build.{ConnectInfo, msg_connect, msg_pingreq}
use u_mqttbroker.Msg.Packet.{message_bytes}
use u_mqttbroker.Queue.{Queue}
use u_mqttbroker.Queue
use u_mqttbroker.Utils.{str_to_ip}
use u_mqttbroker.Server.{mqtt_buf_size, queue_buffer_size}

-- The states of `tConnState` that the client uses.
pub data ConnState : Type 0 where
  wifi_init tcp_disconnecting tcp_disconnected tcp_reconnect_disconnecting : ConnState
  tcp_reconnect_req tcp_reconnect tcp_connecting mqtt_connect_sending : ConnState
  mqtt_data mqtt_keepalive_send mqtt_deleting mqtt_deleted : ConnState

-- What the client asks of others: a post to its task, the end or the removal of its connection, a
-- new connection to an address, bytes sent, a call of a callback. The last is the `os_free` of a
-- place in a buffer that was freed before.
pub data Event : Type 0 where
  post disconnect abort : Event
  open_to : List ℕ → ℕ → Event
  send : List ℕ → Event
  connected disconnected published timeout : Event
  received : Option (List ℕ) → Option (List ℕ) → Event
  wild_free : Event

-- The callbacks, by whether they are set.
pub record Callbacks : Type 0 where
  pub connected_cb : Bool
  pub disconnected_cb : Bool
  pub published_cb : Bool
  pub timeout_cb : Bool
  pub data_cb : Bool

abbrev pub no_callbacks : Callbacks
no_callbacks = record {
  connected_cb = false;
  disconnected_cb = false;
  published_cb = false;
  timeout_cb = false;
  data_cb = false;
}

-- `MQTT_Client`; `p_con`, `user_data` and `outbound_message` tell whether the pointers are not NULL, `timer`
-- whether the timer runs. Strings are without the final 0.
pub record MqttClient : Type 0 where
  pub p_con : Bool
  pub security : Bool
  pub host : Option (List ℕ)
  pub port : ℕ
  pub in_buffer : List ℕ
  pub message_length : ℕ
  pub message_length_read : ℕ
  pub outbound_message : Bool
  pub connection : Connection
  pub pending_msg_id : ℕ
  pub pending_msg_type : ℕ
  pub connect_info : ConnectInfo
  pub callbacks : Callbacks
  pub timer : Bool
  pub keep_alive_tick : ℕ
  pub reconnect_tick : ℕ
  pub send_timeout : ℕ
  pub conn_state : ConnState
  pub msg_queue : Queue
  pub user_data : Bool
  pub events : List Event

-- `MQTT_SEND_TIMOUT`, `MQTT_RECONNECT_TIMEOUT`
abbrev pub mqtt_send_timout : ℕ
mqtt_send_timout = 5

abbrev pub mqtt_reconnect_timeout : ℕ
mqtt_reconnect_timeout = 5

abbrev pub log : MqttClient → Event → MqttClient
log c e = record c { events = c.events ++ e ∷ [] }

-- A callback, if it is set.
abbrev pub notify : Bool → MqttClient → Event → MqttClient
notify cb c e = if cb then log c e else c

-- `espconn_send`, or nothing on a secure connection.
abbrev pub transmit : MqttClient → List ℕ → MqttClient
transmit c bytes = if c.security then c else log c (send bytes)

-- `espconn_disconnect`, or nothing on a secure connection.
abbrev pub hang_up : MqttClient → MqttClient
hang_up c = if c.security then c else log c disconnect

abbrev pub empty_info : ConnectInfo
empty_info = record {
  client_id = none;
  username = none;
  password = none;
  will_topic = none;
  will_data = [];
  keepalive = 0;
  will_qos = 0;
  will_retain = false;
  clean_session = false;
}

abbrev pub no_queue : Queue
no_queue = record {
  buf = false;
  rb = record { buf = []; size = 0; p_r = 0; p_w = 0; fill_cnt = 0 };
}

-- `MQTT_InitConnection`: all zeros but for the arguments.
unfoldable pub init_connection : List ℕ → ℕ → Bool → MqttClient
init_connection host port security = record {
  p_con = false;
  security = security;
  host = some host;
  port = port;
  in_buffer = [];
  message_length = 0;
  message_length_read = 0;
  outbound_message = false;
  connection = Msg.init [] 0;
  pending_msg_id = 0;
  pending_msg_type = 0;
  connect_info = empty_info;
  callbacks = no_callbacks;
  timer = false;
  keep_alive_tick = 0;
  reconnect_tick = 0;
  send_timeout = 0;
  conn_state = wifi_init;
  msg_queue = no_queue;
  user_data = false;
  events = [];
}

-- `MQTT_InitClient`: without an id, a clean session is needed.
unfoldable pub init_client :
    MqttClient → Option (List ℕ) → Option (List ℕ) → Option (List ℕ) → ℕ → Bool → Bool × MqttClient
init_client c client_id client_user client_pass keep_alive_time clean_session =
    let ready : List ℕ → MqttClient = λ id.
      log
        (record c {
          connect_info = record empty_info {
            client_id = some id;
            username = client_user;
            password = client_pass;
            keepalive = keep_alive_time;
            clean_session = clean_session;
          };
          in_buffer = replicate mqtt_buf_size 0;
          connection = Msg.init (replicate mqtt_buf_size 0) mqtt_buf_size;
          msg_queue = Queue.init true c.msg_queue queue_buffer_size;
        })
        post in
    elim client_id [
      | none ↦
          if clean_session
          then (true, ready [])
          else (false, record c { connect_info = empty_info })
      | some id ↦ (true, ready id)
    ]

-- `MQTT_InitLWT`
unfoldable pub init_lwt : MqttClient → List ℕ → List ℕ → ℕ → Bool → MqttClient
init_lwt c will_topic will_msg will_qos will_retain = record c {
  connect_info = record c.connect_info {
    will_topic = some will_topic;
    will_data = will_msg;
    will_qos = will_qos;
    will_retain = will_retain;
  };
}

-- `MQTT_SetUserId` and `MQTT_SetUserPwd`
unfoldable pub set_user_id : MqttClient → List ℕ → MqttClient
set_user_id c client_id = record c {
  connect_info = record c.connect_info { client_id = some client_id };
}

unfoldable pub set_user_pwd : MqttClient → List ℕ → List ℕ → MqttClient
set_user_pwd c user pwd = record c {
  connect_info = record c.connect_info { username = some user; password = some pwd };
}

-- `mqtt_tcpclient_delete`
unfoldable pub tcpclient_delete : MqttClient → MqttClient
tcpclient_delete c = if c.p_con then record (log c abort) { p_con = false } else c

-- `MQTT_Connect`; a name that is not an address is not looked up.
unfoldable pub connect : MqttClient → MqttClient
unfolding tcpclient_delete
connect c =
    let c₁ = record (tcpclient_delete c) {
      p_con = true;
      keep_alive_tick = 0;
      reconnect_tick = 0;
      timer = true;
    } in
    let (is_ip, ip) = str_to_ip (elim c.host [ none ↦ [] | some h ↦ h ]) in
    let c₂ = if is_ip && not c.security then log c₁ (open_to ip c.port) else c₁ in
    record c₂ { conn_state = tcp_connecting }

-- `MQTT_Disconnect`, `MQTT_DeleteClient`
unfoldable pub disconnect_client : MqttClient → MqttClient
disconnect_client c = record (log (record c { conn_state = tcp_disconnecting }) post) {
  timer = false;
}

unfoldable pub delete_client : MqttClient → MqttClient
delete_client c = record (log (record c { conn_state = mqtt_deleted }) post) { timer = false }

-- `mqtt_client_delete`: the message that `outbound_message` points to lies in a buffer that was freed
-- before.
unfoldable pub client_delete : MqttClient → MqttClient
unfolding tcpclient_delete
client_delete c =
    let c₁ = tcpclient_delete c in
    let c₂ = if c.outbound_message then log c₁ wild_free else c₁ in
    record c₂ {
      host = none;
      user_data = false;
      in_buffer = [];
      connection = record c.connection { buffer = [] };
      connect_info = record c.connect_info {
        client_id = none;
        username = none;
        password = none;
        will_topic = none;
        will_data = [];
      };
      msg_queue = record c.msg_queue { buf = false };
      conn_state = wifi_init;
      callbacks = no_callbacks;
    }

-- The memory at `message.data`, which is the buffer's beginning where no message could be built.
abbrev pub message_at : Connection → List ℕ
message_at conn = drop conn.msg_data conn.buffer

-- `mqtt_tcpclient_connect_cb`: the CONNECT is sent.
unfoldable pub connect_cb : MqttClient → MqttClient
connect_cb c =
    let conn = msg_connect (Msg.init c.connection.buffer mqtt_buf_size) c.connect_info in
    let bytes = message_bytes conn in
    let c₁ = record c {
      connection = conn;
      pending_msg_type = get_type (message_at conn);
      pending_msg_id = get_id (message_at conn) conn.msg_length;
      send_timeout = mqtt_send_timout;
    } in
    log (record (transmit c₁ bytes) { outbound_message = false; conn_state = mqtt_connect_sending })
      post

-- `mqtt_tcpclient_recon_cb`
unfoldable pub recon_cb : MqttClient → MqttClient
recon_cb c = log (record c { conn_state = tcp_reconnect_req }) post

-- The state behind the end of a connection.
abbrev pub disconnected_state : ConnState → ConnState
disconnected_state s = elim s [
  | tcp_disconnecting ↦ tcp_disconnected
  | mqtt_deleting ↦ mqtt_deleted
  | _ ↦ tcp_reconnect_req
]

-- `mqtt_tcpclient_discon_cb`
unfoldable pub discon_cb : MqttClient → MqttClient
discon_cb c =
    let c₁ = record c { conn_state = disconnected_state c.conn_state } in
    log (notify c.callbacks.disconnected_cb c₁ disconnected) post

abbrev pub is_connected : ConnState → Bool
is_connected s = elim s [ mqtt_data ↦ true | mqtt_keepalive_send ↦ true | _ ↦ false ]

-- `mqtt_tcpclient_sent_cb`; 3 is the type of a PUBLISH.
unfoldable pub sent_cb : MqttClient → MqttClient
sent_cb c =
    let c₁ = record c { send_timeout = 0; keep_alive_tick = 0 } in
    log
      (notify (is_connected c.conn_state && ((c.pending_msg_type == 3) && c.callbacks.published_cb))
        c₁ published)
      post

-- `mqtt_timer`, each second; the ticks have 32 bits.
abbrev pub tick : MqttClient → MqttClient
tick c = elim c.conn_state [
  | mqtt_data ↦
      let t = (c.keep_alive_tick + 1) % 2 ^ 32 in
      let c₁ = record c { keep_alive_tick = t } in
      if ltb (c.connect_info.keepalive / 2) t
      then log (record c₁ { conn_state = mqtt_keepalive_send }) post
      else c₁
  | tcp_reconnect_req ↦
      let t = (c.reconnect_tick + 1) % 2 ^ 32 in
      if ltb mqtt_reconnect_timeout t
      then notify c.callbacks.timeout_cb
          (log (record c { reconnect_tick = 0; conn_state = tcp_reconnect }) post) timeout
      else record c { reconnect_tick = t }
  | _ ↦ c
]

unfoldable pub timer_cb : MqttClient → MqttClient
timer_cb c = let c₁ = tick c in record c₁ { send_timeout = c₁.send_timeout - 1 }

-- `mqtt_send_keepalive`; whether `espconn_send` accepts the bytes. On a secure connection its result
-- stays `ESPCONN_OK`.
unfoldable pub send_keepalive : Bool → MqttClient → MqttClient
send_keepalive accepts c =
    let conn = msg_pingreq c.connection in
    let bytes = message_bytes conn in
    let c₁ =
      transmit
        (record c {
          connection = conn;
          pending_msg_type = get_type (message_at conn);
          pending_msg_id = get_id (message_at conn) conn.msg_length;
          send_timeout = mqtt_send_timout;
        })
        bytes in
    let c₂ = record c₁ { outbound_message = false } in
    if c.security || accepts
    then log (record c₂ { keep_alive_tick = 0; conn_state = mqtt_data }) post
    else log (record c₂ { conn_state = tcp_reconnect_disconnecting }) post
