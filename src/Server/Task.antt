-- ===== src/Server/Task.antt =====
-- src/mqtt_server.cpp: a new connection, the end of a send, and the task that sends what is queued.
use u_mqttbroker.Base.{
  ℕ, ◌+◌, Bool, true, false, not, ◌&&◌, ◌||◌, Option, none, some, List, ◌∷◌, if◌then◌else◌, ◌==◌,
  ltb, take,
}
use u_mqttbroker.Proto.{Parser}
use u_mqttbroker.Msg.Read.{get_type, get_id}
use u_mqttbroker.Queue.{gets, is_empty}
use u_mqttbroker.Retained.{Memory}
use u_mqttbroker.Server.{
  Broker, Client, ConnState, tcp_connected, tcp_disconnect, tcp_disconnecting, mqtt_data, post,
  stop, sent, Reverse, nobody, client, log, put_client, count_client_con, init_client_con,
  mqtt_buf_size, queue_buffer_size,
}
use u_mqttbroker.Server.Publish.{activate_next_client}
use u_mqttbroker.Server.Close.{disconnect_client_con}

-- `MQTT_SEND_TIMOUT`
abbrev pub mqtt_send_timout : ℕ
mqtt_send_timout = 5

abbrev pub is_disconnecting : ConnState → Bool
is_disconnecting tcp_disconnecting = true
is_disconnecting tcp_connected = false
is_disconnecting tcp_disconnect = false
is_disconnecting mqtt_data = false

-- `MQTT_ClientCon_sent_cb`, for the client that `reverse` names.
unfoldable pub sent_cb : (ℕ → Bool) → Memory → Broker → Client → Broker
unfolding disconnect_client_con activate_next_client
sent_cb connected memory b c =
    let c' = record c { send_timeout = 0 } in
    let b₁ = record b { clientcon_list = put_client c' b.clientcon_list } in
    let b₂ =
      if is_disconnecting c.conn_state then disconnect_client_con connected memory b₁ c' else b₁ in
    activate_next_client connected b₂

-- A client that is refused is left to the task; another one is initialized, with 40 seconds to send
-- its CONNECT.
abbrev pub admit : Bool → Bool → Bool → Broker → Client → Broker
admit true in_memory memory b c =
    log (record b { aside = record c { conn_state = tcp_disconnect } ∷ b.aside }) (post c.address)
admit false in_memory memory b c =
    init_client_con in_memory memory b (record c { connection_timeout = 40 })

-- `MQTT_ClientCon_connected_cb`: what `os_zalloc` gives, a client of zeros at an address or NULL;
-- the free heap; whether `local_connect_cb` is not set or agrees to the number of clients; and
-- whether the buffer and the queue get memory.
unfoldable pub connected_cb : Option Client → ℕ → (ℕ → ℕ → Bool) → Bool → Bool → Broker → ℕ → Broker
unfolding init_client_con count_client_con
connected_cb zalloc free_heap agrees in_memory memory b pcon =
    let point : Reverse → Broker → Broker =
      λ r b'. record b' { reverse = λ p. if p == pcon then r else b'.reverse p } in
    elim zalloc [
      | none ↦ point nobody b
      | some c ↦
          let b₁ = point (client c.address) b in
          let c₁ = record c { pcon = pcon } in
          let no_mem = ltb free_heap (mqtt_buf_size + queue_buffer_size + 0x400) in
          admit (no_mem || not (agrees pcon (count_client_con b₁ + 1))) in_memory memory b₁ c₁
    ]

-- The branch of `MQTT_ServerTask` for a client that may send: a message of
-- fewer bytes than `availableForWrite()` gives goes out, another is lost; `stack` and `buffer` are what is on
-- the stack.
unfoldable pub send_next :
    (ℕ → Bool) → (ℕ → ℕ) → Memory → Parser → List ℕ → Broker → Client → Broker
unfolding sent_cb
send_next connected available memory stack buffer b c =
    let (t, q) = gets stack c.msg_queue buffer mqtt_buf_size in
    let c₁ = record c { msg_queue = q } in
    let b₁ = record b { clientcon_list = put_client c₁ b.clientcon_list } in
    let failed =
      if is_disconnecting c.conn_state then disconnect_client_con connected memory b₁ c₁ else b₁ in
    elim t.len [
      | none ↦ failed
      | some n ↦
          let c₂ = record c₁ {
            pending_msg_type = get_type t.buf_out;
            pending_msg_id = get_id t.buf_out n;
            send_timeout = mqtt_send_timout;
          } in
          let b₂ = record b { clientcon_list = put_client c₂ b.clientcon_list } in
          if ltb n (available c.pcon)
          then sent_cb connected memory (log b₂ (sent c.pcon (take n t.buf_out))) c₂
          else b₂
    ]

-- The `switch` over the state: a client that waits for its CONNECT, one that was refused, and the
-- others.
abbrev pub by_state : ConnState → Broker → Broker → Broker → Broker
by_state tcp_connected b stopped next = b
by_state tcp_disconnect b stopped next = stopped
by_state tcp_disconnecting b stopped next = next
by_state mqtt_data b stopped next = next

-- `MQTT_ServerTask` for a client.
unfoldable pub server_task :
    (ℕ → Bool) → (ℕ → ℕ) → Memory → Parser → List ℕ → Broker → Client → Broker
unfolding send_next activate_next_client
server_task connected available memory stack buffer b c =
    let wait =
      if is_disconnecting c.conn_state then disconnect_client_con connected memory b c else b in
    let next =
      if not (is_empty c.msg_queue) && (c.send_timeout == 0)
      then send_next connected available memory stack buffer b c
      else wait in
    by_state c.conn_state b (activate_next_client connected (log b (stop c.pcon))) next

-- `MQTT_ServerTask` for `dummy_clientcon`, whose state is TCP_DISCONNECT.
unfoldable pub dummy_task : (ℕ → Bool) → Broker → Broker
unfolding activate_next_client
dummy_task connected b =
    activate_next_client connected (elim b.dummy_pcon [ none ↦ b | some p ↦ log b (stop p) ])
