-- ===== src/Server/Receive.antt =====
-- src/mqtt_server.cpp, MQTT_ClientCon_recv_cb: the bytes that arrive, and the messages in them. The
-- handler alone uses the receive buffer of its client: it is passed along, and written back at the
-- end. `outside k` is what the handling of message `k` gets from outside.
pub mod Connect
pub mod Session
pub mod Sound
pub mod Login
pub mod Bounds
pub mod Window
pub mod Rounds
pub mod Endless
pub mod Steps
pub mod Fields
pub mod Answer
pub mod Topics
pub mod Subscribing
pub mod Unsubscribing
use u_mqttbroker.Base.{
  ℕ, zero, suc, ◌+◌, ◌-◌, ◌*◌, ◌%◌, ◌^◌, Bool, true, false, Option, none, some, List, [], ◌∷◌,
  if◌then◌else◌, ltb, ◌==◌, get_or, length, take, drop, write, c_string,
}
use u_mqttbroker.Msg.Read.{get_type, get_total_length}
use u_mqttbroker.Msg.Build.{ConnectReturnCode, accepted, refuse_protocol, msg_connack}
use u_mqttbroker.Server.{
  Broker, Client, ConnState, ConnectInfo, no_id, zero_len_id, id, Inbound, tcp_connected,
  tcp_disconnect, tcp_disconnecting, mqtt_data, post, set_timeout, wild_access, nobody, dummy,
  client, log, find_client, put_client, mqtt_buf_size,
}
use u_mqttbroker.Server.Publish.{enqueue, activate_next_client}
use u_mqttbroker.Server.Close.{delete_client_by_id, disconnect_client_con}
use u_mqttbroker.Server.Receive.Connect.{
  Step, go, refuse, drop_client, connect_header, set_session, read_client_id, read_rest,
}
use u_mqttbroker.Server.Receive.Session.{Outside, Received, next, left, hang_up, receive_data}

-- The CONNACK, for a client in its new state.
abbrev pub answer : Broker → Client → ConnState → ConnectReturnCode → Inbound → Received
answer b c state code inb =
    next (enqueue b (record c { conn_state = state }) λ conn. msg_connack conn code).1 inb

-- What follows from the last step of a CONNECT.
abbrev pub conclude : Outside → Broker → Client → Inbound → Step → Received
conclude outside b c inb (go info used) =
    answer b (record c { connect_info = info }) mqtt_data accepted inb
conclude outside b c inb (refuse info code) =
    answer b (record c { connect_info = info }) tcp_disconnecting code inb
conclude outside b c inb (drop_client info) = hang_up outside b (record c { connect_info = info })

-- The end of an older session with the client's id, which is compared as far as the next 0 in the
-- buffer. The client itself may go with it.
abbrev pub end_session :
    Outside → Broker → Client → Inbound → ConnectInfo → ℕ → Option Client × Broker
end_session outside b c inb info used = elim info.client_id [
  | no_id ↦ (some c, b)
  | zero_len_id ↦ (some c, b)
  | id _ ↦
      let s = c_string (drop (2 + used + 2) inb.in_buffer) in
      let b₁ = (delete_client_by_id outside.connected outside.memory b s).1 in
      (find_client c.address b₁.clientcon_list, b₁)
]

-- A CONNECT, behind its variable header of `used` bytes.
unfoldable pub connect_payload : Outside → Broker → Client → Inbound → ℕ → Received
unfolding read_client_id read_rest delete_client_by_id enqueue
connect_payload outside b c inb used =
    let memory = outside.connect_memory in
    elim (read_client_id memory inb c.protocol_version c.connect_info used) [
      | refuse info code ↦ conclude outside b c inb (refuse info code)
      | drop_client info ↦ conclude outside b c inb (drop_client info)
      | go info used' ↦
          let (kept, b₁) = end_session outside b c inb info used in
          elim kept [
            | none ↦ left (log b₁ (wild_access c.pcon))
            | some d ↦
                let d' = record d { protocol_version = c.protocol_version; connect_info = info } in
                conclude outside b₁ d' inb (read_rest memory outside.auth d.pcon inb info used')
          ]
    ]

-- The protocol, the session and the keepalive that the variable header tells.
abbrev pub connect_session : Outside → Broker → Client → Inbound → List ℕ × ℕ × ℕ → Received
connect_session outside b c inb (buffer, version, used) =
    let info = set_session buffer c.connect_info in
    connect_payload outside (log b (set_timeout c.pcon (2 * info.keepalive)))
      (record c { protocol_version = version; connect_info = info })
      (record inb { in_buffer = buffer }) used

unfoldable pub connect : Outside → Broker → Client → Inbound → Received
unfolding connect_header connect_payload
connect outside b c inb =
    if ltb inb.message_length 13 then hang_up outside b c else elim (connect_header inb.in_buffer) [
      | none ↦ answer b c tcp_disconnecting refuse_protocol inb
      | some h ↦ connect_session outside b c inb h
    ]

-- The `switch` over the state of the client. A connection that was refused is not looked at.
unfoldable pub handle : Outside → Broker → Client → Inbound → Received
unfolding connect receive_data
handle outside b c inb = elim c.conn_state [
  | tcp_connected ↦
      if get_type inb.in_buffer == 1 then connect outside b c inb else hang_up outside b c
  | tcp_disconnect ↦ next b inb
  | tcp_disconnecting ↦ next b inb
  | mqtt_data ↦ receive_data outside b c inb
]

-- The client's buffer as the handler leaves it.
abbrev pub store : Broker → ℕ → Inbound → Broker
store b address inb = elim (find_client address b.clientcon_list) [
  | none ↦ b
  | some c ↦ record b { clientcon_list = put_client (record c { inbound = inb }) b.clientcon_list }
]

abbrev pub renew_timeout : Broker → ℕ → Broker
renew_timeout b address = elim (find_client address b.clientcon_list) [
  | none ↦ b
  | some c ↦
      let c' = record c { connection_timeout = 2 * c.connect_info.keepalive + 10 } in
      record b { clientcon_list = put_client c' b.clientcon_list }
]

-- The bytes behind the message, at the buffer's start.
unfoldable pub shift : Inbound → Inbound
shift inb =
    let diff = inb.message_length_read - inb.message_length in
    record inb {
      in_buffer = write inb.in_buffer 0 (take diff (drop inb.message_length inb.in_buffer));
      message_length_read = diff;
    }

-- The end of the handler, by the type of the last message.
unfoldable pub finish : Outside → Broker → ℕ → Inbound → ℕ → Broker
unfolding activate_next_client
finish outside b address inb msg_type =
    let b₁ = store b address (record inb { message_length_read = 0 }) in
    if msg_type == 3 then activate_next_client outside.connected b₁ else log b₁ (post address)

-- `goto READPACKET`, with fuel: the number of the message, `len`. `none` is fuel that is not enough.
unfoldable pub recv_loop : ℕ → (ℕ → Outside) → ℕ → ℕ → Broker → ℕ → Inbound → Option Broker
unfolding handle shift finish get_total_length
recv_loop zero outside k len b address inb = none
recv_loop (suc n) outside k len b address inb =
    let total = get_total_length inb.in_buffer inb.message_length_read % 2 ^ 16 in
    let inb₁ = record inb { message_length = total } in
    elim (ltb len 2) [
      | true ↦ some (store b address inb)
      | false ↦ elim (ltb inb.message_length_read total) [
        | true ↦ some (store b address inb₁)
        | false ↦ elim (find_client address b.clientcon_list) [
          | none ↦ some b
          | some c ↦ elim (handle (outside k) b c inb₁) [
            | left b₁ ↦ some b₁
            | next b₁ inb₂ ↦
                let b₂ = renew_timeout b₁ address in
                elim (ltb inb₂.message_length inb₂.message_length_read) [
                  | true ↦ recv_loop n outside (suc k) len b₂ address (shift inb₂)
                  | false ↦ some (finish (outside k) b₂ address inb₂ (get_type inb₁.in_buffer))
                ]
          ]
        ]
      ]
    ]

-- `MQTT_ClientCon_recv_cb`; `reverse` names `dummy_clientcon` once the client was disconnected, and
-- that has no buffer. `pdata` are the `len` bytes, of which there are fewer than 2 ^ 16.
unfoldable pub recv_cb : ℕ → (ℕ → Outside) → Broker → ℕ → List ℕ → Option Broker
unfolding recv_loop
recv_cb fuel outside b pcon pdata = elim (b.reverse pcon) [
  | nobody ↦ some b
  | dummy ↦ some (log b (wild_access pcon))
  | client address ↦ elim (find_client address b.clientcon_list) [
    | none ↦ some (log b (wild_access pcon))
    | some c ↦
        let len = length pdata in
        let inb = c.inbound in
        if ltb mqtt_buf_size (len + inb.message_length_read)
        then some (disconnect_client_con (outside 0).connected (outside 0).memory b c)
        else recv_loop fuel outside 0 len b address (record inb {
          in_buffer = write inb.in_buffer inb.message_length_read pdata;
          message_length_read = inb.message_length_read + len;
        })
  ]
]
