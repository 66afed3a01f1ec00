-- ===== src/Mqtt/Handshake.antt =====
-- src/mqtt.c: the CONNECT that the client sends on a new connection, and the CONNACK to it.
use u_mqttbroker.Base.{
  ℕ, zero, suc, ◌+◌, ◌≤◌, ◌<◌, ◌≡◌, inl, inr, refl, sym, ap, subst, ◌∙◌, Bool, true, false, ◌&&◌,
  ◌^◌, ltb, Option, some, List, [], ◌∷◌, ◌++◌, arith, length, take-write, ◌/◌, ◌%◌, if◌then◌else◌,
  leb, ◌==◌, get_or, get_or-take, take, drop, write, Bool-cases, append_assoc,
}
use u_mqttbroker.Msg.{Connection, connect}
use u_mqttbroker.Msg
use u_mqttbroker.Msg.Read.{get_total_length, get_type, get_connect_return_code}
use u_mqttbroker.Msg.Build.{ConnectInfo, msg_connect}
use u_mqttbroker.Msg.Packet.{packet, string, message_bytes, IsReady}
use u_mqttbroker.Msg.Connecting.{header, connect_flags, connect_strings, msg_connect_lem}
use u_mqttbroker.Server.{mqtt_buf_size}
use u_mqttbroker.Mqtt.{
  MqttClient, ConnState, Event, mqtt_connect_sending, mqtt_data, post, disconnect, send, connected,
  connect_cb, message_at, log, is_connected,
}
use u_mqttbroker.Mqtt.Receive.{receive, receive_message, receive_connack, is_connecting, recv_loop}

-- What follows the client's header: the id and the strings that the flags announce.
abbrev pub connect_body : ConnectInfo → List ℕ → List ℕ
connect_body info id = string id ++ connect_strings info

abbrev pub connect_packet : ConnectInfo → List ℕ → List ℕ
connect_packet info id = packet connect 0 0 0 (
    header ((if info.clean_session then 2 else 0) + connect_flags info) info.keepalive
    ++ connect_body info id)

first_of : (n : ℕ) (xs : List ℕ) (y : ℕ) (ys : List ℕ) → take n xs ≡ y ∷ ys → get_or xs 0 0 ≡ y
first_of zero xs y ys e = cc
first_of (suc n) [] y ys e = cc
first_of (suc n) (x ∷ xs) y ys e = cc

connect_message :
    (buffer : List ℕ) (info : ConnectInfo) (x : ℕ) (s : List ℕ)
    → length buffer ≡ mqtt_buf_size
    → info.client_id ≡ some (x ∷ s)
    → 13 + length (connect_body info (x ∷ s)) ≤ mqtt_buf_size
    → message_bytes (msg_connect (Msg.init buffer mqtt_buf_size) info) ≡ connect_packet info (x ∷ s)
unfolding Msg.init
connect_message buffer info x s l i f =
    let ready : IsReady (Msg.init buffer mqtt_buf_size) = record {
      header = omega arith;
      storage = omega (arith, l);
      short = omega arith;
    } in
    let fits : leb (13 + length (connect_body info (x ∷ s))) mqtt_buf_size ≡ true =
      ground (arith, f) in
    msg_connect_lem x s info ready i ∙ ap (λ b. if b then connect_packet info (x ∷ s) else []) fits

-- What the client does about the return code.
abbrev pub outcome : ℕ → Bool → ConnState × List Event
outcome code callback =
    if code == 0
    then (mqtt_data, if callback then connected ∷ post ∷ [] else post ∷ [])
    else (mqtt_connect_sending, disconnect ∷ post ∷ [])

abbrev pub Concludes : MqttClient → ℕ → Bool → MqttClient → Type 0
Concludes c code callback c' =
    (c'.conn_state ≡ (outcome code callback).0)
    × (c'.events ≡ c.events ++ (outcome code callback).1)

-- A CONNACK with a return code.
abbrev pub connack : ℕ → List ℕ
connack code = 0x20 ∷ 2 ∷ 0 ∷ code ∷ []

connack_at :
    (buffer : List ℕ) (code i : ℕ)
    → length buffer ≡ mqtt_buf_size
    → i < 4
    → get_or (write buffer 0 (connack code)) i 0 ≡ get_or (connack code) i 0
connack_at buffer code i l h =
    sym (get_or-take (write buffer 0 (connack code)) 4 i 0 h)
    ∙ ap (λ xs. get_or xs i 0) (take-write (connack code) buffer 0 4 refl (omega (arith, l)))

receive_connack_lem :
    (c : MqttClient) (code : ℕ)
    → get_type c.in_buffer ≡ 2
    → get_connect_return_code c.in_buffer ≡ code
    → c.conn_state ≡ mqtt_connect_sending
    → c.pending_msg_type ≡ 1
    → c.security ≡ false
    → Concludes c code c.callbacks.connected_cb (log (receive_connack c) post)
unfolding receive_connack
receive_connack_lem c code t r s p x = elim (Bool-cases (code == 0)) [
  | inr e ↦
      rw (receive_connack, t, p, r, e, x) (s, append_assoc c.events (disconnect ∷ []) (post ∷ []))
  | inl e ↦ elim (Bool-cases c.callbacks.connected_cb) [
    | inl f ↦
        rw (receive_connack, t, p, r, e, f)
          (refl, append_assoc c.events (connected ∷ []) (post ∷ []))
    | inr f ↦ rw (receive_connack, t, p, r, e, f) (refl, refl)
  ]
]

receive_sending :
    (c : MqttClient) (len : ℕ)
    → c.conn_state ≡ mqtt_connect_sending
    → receive c len ≡ receive_connack c
receive_sending c len s =
    let d = record c {
      message_length_read = len;
      message_length = get_total_length c.in_buffer len % 2 ^ 16;
    } in
    ap
      (λ st.
        if is_connecting st
        then receive_connack c
        else (if is_connected st then receive_message d else c))
      s

recv_once :
    (c : MqttClient) (code : ℕ)
    → c.conn_state ≡ mqtt_connect_sending
    → let d = record c { in_buffer = write c.in_buffer 0 (connack code) } in
      recv_loop 1 c (connack code) ≡ some (log (receive d 4) post)
unfolding recv_loop
recv_once c code s =
    let d = record c { in_buffer = write c.in_buffer 0 (connack code) } in
    let total = get_total_length d.in_buffer 4 % 2 ^ 16 in
    let go : ConnState → Option MqttClient = λ st.
      elim (is_connected st && ((get_type d.in_buffer == 3) && ltb total 4)) [
        | false ↦ some (log (receive d 4) post)
        | true ↦ recv_loop 0 (receive d 4) (drop total (connack code))
      ] in
    ap go s

connack_lem :
    (c : MqttClient) (code : ℕ)
    → c.conn_state ≡ mqtt_connect_sending
    → c.pending_msg_type ≡ 1
    → c.security ≡ false
    → length c.in_buffer ≡ mqtt_buf_size
    → (c' : MqttClient) × (recv_loop 1 c (connack code) ≡ some c')
      × Concludes c code c.callbacks.connected_cb c'
unfolding get_type get_connect_return_code
connack_lem c code s t x l =
    let d = record c { in_buffer = write c.in_buffer 0 (connack code) } in
    let type : get_type d.in_buffer ≡ 2 =
      ap (λ n. n / 16 % 16) (connack_at c.in_buffer code 0 l (omega arith)) in
    let end = connack_at c.in_buffer code 3 l (omega arith) in
    (
      log (receive_connack d) post,
      recv_once c code s ∙ ap (λ x. some (log x post)) (receive_sending d 4 s),
      receive_connack_lem d code type end s t x,
    )

connect_cb_lem :
    (c : MqttClient) (x : ℕ) (s : List ℕ)
    → c.security ≡ false
    → length c.connection.buffer ≡ mqtt_buf_size
    → c.connect_info.client_id ≡ some (x ∷ s)
    → 13 + length (connect_body c.connect_info (x ∷ s)) ≤ mqtt_buf_size
    → ((connect_cb c).events ≡ c.events ++ send (connect_packet c.connect_info (x ∷ s)) ∷ post ∷ [])
      × ((connect_cb c).conn_state ≡ mqtt_connect_sending)
      × ((connect_cb c).pending_msg_type ≡ 1)
      × ((connect_cb c).security ≡ false)
      × ((connect_cb c).in_buffer ≡ c.in_buffer)
      × ((connect_cb c).callbacks ≡ c.callbacks)
unfolding connect_cb get_type
connect_cb_lem c x s sec l i f =
    let m = connect_message c.connection.buffer c.connect_info x s l i f in
    let conn = msg_connect (Msg.init c.connection.buffer mqtt_buf_size) c.connect_info in
    let first : get_or (message_at conn) 0 0 ≡ 16 =
      first_of conn.msg_length (message_at conn) 16 _ m in
    rw (connect_cb, sec, first)
      (
        append_assoc c.events (send (message_bytes conn) ∷ []) (post ∷ [])
            ∙ ap (λ bytes. c.events ++ send bytes ∷ post ∷ []) m,
        refl,
        refl,
        refl,
        refl,
        refl,
      )

-- The CONNECT is sent, and a CONNACK with any return code ends the handshake.
abbrev pub Shakes : MqttClient → List ℕ → Type 0
Shakes c id =
    let c₁ = connect_cb c in
    (c₁.events ≡ c.events ++ send (connect_packet c.connect_info id) ∷ post ∷ [])
    × (c₁.conn_state ≡ mqtt_connect_sending)
    × ((code : ℕ)
        → (c' : MqttClient) × (recv_loop 1 c₁ (connack code) ≡ some c')
          × Concludes c₁ code c.callbacks.connected_cb c')

-- On a new connection without security, the client, with a client id that is not empty and a
-- CONNECT that fits in its buffer of 512 bytes, sends the CONNECT packet with its flags, keepalive,
-- id and strings and waits; a CONNACK with the return code 0 then makes it connected and calls the
-- callback if it is set, and one with another code makes it hang up.
pub handshake_lem :
    (c : MqttClient) (x : ℕ) (s : List ℕ)
    → c.security ≡ false
    → length c.connection.buffer ≡ mqtt_buf_size
    → length c.in_buffer ≡ mqtt_buf_size
    → c.connect_info.client_id ≡ some (x ∷ s)
    → 13 + length (connect_body c.connect_info (x ∷ s)) ≤ mqtt_buf_size
    → Shakes c (x ∷ s)
handshake_lem c x s sec l k i f =
    let (sent, state, type, open_line, same, calls) = connect_cb_lem c x s sec l i f in
    (
      sent,
      state,
      λ code.
          subst
            (λ b.
              (c' : MqttClient) × (recv_loop 1 (connect_cb c) (connack code) ≡ some c')
              × Concludes (connect_cb c) code b.connected_cb c')
            calls (connack_lem (connect_cb c) code state type open_line (ap length same ∙ k)),
    )
