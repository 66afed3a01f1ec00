-- ===== src/Mqtt/Rounds.antt =====
-- src/mqtt.c: when the loop over the bytes that arrive for the client ends.
use u_mqttbroker.Base.{
  ℕ, zero, suc, ◌%◌, ◌^◌, ◌<◌, ◌≡◌, inl, inr, refl, ap, subst, ◌∙◌, Bool, true, false, ◌&&◌, some,
  List, arith, length, length-write, length-drop, take, take-write, drop, write, if◌then◌else◌, ltb,
  ltb→lt, ◌==◌, Bool-cases,
}
use u_mqttbroker.Msg.Read.{get_type, get_qos, get_connect_return_code, get_total_length}
use u_mqttbroker.Server.{Inbound, mqtt_buf_size}
use u_mqttbroker.Server.Receive.Window.{total_of, total_of-received}
use u_mqttbroker.Server.Receive.Rounds.{Advances}
use u_mqttbroker.Mqtt.{MqttClient, hang_up, is_connected}
use u_mqttbroker.Mqtt.Receive.{
  deliver_publish, reply, receive_connack, acknowledge, receive_message, receive, is_connecting,
  recv_loop,
}

-- No handler writes the buffer.
receive_connack-buffer : (c : MqttClient) → (receive_connack c).in_buffer ≡ c.in_buffer
unfolding receive_connack
receive_connack-buffer c = elim (Bool-cases (get_type c.in_buffer == 2)) [
  | inr e ↦ rw (receive_connack, e) refl
  | inl e ↦ elim (Bool-cases (c.pending_msg_type == 1)) [
    | inr f ↦ rw (receive_connack, e, f) (hung c)
    | inl f ↦ elim (Bool-cases (get_connect_return_code c.in_buffer == 0)) [
      | inr g ↦ rw (receive_connack, e, f, g) (hung c)
      | inl g ↦ elim (Bool-cases c.callbacks.connected_cb) [
        | inl k ↦ rw (receive_connack, e, f, g, k) refl
        | inr k ↦ rw (receive_connack, e, f, g, k) refl
      ]
    ]
  ]
]
  where
    hung : (c : MqttClient) → (hang_up c).in_buffer ≡ c.in_buffer
    hung c = elim (Bool-cases c.security) [ inl e ↦ rw e refl | inr e ↦ rw e refl ]

acknowledge-buffer : (c : MqttClient) → (acknowledge c).in_buffer ≡ c.in_buffer
unfolding acknowledge
acknowledge-buffer c = elim (Bool-cases (get_qos c.in_buffer == 1)) [
  | inl e ↦ rw (acknowledge, e, reply) refl
  | inr e ↦ elim (Bool-cases (get_qos c.in_buffer == 2)) [
    | inl f ↦ rw (acknowledge, e, f, reply) refl
    | inr f ↦ rw (acknowledge, e, f) refl
  ]
]

deliver_publish-buffer :
    (c : MqttClient) (len : ℕ) → (deliver_publish c len).in_buffer ≡ c.in_buffer
unfolding deliver_publish
deliver_publish-buffer c len = elim (Bool-cases c.callbacks.data_cb) [
  | inl e ↦ rw (deliver_publish, e) refl
  | inr e ↦ rw (deliver_publish, e) refl
]

receive_message-buffer : (c : MqttClient) → (receive_message c).in_buffer ≡ c.in_buffer
unfolding receive_message reply
receive_message-buffer c = elim (Bool-cases (get_type c.in_buffer == 3)) [
  | inl e ↦
      rw (receive_message, e)
        (deliver_publish-buffer (acknowledge c) c.message_length_read ∙ acknowledge-buffer c)
  | inr e ↦ elim (Bool-cases (get_type c.in_buffer == 5)) [
    | inl f ↦ rw (receive_message, e, f) refl
    | inr f ↦ elim (Bool-cases (get_type c.in_buffer == 6)) [
      | inl g ↦ rw (receive_message, e, f, g) refl
      | inr g ↦ elim (Bool-cases (get_type c.in_buffer == 12)) [
        | inl k ↦ rw (receive_message, e, f, g, k) refl
        | inr k ↦ rw (receive_message, e, f, g, k) refl
      ]
    ]
  ]
]

receive-buffer : (c : MqttClient) (len : ℕ) → (receive c len).in_buffer ≡ c.in_buffer
receive-buffer c len = by_state (is_connecting c.conn_state) (is_connected c.conn_state)
  where
    d : MqttClient
    d = record c {
      message_length_read = len;
      message_length = get_total_length c.in_buffer len % 2 ^ 16;
    }

    by_state :
        (connecting served : Bool)
        → (if connecting
            then receive_connack c
            else if served
            then receive_message d
            else c).in_buffer
          ≡ c.in_buffer
    by_state true served = receive_connack-buffer c
    by_state false true = receive_message-buffer d
    by_state false false = refl

total_of-write :
    (buffer pdata : List ℕ)
    → length buffer ≡ mqtt_buf_size
    → length pdata < mqtt_buf_size
    → total_of pdata ≡ get_total_length (write buffer 0 pdata) (length pdata) % 2 ^ 16
total_of-write buffer pdata l h =
    let n = length pdata in
    let held : Inbound = record {
      in_buffer = write buffer 0 pdata;
      message_length = 0;
      message_length_read = n;
    } in
    let bytes : take n (write buffer 0 pdata) ≡ pdata =
      take-write pdata buffer 0 n (omega arith) (omega (arith, l, h)) in
    subst (λ x. total_of x ≡ get_total_length (write buffer 0 pdata) n % 2 ^ 16) bytes
      (total_of-received held (length-write pdata buffer 0 ∙ l, omega (arith, h)))

and-left : (a b : Bool) → (a && b) ≡ true → a ≡ true
and-left true b e = refl
and-left false b e = e

and-right : (a b : Bool) → (a && b) ≡ true → b ≡ true
and-right true b e = e
and-right false b e = cc

-- Where no message in the bytes that arrive for the client has a total length that is stored as 0,
-- and its buffer has 512 bytes, the handler ends within one round more than there are bytes.
pub recv_loop-returns :
    (n : ℕ) (c : MqttClient) (pdata : List ℕ)
    → length c.in_buffer ≡ mqtt_buf_size
    → length pdata < n
    → Advances n pdata
    → (c' : MqttClient) × (recv_loop n c pdata ≡ some c')
unfolding recv_loop
recv_loop-returns zero c pdata l h adv = absurd (omega arith)
recv_loop-returns (suc n) c pdata l h adv =
    let len = length pdata in
    let c₁ = record c { in_buffer = write c.in_buffer 0 pdata } in
    let total = get_total_length c₁.in_buffer len % 2 ^ 16 in
    elim (Bool-cases (ltb 0 len && ltb len mqtt_buf_size)) [
      | inr e ↦ rw (recv_loop, e) (_, refl)
      | inl e ↦
          elim (Bool-cases
            (is_connected c.conn_state && ((get_type c₁.in_buffer == 3) && ltb total len))) [
              | inr f ↦ rw (recv_loop, e, f) (_, refl)
              | inl f ↦
                  let small = ltb→lt len mqtt_buf_size (and-right (ltb 0 len) _ e) in
                  let some_left = ltb→lt 0 len (and-left (ltb 0 len) _ e) in
                  let t : total_of pdata ≡ total = total_of-write c.in_buffer pdata l small in
                  rw (recv_loop, e, f)
                    (recv_loop-returns n (receive c₁ len) (drop total pdata)
                      (ap length (receive-buffer c₁ len) ∙ length-write pdata c.in_buffer 0 ∙ l)
                      (omega (arith, length-drop total pdata, h, t, adv.0, some_left))
                      (subst (λ x. Advances n (drop x pdata)) t adv.1))
            ]
    ]
