-- ===== src/Msg/Build.antt =====
-- src/mqtt_msg.c: the `mqtt_msg_…` functions. A `char *` that may be NULL is an `Option`, and its
-- list the string without the final 0. A `uint16_t *message_id` is a second result, `none` where
-- the function does not write it.
use u_mqttbroker.Base.{
  write, ℕ, ◌+◌, ◌*◌, ◌/◌, ◌%◌, Bool, Option, none, some, List, [], ◌∷◌, if◌then◌else◌, ltb, ◌==◌,
  set, length, get_or,
}
use u_mqttbroker.Msg.{
  Connection, MessageType, push, append_string, append_message_id, init_message, fail_message,
  fini_message,
}

pub record ConnectInfo : Type 0 where
  pub client_id : Option (List ℕ)
  pub username : Option (List ℕ)
  pub password : Option (List ℕ)
  pub will_topic : Option (List ℕ)
  pub will_data : List ℕ
  pub keepalive : ℕ
  pub will_qos : ℕ
  pub will_retain : Bool
  pub clean_session : Bool

-- `enum mqtt_connect_return_code`
pub data ConnectReturnCode : Type 0 where
  accepted refuse_protocol refuse_id_rejected refuse_server_unavailable : ConnectReturnCode
  refuse_bad_username refuse_not_authorized : ConnectReturnCode

abbrev pub return_code : ConnectReturnCode → ℕ
return_code accepted = 0
return_code refuse_protocol = 1
return_code refuse_id_rejected = 2
return_code refuse_server_unavailable = 3
return_code refuse_bad_username = 4
return_code refuse_not_authorized = 5

-- Goes on after a call that does not return -1; otherwise `return fail_message(connection)`.
abbrev pub or_fail : Option ℕ × Connection → (Connection → Connection) → Connection
or_fail (none, c) k = fail_message c
or_fail (some n, c) k = k c

-- The same for an optional string, NULL or empty if it is not sent; `absent` and `present` are what
-- follows.
abbrev pub with_string :
    Option (List ℕ)
    → Connection
    → (Connection → Connection)
    → (Connection → Connection)
    → Connection
with_string none c absent present = absent c
with_string (some []) c absent present = absent c
with_string (some (x ∷ s)) c absent present = or_fail (append_string c (x ∷ s)) present

-- `sizeof(*variable_header)`, for protocol version 3.1.1
abbrev pub variable_header_size : ℕ
variable_header_size = 10

-- `variable_header->flags`, which follows the length, the magic and the version.
abbrev pub flags_at : ℕ
flags_at = 10

-- `variable_header->flags |= n`, for bits that are not set yet
abbrev pub add_flags : ℕ → Connection → Connection
add_flags n c = record c { buffer = set c.buffer flags_at (get_or c.buffer flags_at 0 + n) }

abbrev pub will_flags : ConnectInfo → ℕ
will_flags info = 4 + (if info.will_retain then 32 else 0) + info.will_qos % 4 * 8

unfoldable pub msg_connect : Connection → ConnectInfo → Connection
msg_connect connection info =
    let c = init_message connection in
    if ltb c.buffer_length (c.msg_length + variable_header_size)
    then fail_message c
    else let header =
        0
        ∷ 4
        ∷ b'M'
        ∷ b'Q'
        ∷ b'T'
        ∷ b'T'
        ∷ 4
        ∷ (if info.clean_session then 2 else 0)
        ∷ info.keepalive / 256 % 256
        ∷ info.keepalive % 256
        ∷ [] in
      let c₁ = record c {
        buffer = write c.buffer c.msg_length header;
        msg_length = c.msg_length + variable_header_size;
      } in
      let finish = λ (c : Connection). fini_message c MessageType.connect 0 0 0 in
      let password =
        λ (c : Connection). with_string info.password c finish (λ c. finish (add_flags 64 c)) in
      let username = λ (c : Connection).
        with_string info.username c password (λ c. password (add_flags 128 c)) in
      let will = λ (c : Connection). with_string info.will_topic c username λ c.
        or_fail (append_string c info.will_data) λ c. username (add_flags (will_flags info) c) in
      elim info.client_id [
        | none ↦ fail_message c₁
        | some id ↦ elim id [
          -- The call's result is not looked at.
          | [] ↦ will (append_string c₁ (0 ∷ 0 ∷ [])).1
          | x ∷ s ↦ or_fail (append_string c₁ (x ∷ s)) will
        ]
      ]

unfoldable pub msg_connack : Connection → ConnectReturnCode → Connection
msg_connack connection retcode =
    fini_message (push (push (init_message connection) 0) (return_code retcode)) MessageType.connack
      0 0 0

-- Goes on with a message id that is not 0.
abbrev pub with_id :
    ℕ × Connection → (ℕ → Connection → Option ℕ × Connection) → Option ℕ × Connection
with_id (id, c) k = if id == 0 then (some 0, fail_message c) else k id c

-- `topic == NULL || topic[0] == '\0'`
abbrev pub with_topic {ℓ} : {A : Type ℓ} → Option (List ℕ) → A → (List ℕ → A) → A
with_topic none missing k = missing
with_topic (some []) missing k = missing
with_topic (some (x ∷ s)) missing k = k (x ∷ s)

unfoldable pub msg_publish : Connection → Option (List ℕ) → List ℕ → ℕ → ℕ → Option ℕ × Connection
msg_publish connection topic content qos retain =
    let c = init_message connection in
    let finish : ℕ → Connection → Option ℕ × Connection = λ id c. (
      some id,
      if ltb c.buffer_length (c.msg_length + length content)
          then fail_message c
          else fini_message
              (record c {
                buffer = write c.buffer c.msg_length content;
                msg_length = c.msg_length + length content;
              })
              MessageType.publish 0 qos retain,
    ) in
    with_topic topic (none, fail_message c)
      λ t.
        let (n, c') = append_string c t in
        elim n [
          | none ↦ (none, fail_message c')
          | some _ ↦ if ltb 0 qos then with_id (append_message_id c' 0) finish else finish 0 c'
        ]

-- A message with an id alone, for the `mqtt_msg_…` functions below.
abbrev pub id_message : Connection → MessageType → ℕ → ℕ → Connection
id_message connection type qos message_id =
    let (id, c) = append_message_id (init_message connection) message_id in
    if id == 0 then fail_message c else fini_message c type 0 qos 0

unfoldable pub msg_puback : Connection → ℕ → Connection
msg_puback connection message_id = id_message connection MessageType.puback 0 message_id

unfoldable pub msg_pubrec : Connection → ℕ → Connection
msg_pubrec connection message_id = id_message connection MessageType.pubrec 0 message_id

unfoldable pub msg_pubrel : Connection → ℕ → Connection
msg_pubrel connection message_id = id_message connection MessageType.pubrel 1 message_id

unfoldable pub msg_pubcomp : Connection → ℕ → Connection
msg_pubcomp connection message_id = id_message connection MessageType.pubcomp 0 message_id

unfoldable pub msg_unsuback : Connection → ℕ → Connection
msg_unsuback connection message_id = id_message connection MessageType.unsuback 0 message_id

unfoldable pub msg_subscribe : Connection → Option (List ℕ) → ℕ → Option ℕ × Connection
msg_subscribe connection topic qos =
    let c = init_message connection in
    with_topic topic (none, fail_message c)
      λ t. with_id (append_message_id c 0) λ id c. (
        some id,
        or_fail (append_string c t) λ c.
            if ltb c.buffer_length (c.msg_length + 1)
            then fail_message c
            else fini_message (push c qos) MessageType.subscribe 0 1 0,
      )

unfoldable pub msg_unsubscribe : Connection → Option (List ℕ) → Option ℕ × Connection
msg_unsubscribe connection topic =
    let c = init_message connection in
    with_topic topic (none, fail_message c)
      λ t. with_id (append_message_id c 0) λ id c.
        (some id, or_fail (append_string c t) λ c. fini_message c MessageType.unsubscribe 0 1 0)

-- The loop over `ret_codes`, which checks no bound.
unfoldable pub push_all : Connection → List ℕ → Connection
push_all c [] = c
push_all c (r ∷ ret_codes) = push_all (push c r) ret_codes

unfoldable pub msg_suback : Connection → List ℕ → ℕ → Connection
unfolding push_all
msg_suback connection ret_codes message_id =
    let (id, c) = append_message_id (init_message connection) message_id in
    if id == 0 then fail_message c else fini_message (push_all c ret_codes) MessageType.suback 0 0 0

unfoldable pub msg_pingreq : Connection → Connection
msg_pingreq connection = fini_message (init_message connection) MessageType.pingreq 0 0 0

unfoldable pub msg_pingresp : Connection → Connection
msg_pingresp connection = fini_message (init_message connection) MessageType.pingresp 0 0 0

unfoldable pub msg_disconnect : Connection → Connection
msg_disconnect connection = fini_message (init_message connection) MessageType.disconnect 0 0 0
