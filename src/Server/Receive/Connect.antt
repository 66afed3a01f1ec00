-- ===== src/Server/Receive/Connect.antt =====
-- src/mqtt_server.cpp, MQTT_ClientCon_recv_cb: what a CONNECT message tells, and whether it is
-- accepted. The lengths are `uint16_t`.
use u_mqttbroker.Base.{
  ℕ, ◌+◌, ◌-◌, ◌*◌, ◌/◌, ◌%◌, ◌^◌, Bool, true, not, ◌&&◌, ◌||◌, Option, none, some, List, [], ◌∷◌,
  if◌then◌else◌, ltb, ◌==◌, set, get_or, length, take, drop, str_eq, c_string,
}
use u_mqttbroker.Topics.{has_wildcards}
use u_mqttbroker.Msg.Read.{get_u16, get_str}
use u_mqttbroker.Msg.Build.{
  ConnectReturnCode, refuse_id_rejected, refuse_server_unavailable, refuse_not_authorized,
}
use u_mqttbroker.Server.{ConnectInfo, ClientId, zero_len_id, id, Inbound}

-- What the calls of `os_zalloc` get.
pub record ConnectMemory : Type 0 where
  pub client_id : Bool
  pub will_topic : Bool
  pub will_data : Bool
  pub username : Bool
  pub password : Bool

-- `local_auth_cb`, of a user's name, the password, the client's id and the connection.
abbrev pub Auth : Type 0
Auth = List ℕ → List ℕ → ClientId → ℕ → Bool

-- What becomes of the message: it is read on, behind `msg_used_len` bytes; the connection is refused
-- with a code; the client is disconnected and the handler returns.
pub data Step : Type 0 where
  go : ConnectInfo → ℕ → Step
  refuse : ConnectInfo → ConnectReturnCode → Step
  drop_client : ConnectInfo → Step

abbrev pub and_then : Step → (ConnectInfo → ℕ → Step) → Step
and_then (go info used) k = k info used
and_then (refuse info code) k = refuse info code
and_then (drop_client info) k = drop_client info

-- `message_length - (2 + msg_used_len)`
abbrev pub bytes_left : Inbound → ℕ → ℕ
bytes_left inb used = (inb.message_length + 2 ^ 17 - (2 + used)) % 2 ^ 16

-- `mqtt_get_str` behind `msg_used_len` bytes: the length that the message states, and the bytes as
-- far as the buffer has them.
abbrev pub next_str : Inbound → ℕ → Option (ℕ × List ℕ)
next_str inb used = elim (get_str (drop (2 + used) inb.in_buffer) (bytes_left inb used)) [
  | none ↦ none
  | some s ↦ some (s.1, take s.1 (drop (2 + used + s.0) inb.in_buffer))
]

-- The test of the variable header's length, version and magic.
abbrev pub is_protocol : List ℕ → List ℕ → ℕ → Bool
is_protocol buffer magic version =
    (get_u16 buffer 2 == length magic)
    && ((get_or buffer (4 + length magic) 0 == version)
        && str_eq (take (length magic) (drop 4 buffer)) magic)

abbrev pub mqtt : List ℕ
mqtt = b'M' ∷ b'Q' ∷ b'T' ∷ b'T' ∷ []

abbrev pub mqisdp : List ℕ
mqisdp = b'M' ∷ b'Q' ∷ b'I' ∷ b's' ∷ b'd' ∷ b'p' ∷ []

-- The version, the flags and the keepalive of a header of version 3 are written to where a header of
-- version 4 has them.
abbrev pub adapt : List ℕ → List ℕ
adapt buffer =
    let b₁ = set buffer 8 (get_or buffer 10 0) in
    let b₂ = set b₁ 9 (get_or b₁ 11 0) in
    let b₃ = set b₂ 10 (get_or b₂ 12 0) in set b₃ 11 (get_or b₃ 13 0)

-- The buffer behind the test of the protocol, `protocolVersion` and `var_header_len`.
unfoldable pub connect_header : List ℕ → Option (List ℕ × ℕ × ℕ)
connect_header buffer =
    if is_protocol buffer mqtt 4
    then some (buffer, 4, 10)
    else if is_protocol buffer mqisdp 3
    then some (adapt buffer, 3, 12)
    else none

-- `variable_header->flags`, whose bit `mask` is set.
abbrev pub has_flag : ℕ → List ℕ → Bool
has_flag mask buffer = get_or buffer 9 0 / mask % 2 == 1

abbrev pub set_session : List ℕ → ConnectInfo → ConnectInfo
set_session buffer info = record info {
  clean_session = has_flag 2 buffer;
  keepalive = get_or buffer 10 0 * 256 + get_or buffer 11 0;
}

-- The client id: an empty one is for version 4 and a clean session.
unfoldable pub read_client_id : ConnectMemory → Inbound → ℕ → ConnectInfo → ℕ → Step
read_client_id memory inb version info used = elim (next_str inb used) [
  | none ↦ refuse info refuse_id_rejected
  | some s ↦
      if ltb 80 s.0
      then refuse info refuse_id_rejected
      else if s.0 == 0
      then (if (version == 3) || not info.clean_session
          then refuse info refuse_id_rejected
          else go (record info { client_id = zero_len_id }) ((used + 2 + s.0) % 2 ^ 16))
      else if memory.client_id
      then go (record info { client_id = id (c_string s.1) }) ((used + 2 + s.0) % 2 ^ 16)
      else refuse info refuse_server_unavailable
]

-- The data of the last will.
abbrev pub read_will_data : ConnectMemory → Inbound → ConnectInfo → ℕ → Step
read_will_data memory inb info used = elim (next_str inb used) [
  | none ↦ drop_client info
  | some s ↦
      if memory.will_data
      then go (record info { will_data = some s.1 }) ((used + 2 + s.0) % 2 ^ 16)
      else refuse info refuse_server_unavailable
]

-- The last will; its topic is set before it is tested.
unfoldable pub read_will : ConnectMemory → Inbound → ConnectInfo → ℕ → Step
read_will memory inb info used =
    let info₁ = record info {
      will_retain = has_flag 32 inb.in_buffer;
      will_qos = get_or inb.in_buffer 9 0 / 8 % 4;
    } in
    let with_topic : ℕ → List ℕ → Step = λ n topic.
      let info₂ = record info₁ { will_topic = some topic } in
      if has_wildcards topic || (get_or topic 0 0 == b'$')
      then drop_client info₂
      else read_will_data memory inb info₂ ((used + 2 + n) % 2 ^ 16) in
    if not (has_flag 4 inb.in_buffer)
    then (if info₁.will_retain || not (info₁.will_qos == 0)
        then drop_client info₁
        else go info₁ used)
    else elim (next_str inb used) [
      | none ↦ drop_client info₁
      | some s ↦
          if memory.will_topic
          then with_topic s.0 (c_string s.1)
          else refuse info₁ refuse_server_unavailable
    ]

unfoldable pub read_username : ConnectMemory → Inbound → ConnectInfo → ℕ → Step
read_username memory inb info used =
    if not (has_flag 128 inb.in_buffer) then go info used else elim (next_str inb used) [
      | none ↦ drop_client info
      | some s ↦
          if memory.username
          then go (record info { username = some (c_string s.1) }) ((used + 2 + s.0) % 2 ^ 16)
          else refuse info refuse_server_unavailable
    ]

unfoldable pub read_password : ConnectMemory → Inbound → ConnectInfo → ℕ → Step
read_password memory inb info used =
    if not (has_flag 64 inb.in_buffer)
    then go info used
    else if not (has_flag 128 inb.in_buffer)
    then drop_client info
    else elim (next_str inb used) [
      | none ↦ drop_client info
      | some s ↦
          if memory.password
          then go (record info { password = some (c_string s.1) }) ((used + 2 + s.0) % 2 ^ 16)
          else refuse info refuse_server_unavailable
    ]

abbrev pub str_or_empty : Option (List ℕ) → List ℕ
str_or_empty none = []
str_or_empty (some s) = s

-- `none` is a callback that is not set.
abbrev pub agrees : Option Auth → ConnectInfo → ℕ → Bool
agrees none info pcon = true
agrees (some auth) info pcon =
    auth (str_or_empty info.username) (str_or_empty info.password) info.client_id pcon

unfoldable pub check_auth : Option Auth → ℕ → ConnectInfo → ℕ → Step
check_auth auth pcon info used =
    if agrees auth info pcon
    then go info used
    else refuse (record info { will_topic = none }) refuse_not_authorized

-- What follows the client id.
unfoldable pub read_rest : ConnectMemory → Option Auth → ℕ → Inbound → ConnectInfo → ℕ → Step
unfolding read_will read_username read_password check_auth
read_rest memory auth pcon inb info used = and_then (read_will memory inb info used) λ info used.
    and_then (read_username memory inb info used) λ info used.
      and_then (read_password memory inb info used) λ info used. check_auth auth pcon info used
