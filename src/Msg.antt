-- ===== src/Msg.antt =====
-- src/mqtt_msg.c and src/mqtt/mqtt_msg.h: the buffer in which a message is built. `message.data` is
-- an offset in `buffer`. The lengths are `uint16_t`; none is above `buffer_length` where it is
-- stored, but in `fini_message`, whose sum is at most three more.
pub mod Build
pub mod Read
pub mod Kept
pub mod Packet
pub mod Publishing
pub mod Connecting
pub mod Builders
pub mod Readers
pub mod RoundTrip
mod Tests
use u_mqttbroker.Base.{
  ℕ, zero, suc, ◌+◌, ◌-◌, ◌*◌, ◌/◌, ◌%◌, ◌^◌, Bool, true, false, Option, none, some, List, [], ◌∷◌,
  if◌then◌else◌, ltb, ◌==◌, set, length, write,
}

pub record Connection : Type 0 where
  pub msg_data : ℕ
  pub msg_length : ℕ
  pub message_id : ℕ
  pub buffer : List ℕ
  pub buffer_length : ℕ

-- `enum mqtt_message_type`
pub data MessageType : Type 0 where
  connect connack publish puback pubrec pubrel pubcomp subscribe suback : MessageType
  unsubscribe unsuback pingreq pingresp disconnect : MessageType

abbrev pub type_code : MessageType → ℕ
type_code connect = 1
type_code connack = 2
type_code publish = 3
type_code puback = 4
type_code pubrec = 5
type_code pubrel = 6
type_code pubcomp = 7
type_code subscribe = 8
type_code suback = 9
type_code unsubscribe = 10
type_code unsuback = 11
type_code pingreq = 12
type_code pingresp = 13
type_code disconnect = 14

abbrev pub max_fixed_header_size : ℕ
max_fixed_header_size = 3

-- `buffer[message.length++] = b`
unfoldable pub push : Connection → ℕ → Connection
push c b = record c { buffer = set c.buffer c.msg_length (b % 256); msg_length = c.msg_length + 1 }

-- The list is the `len` bytes at `string`; `none` is -1.
unfoldable pub append_string : Connection → List ℕ → Option ℕ × Connection
append_string c string =
    let len = length string in
    if ltb c.buffer_length (c.msg_length + len + 2) then (none, c) else (
      some (len + 2),
      record c {
        buffer =
            write (set (set c.buffer c.msg_length (len / 256 % 256)) (c.msg_length + 1) (len % 256))
              (c.msg_length + 1 + 1) string;
        msg_length = c.msg_length + 1 + 1 + len;
      },
    )

-- `while (message_id == 0) message_id = ++connection->message_id;` with fuel: the counter and the
-- id.
unfoldable pub assign_id : ℕ → ℕ → ℕ → ℕ × ℕ
assign_id zero counter id = (counter, id)
assign_id (suc fuel) counter id = elim (id == 0) [
  | true ↦ let next = (counter + 1) % 2 ^ 16 in assign_id fuel next next
  | false ↦ (counter, id)
]

-- The counter is not 0 twice in a row, so the loop runs twice at most.
unfoldable pub append_message_id : Connection → ℕ → ℕ × Connection
append_message_id c message_id =
    let (counter, id) = assign_id 2 c.message_id message_id in
    if ltb c.buffer_length (c.msg_length + 2) then (0, record c { message_id = counter }) else (
      id,
      record c {
        message_id = counter;
        buffer = set (set c.buffer c.msg_length (id / 256)) (c.msg_length + 1) (id % 256);
        msg_length = c.msg_length + 1 + 1;
      },
    )

unfoldable pub init_message : Connection → Connection
init_message c = record c { msg_length = max_fixed_header_size }

unfoldable pub fail_message : Connection → Connection
fail_message c = record c { msg_data = 0; msg_length = 0 }

-- The bit fields of the first byte do not overlap, so `|` is a sum.
abbrev pub first_byte : ℕ → ℕ → ℕ → ℕ → ℕ
first_byte type dup qos retain = type % 16 * 16 + dup % 2 * 8 + qos % 4 * 2 + retain % 2

unfoldable pub fini_message : Connection → MessageType → ℕ → ℕ → ℕ → Connection
fini_message c type dup qos retain =
    let remaining_length = c.msg_length - max_fixed_header_size in
    let first = first_byte (type_code type) dup qos retain in
    if ltb 127 remaining_length
    then record c {
      buffer =
          set (set (set c.buffer 0 first) 1 (128 + remaining_length % 128)) 2
            (remaining_length / 128 % 256);
      msg_length = (remaining_length + 3) % 2 ^ 16;
      msg_data = 0;
    }
    else record c {
      buffer = set (set c.buffer 1 first) 2 remaining_length;
      msg_length = remaining_length + 2;
      msg_data = 1;
    }

-- `mqtt_msg_init`
unfoldable pub init : List ℕ → ℕ → Connection
init buffer buffer_length = record {
  msg_data = 0;
  msg_length = 0;
  message_id = 0;
  buffer = buffer;
  buffer_length = buffer_length;
}
