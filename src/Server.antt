-- ===== src/Server.antt =====
-- src/mqtt_server.cpp and src/mqtt/mqtt_server.h: the broker's connections, what it publishes to
-- them, what it receives from them, its timer and its task.
-- A client is known by its address. `pCon` is the address of a network connection, whose `WiFiClient`
-- is a parameter of what asks it. Log output is left out.
pub mod Publish
pub mod Close
pub mod Task
pub mod Delivery
pub mod Broadcast
pub mod Removal
pub mod Every
pub mod Sending
pub mod Receive
pub mod Run
pub mod Network
pub mod Wrapper
mod Tests
use u_mqttbroker.Base.{
  ℕ, zero, suc, ◌+◌, ◌-◌, ◌%◌, ◌^◌, Bool, true, false, not, ◌&&◌, Option, none, some, List, [], ◌∷◌,
  ◌++◌, if◌then◌else◌, ltb, ◌==◌, length, replicate,
}
use u_mqttbroker.Msg.{Connection}
use u_mqttbroker.Msg
use u_mqttbroker.Queue.{Queue}
use u_mqttbroker.Queue
use u_mqttbroker.Ring.{Ring}
use u_mqttbroker.TopicList.{Entry}
use u_mqttbroker.Retained.{Store}

-- The states of `tConnState` that the broker uses.
pub data ConnState : Type 0 where
  tcp_connected tcp_disconnect tcp_disconnecting mqtt_data : ConnState

-- `client_id`: NULL, the array `zero_len_id`, or an allocated string.
pub data ClientId : Type 0 where
  no_id zero_len_id : ClientId
  id : List ℕ → ClientId

-- `mqtt_connect_info_t`, of which NULL is `none`.
pub record ConnectInfo : Type 0 where
  pub client_id : ClientId
  pub username : Option (List ℕ)
  pub password : Option (List ℕ)
  pub will_topic : Option (List ℕ)
  pub will_data : Option (List ℕ)
  pub keepalive : ℕ
  pub will_qos : ℕ
  pub will_retain : Bool
  pub clean_session : Bool

abbrev pub empty_info : ConnectInfo
empty_info = record {
  client_id = zero_len_id;
  username = none;
  password = none;
  will_topic = none;
  will_data = none;
  keepalive = 0;
  will_qos = 0;
  will_retain = false;
  clean_session = false;
}

-- The part of `mqtt_state` that holds what is received. A buffer that is NULL is the empty list.
pub record Inbound : Type 0 where
  pub in_buffer : List ℕ
  pub message_length : ℕ
  pub message_length_read : ℕ

-- `MQTT_ClientCon`; `connection` is `mqtt_state.mqtt_connection`, whose buffer is the broker's.
pub record Client : Type 0 where
  pub address : ℕ
  pub pcon : ℕ
  pub connection : Connection
  pub inbound : Inbound
  pub connect_info : ConnectInfo
  pub conn_state : ConnState
  pub msg_queue : Queue
  pub send_timeout : ℕ
  pub connection_timeout : ℕ
  pub protocol_version : ℕ
  pub pending_msg_type : ℕ
  pub pending_msg_id : ℕ

-- What the broker asks of others: a post to its task, for a client or for `dummy_clientcon`; a
-- callback; the end of a connection; data sent; a new timeout of a connection. `null_write` stands
-- for a write through `mqtt_connection.buffer` of a client that is unlinked, where it is NULL, and
-- `wild_access` for another use of NULL or of a client that was deleted, where its handler ends.
pub data Event : Type 0 where
  post : ℕ → Event
  post_dummy : Event
  data_cb : List ℕ → List ℕ → Event
  disconnect_cb : ℕ → List ℕ → Event
  stop : ℕ → Event
  sent : ℕ → List ℕ → Event
  set_timeout : ℕ → ℕ → Event
  null_write wild_access : ℕ → Event

-- Whom the `reverse` pointer of a connection names.
pub data Reverse : Type 0 where
  nobody dummy : Reverse
  client : ℕ → Reverse

-- The static variables; the callbacks by whether they are set. `aside` are the clients that were
-- refused when they connected: allocated, and not in `clientcon_list`.
pub record Broker : Type 0 where
  pub clientcon_list : List Client
  pub aside : List Client
  pub topic_list : Option (List Entry)
  pub retained : Store
  pub shared_out_buffer : List ℕ
  pub reverse : ℕ → Reverse
  pub dummy_pcon : Option ℕ
  pub local_data_cb : Bool
  pub local_disconnect_cb : Bool
  pub events : List Event

-- `MQTT_BUF_SIZE`, `QUEUE_BUFFER_SIZE`, and `LOCAL_MQTT_CLIENT` as an address of 32 bits.
abbrev pub mqtt_buf_size : ℕ
mqtt_buf_size = 512

abbrev pub queue_buffer_size : ℕ
queue_buffer_size = 1024

abbrev pub local_mqtt_client : ℕ
local_mqtt_client = 2 ^ 32 - 1

abbrev pub log : Broker → Event → Broker
log b e = record b { events = b.events ++ e ∷ [] }

abbrev pub find_client : ℕ → List Client → Option Client
find_client address [] = none
find_client address (c ∷ clients) =
    let rest = find_client address clients in if c.address == address then some c else rest

-- A change of the client with the address of `c`.
abbrev pub put_client : Client → List Client → List Client
put_client c [] = []
put_client c (d ∷ clients) =
    let rest = put_client c clients in if d.address == c.address then c ∷ clients else d ∷ rest

-- The list without the first client of an address.
abbrev pub unlink : ℕ → List Client → List Client
unlink address [] = []
unlink address (c ∷ clients) =
    let rest = unlink address clients in if c.address == address then clients else c ∷ rest

-- The count has 16 bits.
abbrev pub count_loop : ℕ → List Client → ℕ
count_loop count [] = count
count_loop count (c ∷ clients) = count_loop ((count + 1) % 2 ^ 16) clients

unfoldable pub count_client_con : Broker → ℕ
count_client_con b = count_loop 0 b.clientcon_list

abbrev pub nth_loop : ℕ → ℕ → List Client → Option Client
nth_loop index count [] = none
nth_loop index count (c ∷ clients) =
    let rest = nth_loop index ((count + 1) % 2 ^ 16) clients in
    if count == index then some c else rest

unfoldable pub get_client_id : Broker → ℕ → Option ClientId
get_client_id b index = elim (nth_loop index 0 b.clientcon_list) [
  | none ↦ none
  | some c ↦ some c.connect_info.client_id
]

unfoldable pub get_client_pcon : Broker → ℕ → Option ℕ
get_client_pcon b index = elim (nth_loop index 0 b.clientcon_list) [
  | none ↦ none
  | some c ↦ some c.pcon
]

-- `MQTT_server_initClientCon`; `in_memory` is what the allocation of the buffer gets, and `memory`
-- that of the queue.
unfoldable pub init_client_con : Bool → Bool → Broker → Client → Broker
init_client_con in_memory memory b c =
    let c' = record c {
      inbound = record c.inbound {
        in_buffer = if in_memory then replicate mqtt_buf_size 0 else [];
      };
      conn_state = tcp_connected;
      connect_info = empty_info;
      protocol_version = 0;
      connection = Msg.init b.shared_out_buffer mqtt_buf_size;
      msg_queue = Queue.init memory c.msg_queue queue_buffer_size;
    } in
    record b { clientcon_list = c' ∷ b.clientcon_list }
