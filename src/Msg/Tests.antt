-- ===== src/Msg/Tests.antt =====
-- Runs of the builders and the readers of packets.
use u_mqttbroker.Base.{
  ℕ, ◌≡◌, ◌⊎◌, ◌+◌, ◌≤◌, ap, none, some, List, [], ◌∷◌, ◌++◌, arith, if◌then◌else◌, leb, length,
  replicate, refl, true,
}
use u_mqttbroker.Msg.{Connection, MessageType}
use u_mqttbroker.Msg.Build.{msg_publish, msg_subscribe, msg_unsubscribe}
use u_mqttbroker.Msg.Read.{get_str, get_publish_topic, get_publish_data}
use u_mqttbroker.Msg.Packet.{packet, message_bytes, IsReady, next_id}
use u_mqttbroker.Msg.Build.{ConnectInfo, msg_connect}
use u_mqttbroker.Msg.Packet.{string}
use u_mqttbroker.Msg.Connecting.{header, connect_flags, connect_strings, msg_connect_lem}
use u_mqttbroker.Msg.Publishing.{publish_body, msg_publish_lem}
use u_mqttbroker.Msg.Builders.{topic_body, msg_subscribe_lem}
use u_mqttbroker.Msg.Readers.{IsWithin, readers-IsWithin}
use u_mqttbroker.Msg.RoundTrip.{ReadsBack, publish_read}

abbrev connection : Connection
connection = record {
  msg_data = 0;
  msg_length = 0;
  message_id = 6;
  buffer = replicate 32 0;
  buffer_length = 32;
}

connection-IsReady : IsReady connection
connection-IsReady = record { header = omega arith; storage = omega arith; short = omega arith }

-- The topic "t/x".
abbrev topic : List ℕ
topic = b't' ∷ b'/' ∷ b'x' ∷ []

msg_publish_example : message_bytes (msg_publish connection (some topic) (5 ∷ []) 1 0).1 ≡ (
    if leb (3 + length (publish_body 6 topic (5 ∷ []) 1)) 32
    then packet MessageType.publish 0 1 0 (publish_body 6 topic (5 ∷ []) 1)
    else [])
msg_publish_example = msg_publish_lem b't' (b'/' ∷ b'x' ∷ []) (5 ∷ []) 1 0 connection-IsReady

-- With a last will and a username.
abbrev info : ConnectInfo
info = record {
  client_id = some (b'c' ∷ []);
  username = some (b'u' ∷ []);
  password = none;
  will_topic = some topic;
  will_data = 7 ∷ [];
  keepalive = 60;
  will_qos = 1;
  will_retain = true;
  clean_session = true;
}

msg_connect_example :
    let body = string (b'c' ∷ []) ++ connect_strings info in
    message_bytes (msg_connect connection info) ≡ (
      if leb (13 + length body) 32
      then packet MessageType.connect 0 0 0 (header (2 + connect_flags info) 60 ++ body)
      else [])
msg_connect_example = msg_connect_lem b'c' [] info connection-IsReady refl

msg_subscribe_example :
    ((msg_subscribe connection (some topic) 1).0 ≡ some (next_id 6))
    × (message_bytes (msg_subscribe connection (some topic) 1).1
        ≡ packet MessageType.subscribe 0 1 0 (topic_body 6 topic (1 ∷ [])))
    × ((msg_unsubscribe connection (some topic)).0 ≡ some (next_id 6))
    × (message_bytes (msg_unsubscribe connection (some topic)).1
        ≡ packet MessageType.unsubscribe 0 1 0 (topic_body 6 topic []))
msg_subscribe_example =
    msg_subscribe_lem b't' (b'/' ∷ b'x' ∷ []) 1 connection-IsReady (omega arith) (omega arith)

-- A PUBLISH whose announced length is longer than the seven bytes that there are.
abbrev cut : List ℕ
cut = 0x30 ∷ 100 ∷ 0 ∷ 3 ∷ b't' ∷ b'/' ∷ b'x' ∷ []

readers-IsWithin_example :
    IsWithin 7 (get_str cut 7)
    × IsWithin 7 (get_publish_topic cut 7)
    × let (data_at, len) = get_publish_data cut 7 in
      ((data_at ≡ none) × (len ≡ 0)) ⊎ ((k : ℕ) × (data_at ≡ some k) × (k + len ≤ 7))
readers-IsWithin_example = readers-IsWithin cut 7

sent_bytes :
    message_bytes (msg_publish connection (some topic) (5 ∷ []) 0 0).1
    ≡ 0x30 ∷ 6 ∷ 0 ∷ 3 ∷ b't' ∷ b'/' ∷ b'x' ∷ 5 ∷ []
sent_bytes = msg_publish_lem b't' (b'/' ∷ b'x' ∷ []) (5 ∷ []) 0 0 connection-IsReady

publish_read_example :
    ReadsBack
      (message_bytes (msg_publish connection (some topic) (5 ∷ []) 0 0).1)
      (7 ∷ [])
      topic
      (5 ∷ [])
      9
publish_read_example =
    publish_read b't' (b'/' ∷ b'x' ∷ []) (5 ∷ []) (7 ∷ []) 0 0 9 connection-IsReady (omega arith)
      (omega arith) (omega (arith, ap length sent_bytes)) (omega (arith, ap length sent_bytes))
