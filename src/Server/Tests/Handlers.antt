-- ===== src/Server/Tests/Handlers.antt =====
-- Runs of the handlers of the broker.
use u_mqttbroker.Base.{
  ℕ, zero, suc, ◌≤◌, ◌≡◌, inl, refl, true, none, [], ◌∷◌, ◌++◌, arith, replicate, length,
}
use u_mqttbroker.Msg.{MessageType}
use u_mqttbroker.Msg.Build.{msg_suback, msg_unsuback}
use u_mqttbroker.Msg.Read.{get_type, get_total_length}
use u_mqttbroker.Msg.Packet.{packet, u16_bytes, given_id, message_bytes}
use u_mqttbroker.Retained.{Memory}
use u_mqttbroker.Server.{Broker, Inbound, client, empty_info}
use u_mqttbroker.Server.Every.{Every}
use u_mqttbroker.Server.Receive.{recv_loop, recv_cb, connect}
use u_mqttbroker.Server.Receive.Connect.{connect_header, next_str, read_client_id, read_rest}
use u_mqttbroker.Server.Receive.Session.{Outside, Received, receive_data}
use u_mqttbroker.Server.Receive.Sound.{Sound}
use u_mqttbroker.Server.Receive.Steps.{Reads}
use u_mqttbroker.Server.Receive.Fields.{IsWhole, IsInside, fields-Reads}
use u_mqttbroker.Server.Receive.Answer.{Answered, connect-Answered}
use u_mqttbroker.Server.Receive.Topics.{Filters, added}
use u_mqttbroker.Server.Receive.Subscribing.{subscribe_bytes, subscribes, subscribe_lem}
use u_mqttbroker.Server.Receive.Unsubscribing.{unsubscribe_bytes, deleted, unsubscribe_lem}
use u_mqttbroker.Server.Publish.{enqueue}
use u_mqttbroker.Server.Receive.Rounds.{Advances, Ends, recv_cb-Ends}
use u_mqttbroker.Server.Receive.Endless.{recv_loop-endless}
use u_mqttbroker.Server.Tests.{guest, broker}

abbrev pub memory : Memory
memory = record { topic = true; content = true }

abbrev pub outside : Outside
outside = record {
  connected = λ p. true;
  memory = memory;
  topic_memory = λ k. true;
  connect_memory = record {
    client_id = true;
    will_topic = true;
    will_data = true;
    username = true;
    password = true;
  };
  auth = none;
}

-- The client 3 is the one behind the connection 5.
abbrev connected_broker : Broker
connected_broker = record broker { reverse = λ p. client 3 }

Advances-nil : (n : ℕ) → Advances n []
unfolding get_total_length
Advances-nil zero = tt
Advances-nil (suc n) = (omega arith, Advances-nil n)

guest-Sound : Sound none guest
guest-Sound = ((refl, omega arith), λ e. refl)

-- Two PINGREQ.
recv_cb-Ends_example :
    Ends
      (Every (Sound none))
      (recv_cb 513 (λ k. outside) connected_broker 5 (0xC0 ∷ 0 ∷ 0xC0 ∷ 0 ∷ []))
unfolding get_total_length
recv_cb-Ends_example =
    recv_cb-Ends (λ k. outside) none (λ k. refl) connected_broker 5 (0xC0 ∷ 0 ∷ 0xC0 ∷ 0 ∷ []) 3
      guest (guest-Sound, tt) refl refl (omega arith, (omega arith, Advances-nil 511))

-- A PUBACK that states 65532 bytes.
abbrev long : Inbound
long = record {
  in_buffer = 0x40 ∷ 0xFC ∷ 0xFF ∷ 3 ∷ replicate 508 0;
  message_length = 0;
  message_length_read = 4;
}

recv_loop-endless_example : recv_loop 1000 (λ k. outside) 0 4 connected_broker 3 long ≡ none
unfolding get_type get_total_length
recv_loop-endless_example =
    recv_loop-endless (λ k. outside) 3 4 1000 0 connected_broker long refl (guest, refl, refl, refl)
      (omega arith, omega arith, omega arith, omega arith, omega arith) (omega arith) refl

-- A SUBSCRIBE to "ab" and to "c".
abbrev filters : Filters
filters = (b'a' ∷ b'b' ∷ [], 0) ∷ (b'c' ∷ [], 1) ∷ []

abbrev subscribing : Inbound
subscribing = record {
  in_buffer = subscribe_bytes 7 filters ++ replicate 499 0;
  message_length = 13;
  message_length_read = 13;
}

subscribe_example :
    let codes = (added outside.topic_memory guest.address 0 filters broker.topic_list).0 in
    let conn = record guest.connection { buffer = broker.shared_out_buffer } in
    (receive_data outside broker guest subscribing
      ≡ Received.next (subscribes outside broker guest 7 filters) subscribing)
    × (message_bytes (msg_suback conn codes 7)
        ≡ packet MessageType.suback 0 0 0 (u16_bytes (given_id conn.message_id 7) ++ codes))
    × (length codes ≡ length filters)
subscribe_example =
    subscribe_lem outside broker guest subscribing 7 filters (replicate 499 0) refl refl
      (omega arith) (omega arith) ((refl, omega arith), ((refl, omega arith), tt)) (omega arith)
      refl refl

-- A CONNECT of the client "x", of version 4.
abbrev connecting : Inbound
connecting = record {
  in_buffer =
      0x10
      ∷ 13
      ∷ 0
      ∷ 4
      ∷ b'M'
      ∷ b'Q'
      ∷ b'T'
      ∷ b'T'
      ∷ 4
      ∷ 2
      ∷ 0
      ∷ 60
      ∷ 0
      ∷ 1
      ∷ b'x'
      ∷ replicate 497 0;
  message_length = 15;
  message_length_read = 15;
}

connect-Answered_example : Answered outside broker guest (connect outside broker guest connecting)
connect-Answered_example = connect-Answered outside guest broker connecting

fields-Reads_example :
    (12 ≤ 15)
    × Reads (IsInside 15) (read_client_id outside.connect_memory connecting 4 empty_info 10)
    × IsWhole 15 10 (next_str connecting 10)
    × Reads (IsInside 15) (read_rest outside.connect_memory none 5 connecting empty_info 10)
unfolding connect_header
fields-Reads_example =
    fields-Reads connecting (connecting.in_buffer, 4, 10) outside.connect_memory none 5 empty_info
      10 refl (omega arith) (omega arith) refl (inl refl) (omega arith)

-- An UNSUBSCRIBE of "a".
abbrev unsubscribing : Inbound
unsubscribing = record {
  in_buffer = unsubscribe_bytes 7 ((b'a' ∷ []) ∷ []) ++ replicate 505 0;
  message_length = 7;
  message_length_read = 7;
}

unsubscribe_example :
    let conn = record guest.connection { buffer = broker.shared_out_buffer } in
    let b = record broker {
      topic_list = deleted guest.address ((b'a' ∷ []) ∷ []) broker.topic_list;
    } in
    (receive_data outside broker guest unsubscribing
      ≡ Received.next (enqueue b guest λ conn. msg_unsuback conn 7).1 unsubscribing)
    × (message_bytes (msg_unsuback conn 7)
        ≡ packet MessageType.unsuback 0 0 0 (u16_bytes (given_id conn.message_id 7)))
unsubscribe_example =
    unsubscribe_lem outside broker guest unsubscribing 7 ((b'a' ∷ []) ∷ []) (replicate 505 0) refl
      (omega arith) (omega arith) (omega arith) ((refl, omega arith), omega arith, tt) refl refl
