-- ===== src/Mqtt/Tests.antt =====
-- Runs of the client.
use u_mqttbroker.Base.{ℕ, ◌≡◌, refl, true, false, Bool, some, List, [], ◌∷◌, arith, replicate}
use u_mqttbroker.Ring.Inv.{IsValid}
use u_mqttbroker.Ring.Refine.{contents}
use u_mqttbroker.Proto.{Parser}
use u_mqttbroker.Queue.{Queue}
use u_mqttbroker.Queue.Fifo.{Carries, drained, next}
use u_mqttbroker.Msg.Read.{get_type, get_id, get_qos}
use u_mqttbroker.Msg.Packet.{given_id}
use u_mqttbroker.Server.{mqtt_buf_size}
use u_mqttbroker.Mqtt.{
  MqttClient, empty_info, init_connection, mqtt_data, tcp_reconnect_req, tcp_connecting,
}
use u_mqttbroker.Mqtt.Receive.{receive_message}
use u_mqttbroker.Mqtt.Queueing.{push_loop}
use u_mqttbroker.Mqtt.Task.{task}
use u_mqttbroker.Mqtt.Resend.{Pushed, push_loop_lem}
use u_mqttbroker.Mqtt.Acks.{answer, answered, receive_message-Answers}
use u_mqttbroker.Mqtt.Ticks.{Reconnects, KeepsAlive, reconnect_lem, keepalive_lem}
use u_mqttbroker.Mqtt.Sending.{HasSent, task_sends}
use u_mqttbroker.Mqtt.Handshake.{Shakes, handshake_lem}
use u_mqttbroker.Mqtt.Rounds.{recv_loop-returns}
use u_mqttbroker.Mqtt.Receive.{recv_loop}
use u_mqttbroker.Msg.Read.{get_total_length}

-- A queue of ten bytes that carries one PINGRESP.
abbrev queue : Queue
queue = record {
  buf = true;
  rb = record {
    buf = 0x7E ∷ 0xD0 ∷ 0 ∷ 0x7F ∷ replicate 6 0;
    size = 10;
    p_r = 0;
    p_w = 4;
    fill_cnt = 4;
  };
}

abbrev pingresp : List ℕ
pingresp = 0xD0 ∷ 0 ∷ []

queue-IsValid : IsValid queue.rb
queue-IsValid = record {
  two = omega arith;
  storage = omega arith;
  read_in = omega arith;
  write_in = omega arith;
  filled = omega arith;
  written = refl;
}

queue-Carries : Carries (contents queue.rb) (pingresp ∷ [])
queue-Carries = next _ [] pingresp [] [] tt (omega arith, (omega arith, tt)) refl (drained [] tt)

abbrev stack : Parser
stack = record {
  buf = [];
  buf_size = 0;
  data_len = 0;
  is_esc = true;
  is_begin = true;
  callback = false;
  calls = 0;
}

-- A PUBLISH of QoS 1, of "a" with the id 9 and no data, has arrived.
abbrev connected_client : MqttClient
connected_client = record (init_connection (b'h' ∷ []) 1883 false) {
  p_con = true;
  in_buffer = 0x32 ∷ 5 ∷ 0 ∷ 1 ∷ b'a' ∷ 0 ∷ 9 ∷ replicate 505 0;
  connection = record {
    msg_data = 0;
    msg_length = 0;
    message_id = 0;
    buffer = replicate 512 0;
    buffer_length = 512;
  };
  connect_info = record empty_info { keepalive = 60 };
  conn_state = mqtt_data;
  msg_queue = queue;
}

push_loop_example :
    (r : Bool) × (q : Queue) × (push_loop 2 stack (replicate 512 0) queue (1 ∷ 2 ∷ 3 ∷ 4 ∷ 5 ∷ [])
      ≡ some (r, q))
    × Pushed stack (replicate 512 0) (1 ∷ 2 ∷ 3 ∷ 4 ∷ 5 ∷ []) queue (pingresp ∷ []) r q
push_loop_example =
    push_loop_lem stack (replicate 512 0) (1 ∷ 2 ∷ 3 ∷ 4 ∷ 5 ∷ []) (omega arith)
      (omega arith, (omega arith, (omega arith, (omega arith, (omega arith, tt))))) (pingresp ∷ [])
      1 queue (omega arith) queue-IsValid (omega arith) queue-Carries

receive_message-Answers_example :
    Carries (contents (receive_message connected_client).msg_queue.rb) (
      answered queue (pingresp ∷ []) (
        answer
          (get_type connected_client.in_buffer)
          (get_qos connected_client.in_buffer)
          (given_id 0 (get_id connected_client.in_buffer mqtt_buf_size))))
unfolding init_connection get_id
receive_message-Answers_example =
    receive_message-Answers connected_client (pingresp ∷ []) queue-IsValid (omega arith)
      queue-Carries (record { header = omega arith; storage = omega arith; short = omega arith })
      (omega arith) (omega arith)

reconnect_example :
    Reconnects 5 [] false
      (record (init_connection (b'h' ∷ []) 1883 false) { conn_state = tcp_reconnect_req })
unfolding init_connection
reconnect_example =
    reconnect_lem 5
      (record (init_connection (b'h' ∷ []) 1883 false) { conn_state = tcp_reconnect_req }) refl refl

keepalive_example : KeepsAlive 30 [] connected_client
unfolding init_connection
keepalive_example = keepalive_lem 30 connected_client refl refl (omega arith)

task_sends_example :
    HasSent connected_client pingresp [] (task true stack (replicate 512 0) connected_client)
unfolding init_connection
task_sends_example =
    task_sends true stack (replicate 512 0) connected_client pingresp [] refl refl refl
      queue-IsValid (omega arith) (omega arith) queue-Carries

-- With the client id "c", it has not yet sent its CONNECT.
abbrev connecting_client : MqttClient
connecting_client = record connected_client {
  connect_info = record empty_info { client_id = some (b'c' ∷ []); keepalive = 60 };
  conn_state = tcp_connecting;
}

handshake_example : Shakes connecting_client (b'c' ∷ [])
unfolding init_connection
handshake_example = handshake_lem connecting_client b'c' [] refl refl refl refl (omega arith)

-- A PUBLISH of "a" without data arrives.
recv_loop-returns_example :
    (c : MqttClient) × (recv_loop 6 connected_client (0x30 ∷ 3 ∷ 0 ∷ 1 ∷ b'a' ∷ []) ≡ some c)
unfolding init_connection get_total_length
recv_loop-returns_example =
    recv_loop-returns 6 connected_client (0x30 ∷ 3 ∷ 0 ∷ 1 ∷ b'a' ∷ []) refl (omega arith)
      (omega arith, (omega arith, (omega arith, (omega arith, (omega arith, (omega arith, tt))))))
