-- ===== src/Server/Tests/Runs.antt =====
-- Runs of the broker's task, of its steps and of the network loop.
use u_mqttbroker.Base.{
  ◌≡◌, refl, sym, ap, if◌then◌else◌, ◌==◌, true, false, Option, none, some, [], ◌∷◌, arith,
  replicate,
}
use u_mqttbroker.Ring.Inv.{IsValid}
use u_mqttbroker.Ring.Refine.{contents}
use u_mqttbroker.Proto.{Parser}
use u_mqttbroker.Queue.{Queue}
use u_mqttbroker.Queue.Fifo.{Carries, drained, next}
use u_mqttbroker.Retained.{create}
use u_mqttbroker.TopicList
use u_mqttbroker.Server.{Broker, Client, tcp_connected}
use u_mqttbroker.Server.Publish.{local_publish}
use u_mqttbroker.Server.Task.{connected_cb, server_task}
use u_mqttbroker.Server.Every.{Every}
use u_mqttbroker.Server.Sending.{Sends, server_task-Sends}
use u_mqttbroker.Server.Receive.Connect.{Auth}
use u_mqttbroker.Server.Receive.Sound.{Sound}
use u_mqttbroker.Server.Run.{Step, done, more, server_start}
use u_mqttbroker.Server.Run.Safety.{reachable-IsSafe}
use u_mqttbroker.Server.Network.{Conn, Conns, Accept, Wifi, network_loop}
use u_mqttbroker.Server.Network.Visits.{Reaches}
use u_mqttbroker.Server.Network.Steps.{network_loop-Reaches}
use u_mqttbroker.Server.Tests.{guest, broker}
use u_mqttbroker.Server.Tests.Handlers.{memory, outside}

-- A queue that carries one PINGRESP.
abbrev full_queue : Queue
full_queue = record {
  buf = true;
  rb = record {
    buf = 0x7E ∷ 0xD0 ∷ 0 ∷ 0x7F ∷ replicate 60 0;
    size = 64;
    p_r = 0;
    p_w = 4;
    fill_cnt = 4;
  };
}

full_queue-IsValid : IsValid full_queue.rb
full_queue-IsValid = record {
  two = omega arith;
  storage = omega arith;
  read_in = omega arith;
  write_in = omega arith;
  filled = omega arith;
  written = refl;
}

full_queue-Carries : Carries (contents full_queue.rb) ((0xD0 ∷ 0 ∷ []) ∷ [])
full_queue-Carries =
    next _ [] (0xD0 ∷ 0 ∷ []) [] [] tt (omega arith, (omega arith, tt)) refl (drained [] tt)

abbrev stack : Parser
stack = record {
  buf = [];
  buf_size = 0;
  data_len = 0;
  is_esc = true;
  is_begin = true;
  callback = false;
  calls = 0;
}

abbrev waiting : Client
waiting = record guest { msg_queue = full_queue }

server_task-Sends_example :
    Sends
      (λ p. true)
      (λ p. 100)
      memory
      broker
      waiting
      (0xD0 ∷ 0 ∷ [])
      []
      (server_task (λ p. true) (λ p. 100) memory stack (replicate 512 0) broker waiting)
server_task-Sends_example =
    server_task-Sends (λ p. true) (λ p. 100) memory stack (replicate 512 0) broker waiting
      (0xD0 ∷ 0 ∷ []) [] refl refl full_queue-IsValid (omega arith) (omega arith) full_queue-Carries

-- A client that is all zeros but for its address.
abbrev fresh : Client
fresh = record guest {
  address = 9;
  inbound = record { in_buffer = []; message_length = 0; message_length_read = 0 };
  conn_state = tcp_connected;
}

fresh-IsNew : (c : Client) → some fresh ≡ some c → c.inbound.message_length_read ≡ 0
fresh-IsNew c e = ap (λ o. elim o [ none ↦ 0 | some x ↦ x.inbound.message_length_read ]) (sym e)

-- Everybody is refused.
abbrev nobody_else : Option Auth
nobody_else = some (λ user password i pcon. false)

abbrev started : Broker
started = (server_start true true (λ s. s) 2 1 broker).1

abbrev joined : Broker
joined = connected_cb (some fresh) 40000 (λ p q. true) true true started 8

abbrev told : Broker
told = (local_publish (λ p. true) memory joined (b'a' ∷ []) (1 ∷ []) 0 true).1

started_well : (server_start true true (λ s. s) 2 1 broker).0 ≡ true
unfolding server_start TopicList.create create
started_well = refl

-- A client connects, and the local client publishes.
reachable-IsSafe_example : Every (Sound nobody_else) told
reachable-IsSafe_example =
    reachable-IsSafe nobody_else true true (λ s. s) 2 1 broker told started_well
      (more started joined told
        (more started started joined (done started)
          (Step.connects (some fresh) 40000 (λ p q. true) true started 8 fresh-IsNew))
        (Step.publishes (λ p. true) memory joined (b'a' ∷ []) (1 ∷ []) 0 true))

-- An entry whose connection has ended, and was found so before.
abbrev table : Conns
table = some (record { pcon = 5; remote_ip = 1; remote_port = 1; tobedeleted = true }) ∷ none ∷ []

abbrev newcomer : Conn
newcomer = record { pcon = 8; remote_ip = 1; remote_port = 2; tobedeleted = true }

abbrev accept : Accept
accept = record { zalloc = some fresh; free_heap = 40000; agrees = λ p q. true; memory = true }

abbrev wifi : Wifi
wifi = record { available = λ p. if p == 8 then 0xC0 ∷ 0 ∷ [] else []; connected = λ p. p == 8 }

network_loop-Reaches_example :
    Reaches none
      (λ k. outside)
      memory
      wifi
      (some (accept, newcomer))
      none
      table
      broker
      (network_loop (λ k. outside) memory wifi (some (accept, newcomer)) none table broker)
network_loop-Reaches_example =
    network_loop-Reaches none (λ k. outside) memory wifi (λ k. refl) (some (accept, newcomer)) none
      table broker fresh-IsNew tt
