-- ===== src/Server/Sending.antt =====
-- src/mqtt_server.cpp: `MQTT_ServerTask` of a client that is served takes the oldest message of its
-- queue.
use u_mqttbroker.Base.{
  ℕ, ◌≤◌, ◌≡◌, refl, ap, sym, subst, ◌∙◌, Bool, true, false, not, ◌&&◌, ◌==◌, List, ◌∷◌, length,
  if◌then◌else◌, ltb,
}
use u_mqttbroker.Ring.Inv.{IsValid}
use u_mqttbroker.Ring.Refine.{contents}
use u_mqttbroker.Proto.{Parser}
use u_mqttbroker.Queue.{Queue, gets, is_empty}
use u_mqttbroker.Queue.Fifo.{Carries}
use u_mqttbroker.Queue.Oldest.{is_empty-Carries, gets_oldest}
use u_mqttbroker.Msg.Read.{get_type, get_id}
use u_mqttbroker.Retained.{Memory}
use u_mqttbroker.Server.{Broker, Client, mqtt_data, stop, sent, log, put_client, mqtt_buf_size}
use u_mqttbroker.Server.Publish.{activate_next_client}
use u_mqttbroker.Server.Close.{disconnect_client_con}
use u_mqttbroker.Server.Task.{
  is_disconnecting, by_state, sent_cb, send_next, server_task, mqtt_send_timout,
}

-- The client whose message was taken.
abbrev pub taken : Client → Queue → ℕ → ℕ → Client
taken c q type id = record c {
  msg_queue = q;
  pending_msg_type = type;
  pending_msg_id = id;
  send_timeout = mqtt_send_timout;
}

-- The oldest message is taken out; it is written to the connection if there is room for more than
-- its bytes, and lost otherwise.
abbrev pub Sends :
    (ℕ → Bool) → (ℕ → ℕ) → Memory → Broker → Client → List ℕ → List (List ℕ) → Broker → Type 0
Sends connected available memory b c m ms b' =
    (q : Queue) × (type : ℕ) × (id : ℕ) × Carries (contents q.rb) ms
    × (b' ≡ (
        let c' = taken c q type id in
        let b₁ = record b { clientcon_list = put_client c' b.clientcon_list } in
        if ltb (length m) (available c.pcon)
        then sent_cb connected memory (log b₁ (sent c.pcon m)) c'
        else b₁))

task_step :
    (connected : ℕ → Bool) (available : ℕ → ℕ) (memory : Memory) (stack : Parser) (buffer : List ℕ)
    (b : Broker) (c : Client)
    → c.conn_state ≡ mqtt_data
    → c.send_timeout ≡ 0
    → is_empty c.msg_queue ≡ false
    → server_task connected available memory stack buffer b c
      ≡ send_next connected available memory stack buffer b c
unfolding server_task
task_step connected available memory stack buffer b c s z e =
    let wait =
      if is_disconnecting c.conn_state then disconnect_client_con connected memory b c else b in
    let next = λ (ready : Bool).
      if ready then send_next connected available memory stack buffer b c else wait in
    let ready : (not (is_empty c.msg_queue) && (c.send_timeout == 0)) ≡ true = rw (e, z) refl in
    ap
      (λ x.
        by_state x b (activate_next_client connected (log b (stop c.pcon)))
          (next (not (is_empty c.msg_queue) && (c.send_timeout == 0))))
      s
    ∙ ap next ready

-- When a client is served, its last send has ended, and a message of at most 512 bytes is the
-- oldest in its queue, then its task takes the message out, and writes it if the connection has
-- room for more than its bytes; the others stay in the queue.
pub server_task-Sends :
    (connected : ℕ → Bool) (available : ℕ → ℕ) (memory : Memory) (stack : Parser) (buffer : List ℕ)
    (b : Broker) (c : Client) (m : List ℕ) (ms : List (List ℕ))
    → c.conn_state ≡ mqtt_data
    → c.send_timeout ≡ 0
    → IsValid c.msg_queue.rb
    → mqtt_buf_size ≤ length buffer
    → length m ≤ mqtt_buf_size
    → Carries (contents c.msg_queue.rb) (m ∷ ms)
    → Sends connected available memory b c m ms
        (server_task connected available memory stack buffer b c)
unfolding send_next
server_task-Sends connected available memory stack buffer b c m ms s z v h l q =
    let (len, out, rest) = gets_oldest stack c.msg_queue buffer mqtt_buf_size m ms v h l q in
    let e = is_empty-Carries c.msg_queue m ms q in
    let t = gets stack c.msg_queue buffer mqtt_buf_size in
    let c' = taken c t.1 (get_type t.0.buf_out) (get_id t.0.buf_out (length m)) in
    let b₁ = record b { clientcon_list = put_client c' b.clientcon_list } in
    subst (Sends connected available memory b c m ms)
      (sym (task_step connected available memory stack buffer b c s z e))
      (rw (send_next, len)
        (
          t.1,
          get_type t.0.buf_out,
          get_id t.0.buf_out (length m),
          rest,
          ap
              (λ bytes.
                if ltb (length m) (available c.pcon)
                then sent_cb connected memory (log b₁ (sent c.pcon bytes)) c'
                else b₁)
              out,
        ))
