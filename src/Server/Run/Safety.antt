-- ===== src/Server/Run/Safety.antt =====
-- src/mqtt_server.cpp: the buffers stay within their bounds and no client is served that was not
-- authorized, through every step of the broker.
use u_mqttbroker.Base.{
  ℕ, ◌-◌, ◌≡◌, inl, inr, refl, subst, Bool, true, false, not, ◌&&◌, Option, none, some, List, [],
  ◌∷◌, ◌++◌, arith, if◌then◌else◌, ◌==◌, ltb, take, length-replicate, Option-cases,
}
use u_mqttbroker.Proto.{Parser}
use u_mqttbroker.Msg.{Connection}
use u_mqttbroker.Msg.Read.{get_type, get_id}
use u_mqttbroker.Queue.{Queue, gets, is_empty}
use u_mqttbroker.TopicList
use u_mqttbroker.Retained.{Memory, Store}
use u_mqttbroker.Retained
use u_mqttbroker.Server.{
  Broker, Client, ConnState, tcp_connected, tcp_disconnect, tcp_disconnecting, mqtt_data, Reverse,
  nobody, dummy, client, stop, sent, log, find_client, put_client, init_client_con, mqtt_buf_size,
}
use u_mqttbroker.Server.Publish.{
  activate_next_client, publish, retain, local_publish, local_subscribe, local_unsubscribe,
}
use u_mqttbroker.Server.Close.{
  server_timer, discon_cb, cleanup_loop, cleanup_client_cons, disconnect_client_con,
}
use u_mqttbroker.Server.Task.{
  is_disconnecting, by_state, mqtt_send_timout, sent_cb, admit, connected_cb, send_next,
  server_task, dummy_task,
}
use u_mqttbroker.Server.Every.{
  Every, AllClients-find, AllClients-put, publish-Every, activate_next_client-Every,
  delete_client_con-Every, disconnect_client_con-Every,
}
use u_mqttbroker.Server.Receive.Connect.{Auth}
use u_mqttbroker.Server.Receive.Sound.{Sound}
use u_mqttbroker.Server.Receive.Bounds.{Leaving, recv_cb-Sound}
use u_mqttbroker.Server.Run.{
  Step, receives, connects, rejects, disconnects, ticks, sends, closes, cleans, publishes,
  subscribes, unsubscribes, Run, done, more, server_start,
}

module _ (auth : Option Auth) where
  abbrev IsSafe : Broker → Type 0
  IsSafe b = Every (Sound auth) b

  keep :
      (c : Client) (conn : Connection) (q : Queue)
      → Sound auth c
      → Sound auth (record c { connection = conn; msg_queue = q })
  keep c conn q p = p

  IsSafe-if : (b : Bool) (x y : Broker) → IsSafe x → IsSafe y → IsSafe (if b then x else y)
  IsSafe-if true x y p q = p
  IsSafe-if false x y p q = q

  by_state-IsSafe :
      (s : ConnState) (b stopped next : Broker)
      → IsSafe b
      → IsSafe stopped
      → IsSafe next
      → IsSafe (by_state s b stopped next)
  by_state-IsSafe tcp_connected b stopped next h k l = h
  by_state-IsSafe tcp_disconnect b stopped next h k l = k
  by_state-IsSafe tcp_disconnecting b stopped next h k l = l
  by_state-IsSafe mqtt_data b stopped next h k l = l

  timer-IsSafe :
      (connected : ℕ → Bool) (memory : Memory) (b : Broker) (c : Client)
      → Sound auth c
      → IsSafe b
      → IsSafe (server_timer connected memory b c)
  unfolding server_timer
  timer-IsSafe connected memory b c p h =
      let c' = record c { send_timeout = c.send_timeout - 1 } in
      IsSafe-if (ltb 0 c.connection_timeout) _ _
        (AllClients-put (Sound auth) (record c' { connection_timeout = c.connection_timeout - 1 })
          b.clientcon_list p h)
        (disconnect_client_con-Every (Sound auth) keep connected memory
          (record b { clientcon_list = put_client c' b.clientcon_list }) c'
          (AllClients-put (Sound auth) c' b.clientcon_list p h))

  sent_cb-IsSafe :
      (connected : ℕ → Bool) (memory : Memory) (b : Broker) (c : Client)
      → Sound auth c
      → IsSafe b
      → IsSafe (sent_cb connected memory b c)
  unfolding sent_cb
  sent_cb-IsSafe connected memory b c p h =
      let c' = record c { send_timeout = 0 } in
      let b₁ = record b { clientcon_list = put_client c' b.clientcon_list } in
      let h₁ = AllClients-put (Sound auth) c' b.clientcon_list p h in
      activate_next_client-Every (Sound auth) keep connected _ (
        IsSafe-if (is_disconnecting c.conn_state) _ b₁
          (disconnect_client_con-Every (Sound auth) keep connected memory b₁ c' h₁) h₁)

  module _ (connected : ℕ → Bool) (available : ℕ → ℕ) (memory : Memory) (stack : Parser)
      (buffer : List ℕ) (b : Broker) (c : Client) (p : Sound auth c) (h : IsSafe b) where
    send_next-IsSafe : IsSafe (send_next connected available memory stack buffer b c)
    unfolding send_next
    send_next-IsSafe =
        let (t, q) = gets stack c.msg_queue buffer mqtt_buf_size in
        let c₁ = record c { msg_queue = q } in
        let b₁ = record b { clientcon_list = put_client c₁ b.clientcon_list } in
        let h₁ = AllClients-put (Sound auth) c₁ b.clientcon_list p h in
        elim (Option-cases t.len) [
          | inl n ↦
              rw (send_next, n)
                (IsSafe-if (is_disconnecting c.conn_state) _ b₁
                  (disconnect_client_con-Every (Sound auth) keep connected memory b₁ c₁ h₁) h₁)
          | inr (n, e) ↦
              let c₂ = record c₁ {
                pending_msg_type = get_type t.buf_out;
                pending_msg_id = get_id t.buf_out n;
                send_timeout = mqtt_send_timout;
              } in
              let b₂ = record b { clientcon_list = put_client c₂ b.clientcon_list } in
              let h₂ = AllClients-put (Sound auth) c₂ b.clientcon_list p h in
              rw (send_next, e)
                (IsSafe-if (ltb n (available c.pcon)) _ b₂
                  (sent_cb-IsSafe connected memory (log b₂ (sent c.pcon (take n t.buf_out))) c₂ p
                    h₂)
                  h₂)
        ]

    server_task-IsSafe : IsSafe (server_task connected available memory stack buffer b c)
    unfolding server_task
    server_task-IsSafe =
        let wait =
          if is_disconnecting c.conn_state then disconnect_client_con connected memory b c else b in
        by_state-IsSafe c.conn_state b (activate_next_client connected (log b (stop c.pcon))) _ h
          (activate_next_client-Every (Sound auth) keep connected (log b (stop c.pcon)) h)
          (IsSafe-if (not (is_empty c.msg_queue) && (c.send_timeout == 0)) _ wait send_next-IsSafe (
            IsSafe-if (is_disconnecting c.conn_state) _ b
              (disconnect_client_con-Every (Sound auth) keep connected memory b c h) h))

  task-IsSafe :
      (connected : ℕ → Bool) (available : ℕ → ℕ) (memory : Memory) (stack : Parser)
      (buffer : List ℕ) (b : Broker) (c : Client)
      → c.conn_state ≡ tcp_disconnect
      → IsSafe b
      → IsSafe (server_task connected available memory stack buffer b c)
  unfolding server_task
  task-IsSafe connected available memory stack buffer b c e h =
      rw (server_task, e)
        (activate_next_client-Every (Sound auth) keep connected (log b (stop c.pcon)) h)

  dummy_task-IsSafe :
      (connected : ℕ → Bool) (b : Broker) → IsSafe b → IsSafe (dummy_task connected b)
  unfolding dummy_task
  dummy_task-IsSafe connected b h = elim (Option-cases b.dummy_pcon) [
    | inl n ↦ rw (dummy_task, n) (activate_next_client-Every (Sound auth) keep connected b h)
    | inr (p, n) ↦
        rw (dummy_task, n)
          (activate_next_client-Every (Sound auth) keep connected (log b (stop p)) h)
  ]

  init_client_con-IsSafe :
      (memory : Bool) (b : Broker) (c : Client)
      → c.inbound.message_length_read ≡ 0
      → IsSafe b
      → IsSafe (init_client_con true memory b c)
  unfolding init_client_con
  init_client_con-IsSafe memory b c z h =
      (((length-replicate {A = ℕ} mqtt_buf_size 0, omega (arith, z)), λ e. absurd cc), h)

  admit-IsSafe :
      (refuses memory : Bool) (b : Broker) (c : Client)
      → c.inbound.message_length_read ≡ 0
      → IsSafe b
      → IsSafe (admit refuses true memory b c)
  admit-IsSafe true memory b c z h = h
  admit-IsSafe false memory b c z h =
      init_client_con-IsSafe memory b (record c { connection_timeout = 40 }) z h

  connected_cb-IsSafe :
      (zalloc : Option Client) (free_heap : ℕ) (agrees : ℕ → ℕ → Bool) (memory : Bool) (b : Broker)
      (pcon : ℕ)
      → ((c : Client) → zalloc ≡ some c → c.inbound.message_length_read ≡ 0)
      → IsSafe b
      → IsSafe (connected_cb zalloc free_heap agrees true memory b pcon)
  unfolding connected_cb
  connected_cb-IsSafe none free_heap agrees memory b pcon z h = h
  connected_cb-IsSafe (some c) free_heap agrees memory b pcon z h =
      admit-IsSafe _ memory _ (record c { pcon = pcon }) (z c refl) h

  cleanup_loop-IsSafe :
      (connected : ℕ → Bool) (memory : Memory) (clients : List Client) (b : Broker)
      → IsSafe b
      → IsSafe (cleanup_loop connected memory b clients)
  cleanup_loop-IsSafe connected memory [] b h = h
  cleanup_loop-IsSafe connected memory (c ∷ clients) b h =
      elim (Option-cases (find_client c.address b.clientcon_list)) [
        | inl n ↦ rw (cleanup_loop, n) (cleanup_loop-IsSafe connected memory clients b h)
        | inr (d, n) ↦
            rw (cleanup_loop, n)
              (cleanup_loop-IsSafe connected memory clients _ (
                IsSafe-if (connected d.pcon) b _ h
                  (delete_client_con-Every (Sound auth) keep connected memory b d h)))
      ]

  discon_cb-IsSafe :
      (connected : ℕ → Bool) (memory : Memory) (b : Broker) (pcon : ℕ)
      → IsSafe b
      → IsSafe (discon_cb connected memory b pcon)
  unfolding discon_cb
  discon_cb-IsSafe connected memory b pcon h = named (b.reverse pcon) refl
    where
      named : (r : Reverse) → b.reverse pcon ≡ r → IsSafe (discon_cb connected memory b pcon)
      named nobody e = rw (discon_cb, e) h
      named dummy e = rw (discon_cb, e) h
      named (client a) e = elim (Option-cases (find_client a (b.clientcon_list ++ b.aside))) [
        | inl n ↦ rw (discon_cb, e, n) h
        | inr (c, n) ↦
            rw (discon_cb, e, n) (delete_client_con-Every (Sound auth) keep connected memory b c h)
      ]

  local_publish-IsSafe :
      (connected : ℕ → Bool) (memory : Memory) (b : Broker) (topic content : List ℕ) (qos : ℕ)
      (retained : Bool)
      → IsSafe b
      → IsSafe (local_publish connected memory b topic content qos retained).1
  unfolding local_publish
  local_publish-IsSafe connected memory b topic content qos retained h =
      let b₁ = publish b topic content in
      let h₁ = publish-Every (Sound auth) keep b topic content h in
      activate_next_client-Every (Sound auth) keep connected _
        (IsSafe-if retained (retain memory b₁ topic content qos) b₁ h₁ h₁)

  pub step-IsSafe : (b b' : Broker) → Step auth b b' → IsSafe b → IsSafe b'
  unfolding local_subscribe local_unsubscribe cleanup_client_cons
  step-IsSafe b b' (receives fuel outside _ _ pcon pdata same e) h =
      subst (Leaving (Every (Sound auth))) e (recv_cb-Sound outside auth same fuel b pcon pdata h)
  step-IsSafe b b' (connects zalloc free_heap agrees memory _ pcon z) h =
      connected_cb-IsSafe zalloc free_heap agrees memory b pcon z h
  step-IsSafe b b' (rejects _ pcon) h = h
  step-IsSafe b b' (disconnects connected memory _ pcon) h =
      discon_cb-IsSafe connected memory b pcon h
  step-IsSafe b b' (ticks connected memory _ a c e) h =
      timer-IsSafe connected memory b c (AllClients-find (Sound auth) a b.clientcon_list c e h) h
  step-IsSafe b b' (sends connected available memory stack buffer _ a c (inl e)) h =
      server_task-IsSafe connected available memory stack buffer b c
        (AllClients-find (Sound auth) a b.clientcon_list c e h) h
  step-IsSafe b b' (sends connected available memory stack buffer _ a c (inr e)) h =
      task-IsSafe connected available memory stack buffer b c e h
  step-IsSafe b b' (closes connected _) h = dummy_task-IsSafe connected b h
  step-IsSafe b b' (cleans connected memory _) h =
      cleanup_loop-IsSafe connected memory b.clientcon_list b h
  step-IsSafe b b' (publishes connected memory _ topic content qos retained) h =
      local_publish-IsSafe connected memory b topic content qos retained h
  step-IsSafe b b' (subscribes memory _ topic qos) h = h
  step-IsSafe b b' (unsubscribes _ topic) h = h

  pub run-IsSafe : (b b' : Broker) → Run auth b b' → IsSafe b → IsSafe b'
  run-IsSafe b b' (done _) h = h
  run-IsSafe b b' (more _ b₁ _ r s) h = step-IsSafe b₁ b' s (run-IsSafe b b₁ r h)

  started :
      (topic_memory retained_memory : Bool) (load : Store → Store) (m n : ℕ) (b₀ : Broker)
      → (server_start topic_memory retained_memory load m n b₀).0 ≡ true
      → IsSafe (server_start topic_memory retained_memory load m n b₀).1
  unfolding server_start TopicList.create Retained.create
  started true true load m n b₀ e = tt
  started true false load m n b₀ e = absurd cc
  started false retained_memory load m n b₀ e = absurd cc

  -- In every state that the broker reaches from a start that succeeds, by any steps of its
  -- handlers, its timer, its task and the local client, the receive buffer of each listed client
  -- has its size with what was read inside it, and each client in the state of being served was
  -- authorized: the callback, where one is set, said yes to its name, password and id.
  pub reachable-IsSafe :
      (topic_memory retained_memory : Bool) (load : Store → Store) (m n : ℕ) (b₀ b : Broker)
      → (server_start topic_memory retained_memory load m n b₀).0 ≡ true
      → Run auth (server_start topic_memory retained_memory load m n b₀).1 b
      → Every (Sound auth) b
  reachable-IsSafe topic_memory retained_memory load m n b₀ b e r =
      run-IsSafe (server_start topic_memory retained_memory load m n b₀).1 b r
        (started topic_memory retained_memory load m n b₀ e)
