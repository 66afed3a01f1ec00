-- ===== src/Server/Receive/Sound.antt =====
-- src/mqtt_server.cpp, MQTT_ClientCon_recv_cb: the buffers stay within their bounds, and no client
-- is served that was not authorized; the messages of a client that is served.
use u_mqttbroker.Base.{
  ℕ, zero, suc, ◌+◌, ◌≤◌, ◌≡◌, ◌⊎◌, inl, inr, refl, sym, subst, Bool, true, Option, none, some,
  List, [], ◌∷◌, ◌==◌, ltb, leb, length, get_or, take, drop, Bool-cases, Option-cases, c_string,
}
use u_mqttbroker.Msg.{Connection}
use u_mqttbroker.Msg.Read.{get_id, get_type, get_publish_topic, get_retain}
use u_mqttbroker.Msg.Build.{msg_publish, msg_suback, msg_unsuback, msg_pingresp}
use u_mqttbroker.Queue.{Queue}
use u_mqttbroker.Retained.{Slot}
use u_mqttbroker.Retained
use u_mqttbroker.Retained.Image.{str_of}
use u_mqttbroker.Server.{Broker, Client, Inbound, mqtt_data, find_client, mqtt_buf_size}
use u_mqttbroker.Server.Publish.{enqueue, publish_retainedtopic}
use u_mqttbroker.Server.Every.{
  Every, AllClients, AllClients-find, enqueue-Every, publish-Every, disconnect_client_con-Every,
}
use u_mqttbroker.Server.Receive.Connect.{Auth, agrees, adapt}
use u_mqttbroker.Server.Receive.Session.{
  Outside, Received, next, left, hang_up, topic_at, subscribe_loop, max_subs_per_req,
  publish_retained_all, subscribed, subscribe, unsubscribe_loop, unsubscribe, publish_message,
  publish_data, receive_publish, receive_pingreq, receive_disconnect, receive_data,
}

-- The buffer has its size, and what was read is in it.
abbrev pub IsBounded : Inbound → Type 0
IsBounded inb = (length inb.in_buffer ≡ mqtt_buf_size) × (inb.message_length_read ≤ mqtt_buf_size)

-- A client that is served was authorized.
abbrev pub Sound : Option Auth → Client → Type 0
Sound auth c =
    IsBounded c.inbound × (c.conn_state ≡ mqtt_data → agrees auth c.connect_info c.pcon ≡ true)

-- A CONNECT of version 3 rewrites its header, and no other message the buffer.
abbrev pub Rewrites : Inbound → Inbound → Type 0
Rewrites inb inb' =
    (inb' ≡ inb)
    ⊎ ((13 ≤ inb.message_length) × (inb' ≡ record inb { in_buffer = adapt inb.in_buffer }))

-- The broker behind the handling of a message, and the buffer if the handler goes on.
abbrev pub Keeps : Option Auth → Inbound → Received → Type 0
Keeps auth inb (next b inb') = Every (Sound auth) b × Rewrites inb inb'
Keeps auth inb (left b) = Every (Sound auth) b

module _ (auth : Option Auth) where
  keep :
      (c : Client) (conn : Connection) (q : Queue)
      → Sound auth c
      → Sound auth (record c { connection = conn; msg_queue = q })
  keep c conn q p = p

  pub enqueue-Sound :
      (b : Broker) (c : Client) (build : Connection → Connection)
      → Sound auth c
      → Every (Sound auth) b
      → Every (Sound auth) (enqueue b c build).1
  enqueue-Sound b c build p h = enqueue-Every (Sound auth) keep b c build p h

  pub hang_up-Keeps :
      (outside : Outside) (b : Broker) (c : Client) (inb : Inbound)
      → Every (Sound auth) b
      → Keeps auth inb (hang_up outside b c)
  hang_up-Keeps outside b c inb h =
      disconnect_client_con-Every (Sound auth) keep outside.connected outside.memory b c h

  subscribe_loop-list :
      (memory : ℕ → Bool) (inb : Inbound) (a n index : ℕ) (r : List ℕ × List ℕ) (b : Broker)
      → (subscribe_loop memory inb a n index r b).1.clientcon_list ≡ b.clientcon_list
  unfolding subscribe_loop
  subscribe_loop-list memory inb a zero index r b = refl
  subscribe_loop-list memory inb a (suc n) index r b =
      elim (Bool-cases (ltb index inb.message_length)) [
        | inr e ↦ rw (subscribe_loop, e) refl
        | inl e ↦ elim (Option-cases (topic_at inb index)) [
          | inl t ↦ rw (subscribe_loop, e, t) refl
          | inr (t, u) ↦ elim (Bool-cases (leb inb.message_length (index + 2 + t.0))) [
            | inl l ↦ rw (subscribe_loop, e, u, l) refl
            | inr l ↦
                rw (subscribe_loop, e, u, l)
                  (subscribe_loop-list memory inb a n (index + 3 + t.0) _
                    (record b { topic_list = _ }))
          ]
        ]
      ]

  publish_retained_all-Sound :
      (slots : List Slot) (b : Broker) (a : ℕ)
      → Every (Sound auth) b
      → Every (Sound auth) (publish_retained_all b a slots)
  unfolding publish_retained_all publish_retainedtopic
  publish_retained_all-Sound [] b a h = h
  publish_retained_all-Sound (s ∷ slots) b a h =
      elim (Option-cases (find_client a b.clientcon_list)) [
        | inl n ↦ rw (publish_retained_all, n) h
        | inr (c, n) ↦
            rw (publish_retained_all, n)
              (publish_retained_all-Sound slots (publish_retainedtopic b c s).1 a (
                enqueue-Sound b c
                  (λ conn.
                    (msg_publish conn s.topic (take s.data_len (str_of s.content)) s.qos 1).1)
                  (AllClients-find (Sound auth) a b.clientcon_list c n h) h))
      ]

  subscribed-Keeps :
      (outside : Outside) (c : Client) (inb : Inbound) (id : ℕ)
      (r : Option (List ℕ × List ℕ) × Broker)
      → Sound auth c
      → Every (Sound auth) r.1
      → Keeps auth inb (subscribed outside c inb id r)
  subscribed-Keeps outside c inb id (none, b) p h = hang_up-Keeps outside b c inb h
  subscribed-Keeps outside c inb id (some (codes, topic), b) p h =
      let build = λ (conn : Connection). msg_suback conn codes id in
      let b₁ = (enqueue b c build).1 in
      (
        publish_retained_all-Sound (Retained.find b₁.retained topic).0 b₁ c.address
            (enqueue-Sound b c build p h),
        inl refl,
      )

  subscribe-Keeps :
      (outside : Outside) (b : Broker) (c : Client) (inb : Inbound)
      → Sound auth c
      → Every (Sound auth) b
      → Keeps auth inb (subscribe outside b c inb)
  unfolding subscribe
  subscribe-Keeps outside b c inb p h = elim (Bool-cases (ltb inb.message_length 8)) [
    | inl e ↦ rw (subscribe, e) (hang_up-Keeps outside b c inb h)
    | inr e ↦
        let memory = outside.topic_memory in
        let l = subscribe_loop memory inb c.address max_subs_per_req 4 ([], []) b in
        rw (subscribe, e)
          (subscribed-Keeps outside c inb (get_id inb.in_buffer mqtt_buf_size) l p (
            subst (AllClients (Sound auth))
              (sym (subscribe_loop-list memory inb c.address max_subs_per_req 4 ([], []) b)) h))
  ]

  unsubscribe_loop-list :
      (n : ℕ) (inb : Inbound) (a index : ℕ) (b : Broker)
      → (unsubscribe_loop n inb a index b).1.clientcon_list ≡ b.clientcon_list
  unfolding unsubscribe_loop
  unsubscribe_loop-list zero inb a index b = refl
  unsubscribe_loop-list (suc n) inb a index b = elim (Bool-cases (ltb index inb.message_length)) [
    | inr e ↦ rw (unsubscribe_loop, e) refl
    | inl e ↦ elim (Option-cases (topic_at inb index)) [
      | inl t ↦ rw (unsubscribe_loop, e, t) refl
      | inr (t, u) ↦
          rw (unsubscribe_loop, e, u)
            (unsubscribe_loop-list n inb a (index + 2 + t.0) (record b { topic_list = _ }))
    ]
  ]

  unsubscribe-Keeps :
      (outside : Outside) (b : Broker) (c : Client) (inb : Inbound)
      → Sound auth c
      → Every (Sound auth) b
      → Keeps auth inb (unsubscribe outside b c inb)
  unfolding unsubscribe
  unsubscribe-Keeps outside b c inb p h = elim (Bool-cases (ltb inb.message_length 7)) [
    | inl e ↦ rw (unsubscribe, e) (hang_up-Keeps outside b c inb h)
    | inr e ↦
        let l = unsubscribe_loop inb.message_length inb c.address 4 b in
        let h₁ : Every (Sound auth) l.1 =
          subst (AllClients (Sound auth))
            (sym (unsubscribe_loop-list inb.message_length inb c.address 4 b)) h in
        elim (Bool-cases l.0) [
          | inl n ↦
              rw (unsubscribe, e, n)
                (
                  enqueue-Sound l.1 c
                      (λ conn. msg_unsuback conn (get_id inb.in_buffer mqtt_buf_size)) p h₁,
                  inl refl,
                )
          | inr n ↦ rw (unsubscribe, e, n) (hang_up-Keeps outside l.1 c inb h₁)
        ]
  ]

  publish_message-Sound :
      (outside : Outside) (b : Broker) (inb : Inbound) (topic content : List ℕ)
      → Every (Sound auth) b
      → Every (Sound auth) (publish_message outside b inb topic content)
  publish_message-Sound outside b inb topic content h =
      let h₁ = publish-Every (Sound auth) keep b topic content h in
      elim (Bool-cases (get_or topic 0 0 == b'$')) [
        | inl e ↦ rw e h
        | inr e ↦ elim (Bool-cases (get_retain inb.in_buffer == 0)) [
          | inl r ↦ rw (e, r) h₁
          | inr r ↦ rw (e, r) h₁
        ]
      ]

  receive_publish-Keeps :
      (outside : Outside) (b : Broker) (c : Client) (inb : Inbound)
      → Every (Sound auth) b
      → Keeps auth inb (receive_publish outside b c inb)
  unfolding receive_publish
  receive_publish-Keeps outside b c inb h =
      elim (Option-cases (get_publish_topic inb.in_buffer mqtt_buf_size)) [
        | inl n ↦ rw (receive_publish, n) h
        | inr (t, n) ↦
            rw (receive_publish, n)
              (
                publish_message-Sound outside b inb (c_string (take t.1 (drop t.0 inb.in_buffer)))
                    (publish_data inb) h,
                inl refl,
              )
      ]

  pub receive_data-Keeps :
      (outside : Outside) (b : Broker) (c : Client) (inb : Inbound)
      → Sound auth c
      → Every (Sound auth) b
      → Keeps auth inb (receive_data outside b c inb)
  unfolding receive_data receive_pingreq receive_disconnect
  receive_data-Keeps outside b c inb p h =
      let t = get_type inb.in_buffer in
      elim (Bool-cases (t == 8)) [
        | inl e ↦ rw (receive_data, e) (subscribe-Keeps outside b c inb p h)
        | inr e₁ ↦ elim (Bool-cases (t == 10)) [
          | inl e ↦ rw (receive_data, e₁, e) (unsubscribe-Keeps outside b c inb p h)
          | inr e₂ ↦ elim (Bool-cases (t == 3)) [
            | inl e ↦ rw (receive_data, e₁, e₂, e) (receive_publish-Keeps outside b c inb h)
            | inr e₃ ↦ elim (Bool-cases (t == 12)) [
              | inl e ↦
                  rw (receive_data, e₁, e₂, e₃, e) (enqueue-Sound b c msg_pingresp p h, inl refl)
              | inr e₄ ↦ elim (Bool-cases (t == 14)) [
                | inl e ↦ rw (receive_data, e₁, e₂, e₃, e₄, e) (hang_up-Keeps outside b _ inb h)
                | inr e ↦ rw (receive_data, e₁, e₂, e₃, e₄, e) (h, inl refl)
              ]
            ]
          ]
        ]
      ]
