-- ===== src/Server/Every.antt =====
-- src/mqtt_server.cpp: what publishing and the removal of clients keep of every client.
use u_mqttbroker.Base.{
  ℕ, ◌≡◌, inl, inr, refl, subst, Bool, some, List, [], ◌∷◌, arith, ◌==◌, Bool-cases, Option-cases,
}
use u_mqttbroker.Msg.{Connection}
use u_mqttbroker.Msg.Build.{msg_publish}
use u_mqttbroker.Queue.{Queue}
use u_mqttbroker.TopicList.{Entry}
use u_mqttbroker.TopicList
use u_mqttbroker.Retained.{Memory}
use u_mqttbroker.Retained.Image.{str_of}
use u_mqttbroker.Server.{
  Broker, Client, ClientId, no_id, zero_len_id, id, local_mqtt_client, find_client, put_client,
  unlink,
}
use u_mqttbroker.Server.Publish.{
  enqueue, publish_topic, publish_all, publish, next_client, activate_next_client,
}
use u_mqttbroker.Server.Close.{
  publish_will, notify, delete_client_con, disconnect_client_con, client_by_id, delete_client_by_id,
}

-- What each client of a list has.
abbrev pub AllClients : (Client → Type 0) → List Client → Type 0
AllClients P [] = Unit {0}
AllClients P (c ∷ clients) = P c × AllClients P clients

abbrev pub Every : (Client → Type 0) → Broker → Type 0
Every P b = AllClients P b.clientcon_list

module _ (P : Client → Type 0) where
  pub AllClients-put :
      (c : Client) (clients : List Client)
      → P c
      → AllClients P clients
      → AllClients P (put_client c clients)
  AllClients-put c [] p h = tt
  AllClients-put c (d ∷ clients) p h = elim (Bool-cases (d.address == c.address)) [
    | inl e ↦ rw e (p, h.1)
    | inr e ↦ rw e (h.0, AllClients-put c clients p h.1)
  ]

  pub AllClients-find :
      (a : ℕ) (clients : List Client) (c : Client)
      → find_client a clients ≡ some c
      → AllClients P clients
      → P c
  AllClients-find a [] c e h = absurd cc
  AllClients-find a (d ∷ clients) c e h = elim (Bool-cases (d.address == a)) [
    | inl s ↦ let same : d ≡ c = ground (arith, s) in subst P same h.0
    | inr o ↦ AllClients-find a clients c (ground (arith, o)) h.1
  ]

  pub AllClients-unlink :
      (a : ℕ) (clients : List Client) → AllClients P clients → AllClients P (unlink a clients)
  AllClients-unlink a [] h = tt
  AllClients-unlink a (d ∷ clients) h = elim (Bool-cases (d.address == a)) [
    | inl e ↦ rw e h.1
    | inr e ↦ rw e (h.0, AllClients-unlink a clients h.1)
  ]

module _ (P : Client → Type 0)
    (keep : (c : Client) (conn : Connection) (q : Queue)
      → P c
      → P (record c { connection = conn; msg_queue = q })) where
  pub enqueue-Every :
      (b : Broker) (c : Client) (build : Connection → Connection)
      → P c
      → Every P b
      → Every P (enqueue b c build).1
  unfolding enqueue
  enqueue-Every b c build p h =
      AllClients-put P _ b.clientcon_list
        (keep c (build (record c.connection { buffer = b.shared_out_buffer })) _ p) h

  pub publish_topic-Every :
      (b : Broker) (e : Entry) (topic content : List ℕ)
      → Every P b
      → Every P (publish_topic b e topic content).1
  unfolding publish_topic
  publish_topic-Every b e topic content h = elim (Option-cases e.clientcon) [
    | inl n ↦ rw (publish_topic, n) h
    | inr (address, n) ↦ elim (Bool-cases (address == local_mqtt_client)) [
      | inl l ↦ elim (Bool-cases b.local_data_cb) [
        | inl cb ↦ rw (publish_topic, n, l, cb) h
        | inr cb ↦ rw (publish_topic, n, l, cb) h
      ]
      | inr l ↦ elim (Option-cases (find_client address b.clientcon_list)) [
        | inl f ↦ rw (publish_topic, n, l, f) h
        | inr (c, f) ↦
            rw (publish_topic, n, l, f)
              (enqueue-Every b c (λ conn. (msg_publish conn (some topic) content e.qos 0).1)
                (AllClients-find P address b.clientcon_list c f h) h)
      ]
    ]
  ]

  pub publish_all-Every :
      (entries : List Entry) (b : Broker) (topic content : List ℕ)
      → Every P b
      → Every P (publish_all b entries topic content)
  publish_all-Every [] b topic content h = h
  publish_all-Every (e ∷ entries) b topic content h =
      publish_all-Every entries (publish_topic b e topic content).1 topic content
        (publish_topic-Every b e topic content h)

  pub publish-Every :
      (b : Broker) (topic content : List ℕ) → Every P b → Every P (publish b topic content)
  unfolding publish
  publish-Every b topic content h =
      publish_all-Every (TopicList.find b.topic_list topic).0 b topic content h

  pub activate_next_client-Every :
      (connected : ℕ → Bool) (b : Broker) → Every P b → Every P (activate_next_client connected b)
  unfolding activate_next_client
  activate_next_client-Every connected b h =
      elim (Option-cases (next_client connected b.clientcon_list)) [
        | inl n ↦ rw (activate_next_client, n) h
        | inr (c, n) ↦ rw (activate_next_client, n) h
      ]

  publish_will-Every :
      (connected : ℕ → Bool) (memory : Memory) (b : Broker) (c : Client)
      → Every P b
      → Every P (publish_will connected memory b c)
  unfolding publish_will
  publish_will-Every connected memory b c h = elim (Option-cases c.connect_info.will_topic) [
    | inl n ↦ rw (publish_will, n) h
    | inr (topic, n) ↦
        let content = str_of c.connect_info.will_data in
        let h' =
          activate_next_client-Every connected (publish b topic content)
            (publish-Every b topic content h) in
        elim (Bool-cases c.connect_info.will_retain) [
          | inl r ↦ rw (publish_will, n, r) h'
          | inr r ↦ rw (publish_will, n, r) h'
        ]
  ]

  notify-Every : (b : Broker) (c : Client) → Every P b → Every P (notify b c)
  notify-Every b c h = notified c.connect_info.client_id refl
    where
      notified : (i : ClientId) → c.connect_info.client_id ≡ i → Every P (notify b c)
      notified no_id e = rw e h
      notified zero_len_id e = rw e h
      notified (id s) e = elim (Bool-cases b.local_disconnect_cb) [
        | inl l ↦ rw (e, l) h
        | inr l ↦ rw (e, l) h
      ]

  pub delete_client_con-Every :
      (connected : ℕ → Bool) (memory : Memory) (b : Broker) (c : Client)
      → Every P b
      → Every P (delete_client_con connected memory b c)
  unfolding delete_client_con
  delete_client_con-Every connected memory b c h =
      publish_will-Every connected memory _ c
        (notify-Every _ c (AllClients-unlink P c.address b.clientcon_list h))

  pub disconnect_client_con-Every :
      (connected : ℕ → Bool) (memory : Memory) (b : Broker) (c : Client)
      → Every P b
      → Every P (disconnect_client_con connected memory b c)
  unfolding disconnect_client_con
  disconnect_client_con-Every connected memory b c h =
      delete_client_con-Every connected memory _ c h

  pub delete_client_by_id-Every :
      (connected : ℕ → Bool) (memory : Memory) (b : Broker) (s : List ℕ)
      → Every P b
      → Every P (delete_client_by_id connected memory b s).1
  unfolding delete_client_by_id
  delete_client_by_id-Every connected memory b s h =
      elim (Option-cases (client_by_id s b.clientcon_list)) [
        | inl n ↦ rw (delete_client_by_id, n) h
        | inr (c, n) ↦
            rw (delete_client_by_id, n) (disconnect_client_con-Every connected memory b c h)
      ]
