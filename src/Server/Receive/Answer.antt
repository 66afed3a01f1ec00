-- ===== src/Server/Receive/Answer.antt =====
-- src/mqtt_server.cpp, MQTT_ClientCon_recv_cb: the answer to a CONNECT.
use u_mqttbroker.Base.{
  ℕ, ◌≡◌, ◌≢◌, ◌⊎◌, inl, inr, refl, ap, sym, none, some, ltb, Bool-cases, Option-cases, ◌+◌, drop,
  c_string, arith, Option, List, ◌*◌,
}
use u_mqttbroker.Msg.Build.{ConnectReturnCode, accepted, refuse_protocol, msg_connack}
use u_mqttbroker.Server.{
  Broker, Client, log, find_client, set_timeout, wild_access, ConnectInfo, ClientId, ConnState,
  no_id, zero_len_id, id, Inbound, tcp_disconnecting, mqtt_data,
}
use u_mqttbroker.Server.Publish.{enqueue}
use u_mqttbroker.Server.Close.{delete_client_by_id, disconnect_client_con}
use u_mqttbroker.Server.Receive.{conclude, end_session, connect_payload, connect}
use u_mqttbroker.Server.Receive.Steps.{Reads, read_client_id-Reads, read_rest-Reads, refused}
use u_mqttbroker.Server.Receive.Connect.{
  Step, set_session, go, refuse, drop_client, connect_header, read_client_id, read_rest,
}
use u_mqttbroker.Server.Receive.Session.{Outside, Received, next, left}

some_ne_none : (c : Client) → some c ≢ none
some_ne_none c e = cc

abbrev Anywhere : ℕ → Type 0
Anywhere used = Unit {0}

-- The broker when the answer is given: as it was, with the timeout of the connection set, and with
-- the client of an older session deleted.
abbrev pub Before : Outside → Broker → Client → Broker → Type 0
Before outside b c b₁ =
    (b₁ ≡ b)
    ⊎ (((t : ℕ) × (b₁ ≡ log b (set_timeout c.pcon t)))
        ⊎ ((t : ℕ) × (s : List ℕ) × (b₁
              ≡ (delete_client_by_id outside.connected outside.memory (log b (set_timeout c.pcon t))
                  s).1)))

-- The client that called, or the one that is listed at its address, with what the message tells.
abbrev pub IsCaller : Broker → Client → Client → Type 0
IsCaller b c d =
    (x : Client) × (v : ℕ) × (info : ConnectInfo) × ((x ≡ c)
      ⊎ (find_client c.address b.clientcon_list ≡ some x))
    × (d ≡ record x { protocol_version = v; connect_info = info })

-- The handler returns with the client disconnected, or, where it is not listed any more, after an
-- access to a client that is gone; or a CONNACK is queued for the client, whose state is the
-- one of its code.
abbrev pub Answered : Outside → Broker → Client → Received → Type 0
Answered outside b c (left b') =
    (b₁ : Broker) × Before outside b c b₁
    × (((find_client c.address b₁.clientcon_list ≡ none) × (b' ≡ log b₁ (wild_access c.pcon)))
        ⊎ ((d : Client) × IsCaller b₁ c d
            × (b' ≡ disconnect_client_con outside.connected outside.memory b₁ d)))
Answered outside b c (next b' inb) =
    (b₁ : Broker) × Before outside b c b₁
    × (d : Client) × (state : ConnState) × (code : ConnectReturnCode) × IsCaller b₁ c d
    × (b' ≡ (enqueue b₁ (record d { conn_state = state }) λ conn. msg_connack conn code).1)
    × (((code ≡ accepted) × (state ≡ mqtt_data))
        ⊎ ((code ≢ accepted) × (state ≡ tcp_disconnecting)))

conclude-Answered :
    (outside : Outside) (b b₁ : Broker) (c x d : Client) (v : ℕ) (info₁ : ConnectInfo)
    (inb : Inbound) (s : Step)
    → Before outside b c b₁
    → (x ≡ c) ⊎ (find_client c.address b₁.clientcon_list ≡ some x)
    → d ≡ record x { protocol_version = v; connect_info = info₁ }
    → Reads Anywhere s
    → Answered outside b c (conclude outside b₁ d inb s)
conclude-Answered outside b b₁ c x d v info₁ inb (go info used) h a e r = (
  b₁,
  h,
  record d { connect_info = info },
  mqtt_data,
  accepted,
  (x, v, info, a, ap {A = Client} (λ y. record y { connect_info = info }) e),
  refl,
  inl (refl, refl),
)
conclude-Answered outside b b₁ c x d v info₁ inb (refuse info code) h a e r = (
  b₁,
  h,
  record d { connect_info = info },
  tcp_disconnecting,
  code,
  (x, v, info, a, ap {A = Client} (λ y. record y { connect_info = info }) e),
  refl,
  inr (r, refl),
)
conclude-Answered outside b b₁ c x d v info₁ inb (drop_client info) h a e r = (
  b₁,
  h,
  inr (
    record d { connect_info = info },
    (x, v, info, a, ap {A = Client} (λ y. record y { connect_info = info }) e),
    refl,
  ),
)

-- Nothing was ended, or the client is the one at its address, if it is still there.
abbrev Ended : Outside → Broker → Client → Option Client × Broker → Type 0
Ended outside b c r =
    ((r.0 ≡ some c) × (r.1 ≡ b))
    ⊎ ((s : List ℕ) × (r.0 ≡ find_client c.address r.1.clientcon_list)
        × (r.1 ≡ (delete_client_by_id outside.connected outside.memory b s).1))

end_session-Ended :
    (outside : Outside) (b : Broker) (c : Client) (inb : Inbound) (info : ConnectInfo) (used : ℕ)
    → Ended outside b c (end_session outside b c inb info used)
end_session-Ended outside b c inb info used = named info.client_id refl
  where
    named :
        (i : ClientId)
        → info.client_id ≡ i
        → Ended outside b c (end_session outside b c inb info used)
    named no_id e = rw (e) (inl (refl, refl))
    named zero_len_id e = rw (e) (inl (refl, refl))
    named (id s) e = rw (e) (inr (c_string (drop (2 + used + 2) inb.in_buffer), refl, refl))

module _ (outside : Outside) (b : Broker) (c : Client) (t v : ℕ) (info₀ : ConnectInfo) where
  abbrev timed : Broker
  timed = log b (set_timeout c.pcon t)

  abbrev told : Client
  told = record c { protocol_version = v; connect_info = info₀ }

  -- What is read behind the client id, whether an older session was ended or not.
  rest-Answered :
      (inb : Inbound) (info : ConnectInfo) (used : ℕ) (r : Option Client × Broker)
      → Ended outside timed told r
      → Answered outside b c (elim r.0 [
        | none ↦ left (log r.1 (wild_access c.pcon))
        | some d ↦
            conclude outside r.1
              (record d { protocol_version = v; connect_info = info })
              inb
              (read_rest outside.connect_memory outside.auth d.pcon inb info used)
      ])
  rest-Answered inb info used (none, b₁) (inl (n, e)) = absurd (some_ne_none told (sym n))
  rest-Answered inb info used (none, b₁) (inr (s, n, e)) =
      (b₁, inr (inr (t, s, e)), inl (sym n, refl))
  rest-Answered inb info used (some d, b₁) (inl (n, e)) =
      conclude-Answered outside b b₁ c c (record d { protocol_version = v; connect_info = info }) v
        info inb (read_rest outside.connect_memory outside.auth d.pcon inb info used)
        (inr (inl (t, e))) (inl refl)
        (ap
          (λ o. elim o [
            | none ↦ record d { protocol_version = v; connect_info = info }
            | some x ↦ record x { protocol_version = v; connect_info = info }
          ])
          n)
        (read_rest-Reads Anywhere inb (λ used s h n. tt) outside.connect_memory outside.auth d.pcon
          info used tt)
  rest-Answered inb info used (some d, b₁) (inr (s, n, e)) =
      conclude-Answered outside b b₁ c d (record d { protocol_version = v; connect_info = info }) v
        info inb (read_rest outside.connect_memory outside.auth d.pcon inb info used)
        (inr (inr (t, s, e))) (inr (sym n)) refl
        (read_rest-Reads Anywhere inb (λ used s h n. tt) outside.connect_memory outside.auth d.pcon
          info used tt)

  connect_payload-Answered :
      (inb : Inbound) (used : ℕ)
      → Answered outside b c (connect_payload outside timed told inb used)
  unfolding connect_payload
  connect_payload-Answered inb used =
      parsed (read_client_id outside.connect_memory inb v info₀ used) refl (
        read_client_id-Reads Anywhere inb (λ used s h n. tt) outside.connect_memory v info₀ used tt)
    where
      parsed :
          (s : Step)
          → read_client_id outside.connect_memory inb v info₀ used ≡ s
          → Reads Anywhere s
          → Answered outside b c (connect_payload outside timed told inb used)
      parsed (refuse info code) e r =
          rw (connect_payload, e)
            (conclude-Answered outside b timed c c told v info₀ inb (refuse info code)
              (inr (inl (t, refl))) (inl refl) refl r)
      parsed (drop_client info) e r =
          rw (connect_payload, e)
            (conclude-Answered outside b timed c c told v info₀ inb (drop_client info)
              (inr (inl (t, refl))) (inl refl) refl r)
      parsed (go info used') e r =
          rw (connect_payload, e)
            (rest-Answered inb info used' (end_session outside timed told inb info used)
              (end_session-Ended outside timed told inb info used))

-- On every branch, a CONNECT is answered on a broker that is as it was, or has the timeout set for
-- the connection, or has besides the client of an older session deleted. Either the handler
-- returns: the client is disconnected, or no client is listed at its address any more and memory
-- that is gone is accessed. Or a CONNACK is queued for the client: with the code for success, and
-- the client is served; or with another, and it is about to be disconnected.
pub connect-Answered :
    (outside : Outside) (c : Client) (b : Broker) (inb : Inbound)
    → Answered outside b c (connect outside b c inb)
unfolding connect
connect-Answered outside c b inb = elim (Bool-cases (ltb inb.message_length 13)) [
  | inl e ↦
      rw (connect, e)
        (b, inl refl, inr (c, (c, c.protocol_version, c.connect_info, inl refl, refl), refl))
  | inr e ↦ elim (Option-cases (connect_header inb.in_buffer)) [
    | inl n ↦
        rw (connect, e, n)
          (
            b,
            inl refl,
            c,
            tcp_disconnecting,
            refuse_protocol,
            (c, c.protocol_version, c.connect_info, inl refl, refl),
            refl,
            inr (refused refuse_protocol (omega arith), refl),
          )
    | inr (h, n) ↦
        rw (connect, e, n)
          (connect_payload-Answered outside b c (2 * (set_session h.0 c.connect_info).keepalive) h.1
            (set_session h.0 c.connect_info) (record inb { in_buffer = h.0 }) h.2)
  ]
]
