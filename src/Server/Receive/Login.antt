-- ===== src/Server/Receive/Login.antt =====
-- src/mqtt_server.cpp, MQTT_ClientCon_recv_cb: a client is served only behind a CONNECT that was
-- authorized.
use u_mqttbroker.Base.{
  ℕ, ◌+◌, ◌*◌, ◌≡◌, inl, inr, refl, subst, true, Option, some, List, arith, ◌==◌, ltb, drop,
  Bool-cases, Option-cases, c_string,
}
use u_mqttbroker.Msg.Read.{get_type}
use u_mqttbroker.Msg.Build.{refuse_protocol, msg_connack}
use u_mqttbroker.Server.{
  Broker, Client, ConnState, ConnectInfo, ClientId, no_id, zero_len_id, id, Inbound, tcp_connected,
  tcp_disconnect, tcp_disconnecting, mqtt_data, set_timeout, log,
}
use u_mqttbroker.Server.Every.{Every, AllClients-find, delete_client_by_id-Every}
use u_mqttbroker.Server.Receive.{
  conclude, end_session, connect_payload, connect_session, connect, handle,
}
use u_mqttbroker.Server.Receive.Connect.{
  Step, go, refuse, drop_client, and_then, ConnectMemory, Auth, agrees, adapt, is_protocol, mqtt,
  mqisdp, connect_header, set_session, read_client_id, read_will, read_username, read_password,
  check_auth, read_rest,
}
use u_mqttbroker.Server.Receive.Session.{Outside}
use u_mqttbroker.Server.Receive.Sound.{
  IsBounded, Sound, Rewrites, Keeps, enqueue-Sound, hang_up-Keeps, receive_data-Keeps,
}

-- A step that lets a client in was authorized.
abbrev Authorized : Option Auth → ℕ → Step → Type 0
Authorized auth pcon (go info used) = agrees auth info pcon ≡ true
Authorized auth pcon (refuse info code) = Unit {0}
Authorized auth pcon (drop_client info) = Unit {0}

and_then-Authorized :
    (auth : Option Auth) (pcon : ℕ) (s : Step) (k : ConnectInfo → ℕ → Step)
    → ((info : ConnectInfo) (used : ℕ) → Authorized auth pcon (k info used))
    → Authorized auth pcon (and_then s k)
and_then-Authorized auth pcon (go info used) k h = h info used
and_then-Authorized auth pcon (refuse info code) k h = tt
and_then-Authorized auth pcon (drop_client info) k h = tt

check_auth-Authorized :
    (auth : Option Auth) (pcon : ℕ) (info : ConnectInfo) (used : ℕ)
    → Authorized auth pcon (check_auth auth pcon info used)
unfolding check_auth
check_auth-Authorized auth pcon info used = elim (Bool-cases (agrees auth info pcon)) [
  | inl e ↦ rw (check_auth, e) e
  | inr e ↦ rw (check_auth, e) tt
]

read_rest-Authorized :
    (memory : ConnectMemory) (auth : Option Auth) (pcon : ℕ) (inb : Inbound) (info : ConnectInfo)
    (used : ℕ)
    → Authorized auth pcon (read_rest memory auth pcon inb info used)
unfolding read_rest
read_rest-Authorized memory auth pcon inb info used =
    and_then-Authorized auth pcon (read_will memory inb info used) _ λ info used.
      and_then-Authorized auth pcon (read_username memory inb info used) _ λ info used.
        and_then-Authorized auth pcon (read_password memory inb info used) _
          λ info used. check_auth-Authorized auth pcon info used

module _ (outside : Outside) where
  conclude-Keeps :
      (b : Broker) (c : Client) (inb₀ inb : Inbound) (s : Step)
      → Rewrites inb₀ inb
      → IsBounded c.inbound
      → Authorized outside.auth c.pcon s
      → Every (Sound outside.auth) b
      → Keeps outside.auth inb₀ (conclude outside b c inb s)
  conclude-Keeps b c inb₀ inb (go info used) r p a h = (
    enqueue-Sound outside.auth b (record c { connect_info = info; conn_state = mqtt_data }) _
        (p, λ e. a) h,
    r,
  )
  conclude-Keeps b c inb₀ inb (refuse info code) r p a h = (
    enqueue-Sound outside.auth b (record c { connect_info = info; conn_state = tcp_disconnecting })
        _ (p, λ e. absurd cc) h,
    r,
  )
  conclude-Keeps b c inb₀ inb (drop_client info) r p a h =
      hang_up-Keeps outside.auth outside b _ inb₀ h

  -- The broker behind the end of an older session, and the buffer of the client if it is still
  -- there.
  end_session-Every :
      (b : Broker) (c : Client) (inb : Inbound) (info : ConnectInfo) (used : ℕ)
      → IsBounded c.inbound
      → Every (Sound outside.auth) b
      → let r = end_session outside b c inb info used in
        Every (Sound outside.auth) r.1 × ((d : Client) → r.0 ≡ some d → IsBounded d.inbound)
  end_session-Every b c inb info used p h = ended info.client_id refl
    where
      same : (d : Client) → some c ≡ some d → IsBounded d.inbound
      same d e = let e' : c ≡ d = cc in subst (λ d. IsBounded d.inbound) e' p

      ended :
          (i : ClientId)
          → info.client_id ≡ i
          → let r = end_session outside b c inb info used in
            Every (Sound outside.auth) r.1 × ((d : Client) → r.0 ≡ some d → IsBounded d.inbound)
      ended no_id e = rw e (h, same)
      ended zero_len_id e = rw e (h, same)
      ended (id s) e =
          let t = c_string (drop (2 + used + 2) inb.in_buffer) in
          let h₁ =
            delete_client_by_id-Every (Sound outside.auth) (λ c conn q p. p) outside.connected
              outside.memory b t h in
          rw e (h₁, λ d f. (AllClients-find (Sound outside.auth) c.address _ d f h₁).0)

  connect_payload-Keeps :
      (b : Broker) (c : Client) (inb₀ inb : Inbound) (used : ℕ)
      → Rewrites inb₀ inb
      → IsBounded c.inbound
      → Every (Sound outside.auth) b
      → Keeps outside.auth inb₀ (connect_payload outside b c inb used)
  unfolding connect_payload
  connect_payload-Keeps b c inb₀ inb used r p h =
      parsed (read_client_id outside.connect_memory inb c.protocol_version c.connect_info used) refl
    where
      parsed :
          (s : Step)
          → read_client_id outside.connect_memory inb c.protocol_version c.connect_info used ≡ s
          → Keeps outside.auth inb₀ (connect_payload outside b c inb used)
      parsed (refuse info code) e =
          rw (connect_payload, e) (conclude-Keeps b c inb₀ inb (refuse info code) r p tt h)
      parsed (drop_client info) e =
          rw (connect_payload, e) (conclude-Keeps b c inb₀ inb (drop_client info) r p tt h)
      parsed (go info used') e =
          let (h₁, k) = end_session-Every b c inb info used p h in
          let (o, b₁) = end_session outside b c inb info used in
          elim (Option-cases o) [
            | inl n ↦ rw (connect_payload, e, n) h₁
            | inr (d, n) ↦
                rw (connect_payload, e, n)
                  (conclude-Keeps b₁
                    (record d { protocol_version = c.protocol_version; connect_info = info }) inb₀
                    inb (read_rest outside.connect_memory outside.auth d.pcon inb info used') r
                    (k d n)
                    (read_rest-Authorized outside.connect_memory outside.auth d.pcon inb info used')
                    h₁)
          ]

  connect_session-Keeps :
      (b : Broker) (c : Client) (inb : Inbound) (buffer : List ℕ) (version used : ℕ)
      → Rewrites inb (record inb { in_buffer = buffer })
      → IsBounded c.inbound
      → Every (Sound outside.auth) b
      → Keeps outside.auth inb (connect_session outside b c inb (buffer, version, used))
  connect_session-Keeps b c inb buffer version used r p h =
      let info = set_session buffer c.connect_info in
      connect_payload-Keeps (log b (set_timeout c.pcon (2 * info.keepalive)))
        (record c { protocol_version = version; connect_info = info }) inb
        (record inb { in_buffer = buffer }) used r p h

  connect-Keeps :
      (b : Broker) (c : Client) (inb : Inbound)
      → IsBounded c.inbound
      → Every (Sound outside.auth) b
      → Keeps outside.auth inb (connect outside b c inb)
  unfolding connect connect_header
  connect-Keeps b c inb p h = elim (Bool-cases (ltb inb.message_length 13)) [
    | inl e ↦ rw (connect, e) (hang_up-Keeps outside.auth outside b c inb h)
    | inr e ↦ elim (Bool-cases (is_protocol inb.in_buffer mqtt 4)) [
      | inl m ↦
          rw (connect, e, connect_header, m)
            (connect_session-Keeps b c inb inb.in_buffer 4 10 (inl refl) p h)
      | inr m ↦ elim (Bool-cases (is_protocol inb.in_buffer mqisdp 3)) [
        | inl m' ↦
            rw (connect, e, connect_header, m, m')
              (connect_session-Keeps b c inb (adapt inb.in_buffer) 3 12
                (inr (ground (arith, e), refl)) p h)
        | inr m' ↦
            rw (connect, e, connect_header, m, m')
              (
                enqueue-Sound outside.auth b (record c { conn_state = tcp_disconnecting })
                    (λ conn. msg_connack conn refuse_protocol) (p, λ e. absurd cc) h,
                inl refl,
              )
      ]
    ]
  ]

  pub handle-Keeps :
      (b : Broker) (c : Client) (inb : Inbound)
      → Sound outside.auth c
      → Every (Sound outside.auth) b
      → Keeps outside.auth inb (handle outside b c inb)
  unfolding handle
  handle-Keeps b c inb p h = stated c.conn_state refl
    where
      stated : (s : ConnState) → c.conn_state ≡ s → Keeps outside.auth inb (handle outside b c inb)
      stated tcp_connected e = elim (Bool-cases (get_type inb.in_buffer == 1)) [
        | inl t ↦ rw (handle, e, t) (connect-Keeps b c inb p.0 h)
        | inr t ↦ rw (handle, e, t) (hang_up-Keeps outside.auth outside b c inb h)
      ]
      stated tcp_disconnect e = rw (handle, e) (h, inl refl)
      stated tcp_disconnecting e = rw (handle, e) (h, inl refl)
      stated mqtt_data e = rw (handle, e) (receive_data-Keeps outside.auth outside b c inb p h)
