-- ===== src/Server/Network/Steps.antt =====
-- src/mqtt_server.cpp, MQTT_network_loop: what a round does to the table and to the broker.
use u_mqttbroker.Base.{
  ℕ, ◌≤◌, ◌<◌, ◌≡◌, inl, inr, refl, sym, ap, ap₂, subst, true, false, Option, none, some, [], ◌∷◌,
  arith, ltb, length, Bool-cases, Option-cases,
}
use u_mqttbroker.Retained.{Memory}
use u_mqttbroker.Server.{Broker, mqtt_buf_size}
use u_mqttbroker.Server.Close.{discon_cb}
use u_mqttbroker.Server.Receive.{recv_cb}
use u_mqttbroker.Server.Receive.Connect.{Auth}
use u_mqttbroker.Server.Receive.Session.{Outside}
use u_mqttbroker.Server.Run.{receives, disconnects, Run, done, more}
use u_mqttbroker.Server.Network.{
  Conn, Conns, Accept, Wifi, Outcome, finished, overrun, unfinished, serve, clients_loop, accept,
  network_loop,
}
use u_mqttbroker.Server.Network.Accepting.{IsNew, once, accept-Accepted}
use u_mqttbroker.Server.Network.Visits.{
  IsReadable, aged, Visits, behind, free, reads, ends, waits, Stands, Visited, Reaches,
}

Run-trans :
    (auth : Option Auth) (b b' b'' : Broker) → Run auth b b' → Run auth b' b'' → Run auth b b''
Run-trans auth b b' b'' r (done _) = r
Run-trans auth b b' b'' r (more _ c _ s t) = more b c b'' (Run-trans auth b b' c r s) t

module _ (auth : Option Auth) (outside : ℕ → Outside) (memory : Memory) (wifi : Wifi)
    (same : (k : ℕ) → (outside k).auth ≡ auth) where
  -- One entry's turn, in front of the visits to those behind it.
  abbrev Turn : Broker → Conn → Outcome (Option Conn × Broker) → Type 0
  Turn b c (finished s) =
      (s.0 ≡ aged wifi (some c))
      × Run auth b s.1
      × ((conns : Conns) (b' : Broker)
          → Visits outside memory wifi conns s.1 b'
          → Visits outside memory wifi (some c ∷ conns) b b')
  Turn b c overrun = mqtt_buf_size < length (wifi.available c.pcon)
  Turn b c unfinished =
      IsReadable wifi c
      × (length (wifi.available c.pcon) ≤ mqtt_buf_size)
      × (recv_cb 513 outside b c.pcon (wifi.available c.pcon) ≡ none)

  serve-Turn : (b : Broker) (c : Conn) → Turn b c (serve outside memory wifi b c)
  unfolding serve
  serve-Turn b c =
      let bytes = wifi.available c.pcon in
      elim (Bool-cases (ltb 1 (length bytes))) [
        | inl l ↦
            let readable : 2 ≤ length bytes = ground (arith, l) in
            elim (Bool-cases (ltb mqtt_buf_size (length bytes))) [
              | inl o ↦ rw (serve, l, o) (ground (arith, o))
              | inr o ↦
                  let fits : length bytes ≤ mqtt_buf_size = ground (arith, o) in
                  elim (Option-cases (recv_cb 513 outside b c.pcon bytes)) [
                    | inl n ↦ rw (serve, l, o, n) (readable, fits, n)
                    | inr (b', n) ↦
                        rw (serve, l, o, n)
                          (
                            rw l refl,
                            once auth b b' (receives 513 outside b b' c.pcon bytes same n),
                            λ conns b''. reads c conns b b' b'' readable fits n,
                          )
                  ]
            ]
        | inr l ↦
            let short : length bytes < 2 = ground (arith, l) in
            elim (Bool-cases (wifi.connected c.pcon)) [
              | inl o ↦
                  rw (serve, l, o)
                    (rw (l, o) refl, done b, λ conns b'. waits c conns b b' short (inl o))
              | inr o ↦ elim (Bool-cases c.tobedeleted) [
                | inl t ↦ subst (Turn b c) (sym (ended l o t)) (
                  rw (l, o, t) refl,
                  once auth b _ (disconnects wifi.connected memory b c.pcon),
                  λ conns b'. ends c conns b b' (short, o) t,
                )
                | inr t ↦
                    subst (Turn b c) (sym (marked l o t))
                      (rw (l, o, t) refl, done b, λ conns b'. waits c conns b b' short (inr t))
              ]
            ]
      ]
    where
      ended :
          ltb 1 (length (wifi.available c.pcon)) ≡ false
          → wifi.connected c.pcon ≡ false
          → c.tobedeleted ≡ true
          → serve outside memory wifi b c
            ≡ finished (none, discon_cb wifi.connected memory b c.pcon)
      ended l o t = rw (serve, l, o, t) refl

      marked :
          ltb 1 (length (wifi.available c.pcon)) ≡ false
          → wifi.connected c.pcon ≡ false
          → c.tobedeleted ≡ false
          → serve outside memory wifi b c ≡ finished (some (record c { tobedeleted = true }), b)
      marked l o t = rw (serve, l, o, t) refl

  Stands-behind :
      (e : Option Conn) (conns : Conns) (b b₁ b' : Broker) (c : Conn)
      → Run auth b b₁
      → ((conns : Conns) (b' : Broker)
          → Visits outside memory wifi conns b₁ b'
          → Visits outside memory wifi (e ∷ conns) b b')
      → Stands auth outside memory wifi conns b₁ c b'
      → Stands auth outside memory wifi (e ∷ conns) b c b'
  Stands-behind e conns b b₁ b' c r f (before, after, p, v, t) =
      (e ∷ before, after, ap (λ x. e ∷ x) p, f before b' v, Run-trans auth b b₁ b' r t)

  -- The outcome for a table, from the one for the entries behind its first.
  behind-Visited :
      (e e' : Option Conn) (conns : Conns) (b b₁ : Broker) (o : Outcome (Conns × Broker))
      → e' ≡ aged wifi e
      → Run auth b b₁
      → ((conns : Conns) (b' : Broker)
          → Visits outside memory wifi conns b₁ b'
          → Visits outside memory wifi (e ∷ conns) b b')
      → Visited auth outside memory wifi conns b₁ o
      → Visited auth outside memory wifi (e ∷ conns) b (elim o [
        | finished r ↦ finished (e' ∷ r.0, r.1)
        | overrun ↦ overrun
        | unfinished ↦ unfinished
      ])
  behind-Visited e e' conns b b₁ (finished r) a t f (m, v, t') =
      (ap₂ ◌∷◌ a m, f conns r.1 v, Run-trans auth b b₁ r.1 t t')
  behind-Visited e e' conns b b₁ overrun a t f (c, b', s, l) =
      (c, b', Stands-behind e conns b b₁ b' c t f s, l)
  behind-Visited e e' conns b b₁ unfinished a t f (c, b', s, h, l, n) =
      (c, b', Stands-behind e conns b b₁ b' c t f s, h, l, n)

  turned :
      (c : Conn) (conns : Conns) (b : Broker) (o : Outcome (Option Conn × Broker))
      → ((b' : Broker)
          → Visited auth outside memory wifi conns b' (clients_loop outside memory wifi conns b'))
      → serve outside memory wifi b c ≡ o
      → Turn b c o
      → Visited auth outside memory wifi
          (some c ∷ conns)
          b
          (clients_loop outside memory wifi (some c ∷ conns) b)
  unfolding clients_loop
  turned c conns b (finished s) h e (a, t, f) =
      rw (clients_loop, e)
        (behind-Visited (some c) s.0 conns b s.1 (clients_loop outside memory wifi conns s.1) a t f
          (h s.1))
  turned c conns b overrun h e l =
      rw (clients_loop, e) (c, b, ([], conns, refl, behind b, done b), l)
  turned c conns b unfinished h e (l, m, n) =
      rw (clients_loop, e) (c, b, ([], conns, refl, behind b, done b), l, m, n)

  clients_loop-Visited :
      (conns : Conns) (b : Broker)
      → Visited auth outside memory wifi conns b (clients_loop outside memory wifi conns b)
  unfolding clients_loop
  clients_loop-Visited [] b = (refl, behind b, done b)
  clients_loop-Visited (none ∷ conns) b =
      behind-Visited none none conns b b (clients_loop outside memory wifi conns b) refl (done b)
        (λ conns b'. free conns b b') (clients_loop-Visited conns b)
  clients_loop-Visited (some c ∷ conns) b =
      turned c conns b (serve outside memory wifi b c) (clients_loop-Visited conns) refl
        (serve-Turn b c)

  -- Where new clients are all zeros: a round of the loop over the network connections first accepts
  -- the connections of the two servers: one of a known peer changes nothing, another is stopped if
  -- the table is full, and else gets the first free entry and a client. Then, if the round ends,
  -- each entry whose connection has ended with nothing to read is marked, or freed if it was
  -- marked, the others are kept, and the broker went, in the order of the table, through the
  -- handler for the bytes that were there, for each entry with two or more, and the one for the end
  -- of the connection, for each entry that was freed. If it does not end, the entries before one
  -- were visited so, and that one has more than 512 bytes, or the handler for its bytes does not
  -- end within 513 rounds. All that is a run of steps of the broker.
  pub network_loop-Reaches :
      (new secure : Option (Accept × Conn)) (conns : Conns) (b : Broker)
      → IsNew new
      → IsNew secure
      → Reaches auth outside memory wifi new secure conns b
          (network_loop outside memory wifi new secure conns b)
  unfolding network_loop
  network_loop-Reaches new secure conns b z z' =
      let r₁ = accept new conns b in
      let r₂ = accept secure r₁.0 r₁.1 in
      let (a, t) = accept-Accepted auth new conns b z in
      let (a', t') = accept-Accepted auth secure r₁.0 r₁.1 z' in
      (r₁, r₂, a, a', Run-trans auth b r₁.1 r₂.1 t t', clients_loop-Visited r₂.0 r₂.1)
