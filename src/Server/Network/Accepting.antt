-- ===== src/Server/Network/Accepting.antt =====
-- src/mqtt_server.cpp, Network_server_loop: what becomes of a new connection.
use u_mqttbroker.Base.{
  ℕ, suc, ◌≡◌, ◌≢◌, ◌⊎◌, inl, inr, refl, ap, subst, true, false, Option, none, some, [], ◌∷◌, ◌++◌,
  arith, Bool-cases, Option-cases,
}
use u_mqttbroker.Server.{Broker, Client, stop, log}
use u_mqttbroker.Server.Task.{connected_cb}
use u_mqttbroker.Server.Receive.Connect.{Auth}
use u_mqttbroker.Server.Run.{Step, connects, rejects, Run, done, more}
use u_mqttbroker.Server.Network.{
  Conn, Conns, Accept, is_peer, index_loop, put_conn, get_client_id, add_new_client, server_loop,
  accept,
}

-- A new client is all zeros.
abbrev pub IsNew : Option (Accept × Conn) → Type 0
IsNew none = Unit {0}
IsNew (some (a, c)) = (d : Client) → a.zalloc ≡ some d → d.inbound.message_length_read ≡ 0

-- Some entry has the peer of a connection.
abbrev pub IsKnown : Conn → Conns → Type 0
IsKnown c [] = ⊥
IsKnown c (none ∷ conns) = IsKnown c conns
IsKnown c (some d ∷ conns) =
    ((c.remote_ip ≡ d.remote_ip) × (c.remote_port ≡ d.remote_port)) ⊎ IsKnown c conns

abbrev pub AllTaken : Conns → Type 0
AllTaken [] = Unit {0}
AllTaken (none ∷ conns) = ⊥
AllTaken (some d ∷ conns) = AllTaken conns

-- Nothing happens where there is no new connection, or one of a known peer. Another is stopped if the
-- table is full, and else gets the first free entry, not marked for deletion, and a client.
abbrev pub Accepted : Option (Accept × Conn) → Conns → Broker → Conns × Broker → Type 0
Accepted none conns b r = r ≡ (conns, b)
Accepted (some (a, c)) conns b r =
    (IsKnown c conns × (r ≡ (conns, b)))
    ⊎ (¬ IsKnown c conns
        × ((AllTaken conns × (r ≡ (conns, log b (stop c.pcon))))
            ⊎ ((before : Conns) × (after : Conns) × AllTaken before
                × (conns ≡ before ++ none ∷ after)
                × (r.0 ≡ before ++ some (record c { tobedeleted = false }) ∷ after)
                × (r.1 ≡ connected_cb a.zalloc a.free_heap a.agrees true a.memory b c.pcon))))

peer_lem :
    (c d : Conn)
    → is_peer c.remote_ip c.remote_port (some d) ≡ true
    → (c.remote_ip ≡ d.remote_ip) × (c.remote_port ≡ d.remote_port)
peer_lem c d e = (ground (arith, e), ground (arith, e))

peer_not :
    (c d : Conn)
    → is_peer c.remote_ip c.remote_port (some d) ≡ false
    → ¬ ((c.remote_ip ≡ d.remote_ip) × (c.remote_port ≡ d.remote_port))
peer_not c d e (p, q) = absurd (ground (arith, e, p, q))

some_ne_none : (i : ℕ) → some i ≢ none
some_ne_none i e = cc

-- An index is found exactly where the peer is known.
index_loop-IsKnown :
    (c : Conn) (conns : Conns) (i : ℕ)
    → ((index_loop c.remote_ip c.remote_port i conns ≡ none) × ¬ IsKnown c conns)
      ⊎ (((k : ℕ) × (index_loop c.remote_ip c.remote_port i conns ≡ some k)) × IsKnown c conns)
index_loop-IsKnown c [] i = inl (refl, λ k. k)
index_loop-IsKnown c (none ∷ conns) i = index_loop-IsKnown c conns (suc i)
index_loop-IsKnown c (some d ∷ conns) i =
    elim (Bool-cases (is_peer c.remote_ip c.remote_port (some d))) [
      | inl e ↦ inr ((i, rw e refl), inl (peer_lem c d e))
      | inr e ↦ elim (index_loop-IsKnown c conns (suc i)) [
        | inl (n, u) ↦ inl (rw e n, λ k. elim k [ inl p ↦ peer_not c d e p | inr p ↦ u p ])
        | inr ((k, n), p) ↦ inr ((k, rw e n), inr p)
      ]
    ]

-- The first free entry is taken, if there is one.
abbrev Put : Conn → Conns → Option Conns → Type 0
Put c conns none = AllTaken conns
Put c conns (some r) =
    (before : Conns) × (after : Conns) × AllTaken before
    × (conns ≡ before ++ none ∷ after)
    × (r ≡ before ++ some c ∷ after)

put_conn-Put : (c : Conn) (conns : Conns) → Put c conns (put_conn c conns)
put_conn-Put c [] = tt
put_conn-Put c (none ∷ conns) = ([], conns, tt, refl, refl)
put_conn-Put c (some d ∷ conns) = elim (Option-cases (put_conn c conns)) [
  | inl e ↦ rw (put_conn, e) (subst (Put c conns) e (put_conn-Put c conns))
  | inr (rest, e) ↦
      let (before, after, t, p, q) = subst (Put c conns) e (put_conn-Put c conns) in
      rw (put_conn, e) (some d ∷ before, after, t, ap (λ x. some d ∷ x) p, ap (λ x. some d ∷ x) q)
]

module _ (auth : Option Auth) where
  pub once : (b b' : Broker) → Step auth b b' → Run auth b b'
  once b b' s = more b b b' (done b) s

  server_loop-Accepted :
      (a : Accept) (conns : Conns) (b : Broker) (c : Conn)
      → IsNew (some (a, c))
      → Accepted (some (a, c)) conns b (server_loop a conns b c)
        × Run auth b (server_loop a conns b c).1
  unfolding server_loop get_client_id add_new_client
  server_loop-Accepted a conns b c z = elim (index_loop-IsKnown c conns 0) [
    | inr ((i, e), k) ↦ rw (server_loop, get_client_id, e) (inl (k, refl), done b)
    | inl (e, u) ↦
        let c' = record c { tobedeleted = false } in
        elim (Option-cases (put_conn c' conns)) [
          | inl n ↦
              rw (server_loop, get_client_id, e, add_new_client, n)
                (
                  inr (u, inl (subst (Put c' conns) n (put_conn-Put c' conns), refl)),
                  once b _ (rejects b c.pcon),
                )
          | inr (conns', n) ↦
              let (before, after, t, p, q) = subst (Put c' conns) n (put_conn-Put c' conns) in
              rw (server_loop, get_client_id, e, add_new_client, n)
                (
                  inr (u, inr (before, after, t, p, q, refl)),
                  once b _ (connects a.zalloc a.free_heap a.agrees a.memory b c.pcon z),
                )
        ]
  ]

  pub accept-Accepted :
      (new : Option (Accept × Conn)) (conns : Conns) (b : Broker)
      → IsNew new
      → Accepted new conns b (accept new conns b) × Run auth b (accept new conns b).1
  accept-Accepted none conns b z = (refl, done b)
  accept-Accepted (some (a, c)) conns b z = server_loop-Accepted a conns b c z
