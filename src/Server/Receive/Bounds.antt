-- ===== src/Server/Receive/Bounds.antt =====
-- src/mqtt_server.cpp, MQTT_ClientCon_recv_cb as a whole: the receive buffers stay within their
-- bounds, and no client is served that was not authorized.
use u_mqttbroker.Base.{
  ℕ, zero, suc, ◌+◌, ◌-◌, ◌*◌, ◌%◌, ◌^◌, ◌≡◌, inl, inr, refl, sym, subst, ◌∙◌, false, Option, none,
  some, List, arith, ◌==◌, ltb, length, take, drop, length-write, length-set, Bool-cases,
  Option-cases,
}
use u_mqttbroker.Msg.Read.{get_total_length}
use u_mqttbroker.Server.{
  Broker, Client, Inbound, Reverse, nobody, dummy, client, find_client, mqtt_buf_size,
}
use u_mqttbroker.Server.Every.{
  Every, AllClients-find, AllClients-put, activate_next_client-Every, disconnect_client_con-Every,
}
use u_mqttbroker.Server.Receive.{handle, store, renew_timeout, shift, finish, recv_loop, recv_cb}
use u_mqttbroker.Server.Receive.Connect.{Auth, adapt}
use u_mqttbroker.Server.Receive.Session.{Outside, Received, next, left}
use u_mqttbroker.Server.Receive.Sound.{IsBounded, Sound, Rewrites, Keeps}
use u_mqttbroker.Server.Receive.Login.{handle-Keeps}

-- What holds of the broker that a handler leaves, if it comes to an end.
abbrev pub Leaving : (Broker → Type 0) → Option Broker → Type 0
Leaving Q none = Unit {0}
Leaving Q (some b) = Q b

module _ (auth : Option Auth) where
  pub store-Sound :
      (b : Broker) (a : ℕ) (inb : Inbound)
      → IsBounded inb
      → Every (Sound auth) b
      → Every (Sound auth) (store b a inb)
  store-Sound b a inb p h = elim (Option-cases (find_client a b.clientcon_list)) [
    | inl n ↦ rw (store, n) h
    | inr (c, n) ↦
        rw (store, n)
          (AllClients-put (Sound auth) (record c { inbound = inb }) b.clientcon_list
            (p, (AllClients-find (Sound auth) a b.clientcon_list c n h).1) h)
  ]

  pub renew_timeout-Sound :
      (b : Broker) (a : ℕ) → Every (Sound auth) b → Every (Sound auth) (renew_timeout b a)
  renew_timeout-Sound b a h = elim (Option-cases (find_client a b.clientcon_list)) [
    | inl n ↦ rw (renew_timeout, n) h
    | inr (c, n) ↦
        rw (renew_timeout, n)
          (AllClients-put (Sound auth)
            (record c { connection_timeout = 2 * c.connect_info.keepalive + 10 }) b.clientcon_list
            (AllClients-find (Sound auth) a b.clientcon_list c n h) h)
  ]

  pub finish-Sound :
      (outside : Outside) (b : Broker) (a : ℕ) (inb : Inbound) (t : ℕ)
      → IsBounded inb
      → Every (Sound auth) b
      → Every (Sound auth) (finish outside b a inb t)
  unfolding finish
  finish-Sound outside b a inb t p h =
      let inb' = record inb { message_length_read = 0 } in
      let h' = store-Sound b a inb' (p.0, omega arith) h in
      elim (Bool-cases (t == 3)) [
        | inl e ↦
            rw (finish, e)
              (activate_next_client-Every (Sound auth) (λ c conn q p. p) outside.connected
                (store b a inb') h')
        | inr e ↦ rw (finish, e) h'
      ]

pub length-adapt : (buffer : List ℕ) → length (adapt buffer) ≡ length buffer
length-adapt buffer =
    length-set _ 11 _ ∙ length-set _ 10 _ ∙ length-set _ 9 _ ∙ length-set buffer 8 _

pub Rewrites-IsBounded : (inb inb' : Inbound) → Rewrites inb inb' → IsBounded inb → IsBounded inb'
Rewrites-IsBounded inb inb' (inl e) p = subst IsBounded (sym e) p
Rewrites-IsBounded inb inb' (inr (l, e)) p =
    subst IsBounded (sym e) (length-adapt inb.in_buffer ∙ p.0, p.1)

pub shift-IsBounded : (inb : Inbound) → IsBounded inb → IsBounded (shift inb)
unfolding shift
shift-IsBounded inb (l, r) = (
  length-write
        (take (inb.message_length_read - inb.message_length)
          (drop inb.message_length inb.in_buffer))
        inb.in_buffer 0
      ∙ l,
  omega (arith, r),
)

module _ (outside : ℕ → Outside) (auth : Option Auth)
    (same : (k : ℕ) → (outside k).auth ≡ auth) where
  recv_loop-Sound :
      (n k len : ℕ) (b : Broker) (a : ℕ) (inb : Inbound)
      → IsBounded inb
      → Every (Sound auth) b
      → Leaving (Every (Sound auth)) (recv_loop n outside k len b a inb)
  unfolding recv_loop
  recv_loop-Sound zero k len b a inb p h = tt
  recv_loop-Sound (suc n) k len b a inb p h =
      let total = get_total_length inb.in_buffer inb.message_length_read % 2 ^ 16 in
      let inb₁ = record inb { message_length = total } in
      elim (Bool-cases (ltb len 2)) [
        | inl e ↦ rw (recv_loop, e) (store-Sound auth b a inb p h)
        | inr e ↦ elim (Bool-cases (ltb inb.message_length_read total)) [
          | inl f ↦ rw (recv_loop, e, f) (store-Sound auth b a inb₁ p h)
          | inr f ↦ elim (Option-cases (find_client a b.clientcon_list)) [
            | inl g ↦ rw (recv_loop, e, f, g) h
            | inr (c, g) ↦
                let kept : Keeps auth inb₁ (handle (outside k) b c inb₁) =
                  subst (λ x. Keeps x inb₁ (handle (outside k) b c inb₁)) (same k)
                    (handle-Keeps (outside k) b c inb₁
                      (subst (λ x. Sound x c) (sym (same k))
                        (AllClients-find (Sound auth) a b.clientcon_list c g h))
                      (subst (λ x. Every (Sound x) b) (sym (same k)) h)) in
                handled c e f g (handle (outside k) b c inb₁) refl kept
                  (λ b inb p h. recv_loop-Sound n (suc k) len b a inb p h)
          ]
        ]
      ]
    where
      total : ℕ
      total = get_total_length inb.in_buffer inb.message_length_read % 2 ^ 16

      handled :
          (c : Client)
          → ltb len 2 ≡ false
          → ltb inb.message_length_read total ≡ false
          → find_client a b.clientcon_list ≡ some c
          → (r : Received) → handle (outside k) b c (record inb { message_length = total }) ≡ r
          → Keeps auth (record inb { message_length = total }) r
          → ((b : Broker) (inb : Inbound)
              → IsBounded inb
              → Every (Sound auth) b
              → Leaving (Every (Sound auth)) (recv_loop n outside (suc k) len b a inb))
          → Leaving (Every (Sound auth)) (recv_loop (suc n) outside k len b a inb)
      handled c e f g (left b₁) i kept more = rw (recv_loop, e, f, g, i) kept
      handled c e f g (next b₁ inb₂) i (h₁, w) more =
          let p₂ = Rewrites-IsBounded (record inb { message_length = total }) inb₂ w p in
          let h₂ = renew_timeout-Sound auth b₁ a h₁ in
          elim (Bool-cases (ltb inb₂.message_length inb₂.message_length_read)) [
            | inl l ↦
                rw (recv_loop, e, f, g, i, l)
                  (more (renew_timeout b₁ a) (shift inb₂) (shift-IsBounded inb₂ p₂) h₂)
            | inr l ↦
                rw (recv_loop, e, f, g, i, l)
                  (finish-Sound auth (outside k) (renew_timeout b₁ a) a inb₂ _ p₂ h₂)
          ]

  pub recv_cb-Sound :
      (fuel : ℕ) (b : Broker) (pcon : ℕ) (pdata : List ℕ)
      → Every (Sound auth) b
      → Leaving (Every (Sound auth)) (recv_cb fuel outside b pcon pdata)
  unfolding recv_cb
  recv_cb-Sound fuel b pcon pdata h = named (b.reverse pcon) refl
    where
      named :
          (r : Reverse)
          → b.reverse pcon ≡ r
          → Leaving (Every (Sound auth)) (recv_cb fuel outside b pcon pdata)
      named nobody e = rw (recv_cb, e) h
      named dummy e = rw (recv_cb, e) h
      named (client a) e = elim (Option-cases (find_client a b.clientcon_list)) [
        | inl n ↦ rw (recv_cb, e, n) h
        | inr (c, n) ↦
            let p = (AllClients-find (Sound auth) a b.clientcon_list c n h).0 in
            elim (Bool-cases (ltb mqtt_buf_size (length pdata + c.inbound.message_length_read))) [
              | inl l ↦
                  rw (recv_cb, e, n, l)
                    (disconnect_client_con-Every (Sound auth) (λ c conn q p. p)
                      (outside 0).connected (outside 0).memory b c h)
              | inr l ↦
                  rw (recv_cb, e, n, l)
                    (recv_loop-Sound fuel 0 (length pdata) b a _
                      (length-write pdata c.inbound.in_buffer _ ∙ p.0, ground (arith, l)) h)
            ]
      ]
