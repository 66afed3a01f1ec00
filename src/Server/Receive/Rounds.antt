-- ===== src/Server/Receive/Rounds.antt =====
-- src/mqtt_server.cpp, MQTT_ClientCon_recv_cb: when the loop over the received messages ends.
use u_mqttbroker.Base.{
  ℕ, zero, suc, ◌+◌, ◌%◌, ◌^◌, ◌≤◌, ◌<◌, ◌≡◌, inl, inr, refl, sym, subst, ◌∙◌, false, Option, some,
  List, ◌++◌, arith, ltb, length, drop, write, take-write, length-write, Bool-cases, Option-cases,
  ltb→lt, ltb→le,
}
use u_mqttbroker.Msg.Read.{get_total_length}
use u_mqttbroker.Server.{Broker, Client, Inbound, client, find_client, mqtt_buf_size}
use u_mqttbroker.Server.Every.{Every, AllClients-find}
use u_mqttbroker.Server.Receive.{handle, renew_timeout, shift, recv_loop, recv_cb}
use u_mqttbroker.Server.Receive.Connect.{Auth}
use u_mqttbroker.Server.Receive.Session.{Outside, Received, next, left}
use u_mqttbroker.Server.Receive.Sound.{IsBounded, Sound, Keeps}
use u_mqttbroker.Server.Receive.Bounds.{
  Leaving, shift-IsBounded, renew_timeout-Sound, recv_cb-Sound,
}
use u_mqttbroker.Server.Receive.Login.{handle-Keeps}
use u_mqttbroker.Server.Receive.Window.{
  received, total_of, total_of-received, received-Rewrites, shift-less, Rewrites-lengths,
}

-- Each of the first messages in some bytes has a total length that is not stored as 0.
abbrev pub Advances : ℕ → List ℕ → Type 0
Advances zero bytes = Unit {0}
Advances (suc n) bytes = (0 < total_of bytes) × Advances n (drop (total_of bytes) bytes)

-- A handler that comes to an end, in a broker with a property.
abbrev pub Ends : (Broker → Type 0) → Option Broker → Type 0
Ends Q o = (b : Broker) × (o ≡ some b) × Q b

Ends-Leaving :
    (Q : Broker → Type 0) (o : Option Broker)
    → ((b : Broker) × (o ≡ some b))
    → Leaving Q o
    → Ends Q o
Ends-Leaving Q o (b, e) l = (b, e, subst (Leaving Q) e l)

module _ (outside : ℕ → Outside) (auth : Option Auth)
    (same : (k : ℕ) → (outside k).auth ≡ auth) where
  handle-Sound :
      (k : ℕ) (b : Broker) (c : Client) (inb : Inbound)
      → Sound auth c
      → Every (Sound auth) b
      → Keeps auth inb (handle (outside k) b c inb)
  handle-Sound k b c inb p h =
      subst (λ x. Keeps x inb (handle (outside k) b c inb)) (same k)
        (handle-Keeps (outside k) b c inb (subst (λ x. Sound x c) (sym (same k)) p)
          (subst (λ x. Every (Sound x) b) (sym (same k)) h))

  pub recv_loop-ends :
      (n k len : ℕ) (b : Broker) (a : ℕ) (inb : Inbound)
      → IsBounded inb
      → Every (Sound auth) b
      → inb.message_length_read < n
      → Advances n (received inb)
      → (b' : Broker) × (recv_loop n outside k len b a inb ≡ some b')
  unfolding recv_loop
  recv_loop-ends zero k len b a inb p h l adv = absurd (omega arith)
  recv_loop-ends (suc n) k len b a inb p h l adv =
      let total = get_total_length inb.in_buffer inb.message_length_read % 2 ^ 16 in
      let inb₁ = record inb { message_length = total } in
      elim (Bool-cases (ltb len 2)) [
        | inl e ↦ rw (recv_loop, e) (_, refl)
        | inr e ↦ elim (Bool-cases (ltb inb.message_length_read total)) [
          | inl f ↦ rw (recv_loop, e, f) (_, refl)
          | inr f ↦ elim (Option-cases (find_client a b.clientcon_list)) [
            | inl g ↦ rw (recv_loop, e, f, g) (_, refl)
            | inr (c, g) ↦
                handled c e f g (handle (outside k) b c inb₁) refl
                  (handle-Sound k b c inb₁ (AllClients-find (Sound auth) a b.clientcon_list c g h)
                    h)
                  (λ b inb p h l adv. recv_loop-ends n (suc k) len b a inb p h l adv)
          ]
        ]
      ]
    where
      total : ℕ
      total = get_total_length inb.in_buffer inb.message_length_read % 2 ^ 16

      now : Inbound
      now = record inb { message_length = total }

      handled :
          (c : Client)
          → ltb len 2 ≡ false
          → ltb inb.message_length_read total ≡ false
          → find_client a b.clientcon_list ≡ some c
          → (r : Received) → handle (outside k) b c now ≡ r
          → Keeps auth now r
          → ((b : Broker) (inb : Inbound)
              → IsBounded inb
              → Every (Sound auth) b
              → inb.message_length_read < n
              → Advances n (received inb)
              → (b' : Broker) × (recv_loop n outside (suc k) len b a inb ≡ some b'))
          → (b' : Broker) × (recv_loop (suc n) outside k len b a inb ≡ some b')
      handled c e f g (left b₁) i kept more = rw (recv_loop, e, f, g, i) (_, refl)
      handled c e f g (next b₁ inb₂) i (h₁, w) more =
          let h₂ = renew_timeout-Sound auth b₁ a h₁ in
          elim (Bool-cases (ltb inb₂.message_length inb₂.message_length_read)) [
            | inl q ↦
                rw (recv_loop, e, f, g, i, q)
                  (let lens = Rewrites-lengths now inb₂ w in
                    let (r, p₂) = received-Rewrites now inb₂ w p (ground (arith, q)) in
                    let t : total_of (received inb) ≡ total = total_of-received inb p in
                    more (renew_timeout b₁ a) (shift inb₂) (shift-IsBounded inb₂ p₂) h₂
                      (shift-less (inb₂.message_length_read) n inb₂
                        (subst (λ x. 0 < x) (sym lens.0) (subst (λ x. 0 < x) t adv.0))
                        (ltb→lt _ _ q) refl (subst (λ x. x < suc n) (sym lens.1) l))
                      (subst (Advances n) (sym r)
                        (subst (λ x. Advances n (drop x (received inb))) t adv.1)))
            | inr q ↦ rw (recv_loop, e, f, g, i, q) (_, refl)
          ]

  -- Where no message that the buffer comes to hold has a total length that is stored as 0, the
  -- handler of bytes that arrive for a listed client ends within 513 rounds, and leaves the buffers
  -- within their bounds and no client served that was not authorized.
  pub recv_cb-Ends :
      (b : Broker) (pcon : ℕ) (pdata : List ℕ) (a : ℕ) (c : Client)
      → Every (Sound auth) b
      → b.reverse pcon ≡ client a
      → find_client a b.clientcon_list ≡ some c
      → Advances 513 (received c.inbound ++ pdata)
      → Ends (Every (Sound auth)) (recv_cb 513 outside b pcon pdata)
  unfolding recv_cb
  recv_cb-Ends b pcon pdata a c h e n adv =
      Ends-Leaving (Every (Sound auth)) (recv_cb 513 outside b pcon pdata) ended
        (recv_cb-Sound outside auth same 513 b pcon pdata h)
    where
      inb : Inbound
      inb = c.inbound

      p : IsBounded c.inbound
      p = (AllClients-find (Sound auth) a b.clientcon_list c n h).0

      ended : (b' : Broker) × (recv_cb 513 outside b pcon pdata ≡ some b')
      ended = elim (Bool-cases (ltb mqtt_buf_size (length pdata + inb.message_length_read))) [
        | inl l ↦ rw (recv_cb, e, n, l) (_, refl)
        | inr l ↦
            rw (recv_cb, e, n, l)
              (let fits = ltb→le _ _ l in
                let now = record inb {
                  in_buffer = write inb.in_buffer inb.message_length_read pdata;
                  message_length_read = inb.message_length_read + length pdata;
                } in
                let all : received now ≡ received inb ++ pdata =
                  take-write pdata inb.in_buffer inb.message_length_read
                    (inb.message_length_read + length pdata) refl
                    (subst (λ x. inb.message_length_read + length pdata ≤ x) (sym p.0)
                      (omega (arith, fits))) in
                recv_loop-ends 513 0 (length pdata) b a now
                  (
                    length-write pdata inb.in_buffer inb.message_length_read ∙ p.0,
                    omega (arith, fits),
                  )
                  h (omega (arith, fits)) (subst (Advances 513) (sym all) adv))
      ]
