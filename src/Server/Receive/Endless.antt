-- ===== src/Server/Receive/Endless.antt =====
-- src/mqtt_server.cpp, MQTT_ClientCon_recv_cb: a message whose total length is stored as 0 is never
-- taken out of the buffer.
use u_mqttbroker.Base.{
  ℕ, zero, suc, ◌+◌, ◌-◌, ◌*◌, ◌%◌, ◌^◌, ◌<◌, ◌≡◌, ◌≢◌, inl, inr, refl, ap, ◌∙◌, true, false, none,
  some, List, [], ◌∷◌, arith, ◌==◌, ltb, take, write, set, Bool-cases, lt→ltb,
}
use u_mqttbroker.Msg.Read.{get_type, get_total_length}
use u_mqttbroker.Server.{Broker, Client, Inbound, mqtt_data, find_client, put_client}
use u_mqttbroker.Server.Receive.{handle, renew_timeout, shift, recv_loop}
use u_mqttbroker.Server.Receive.Session.{Outside, next, receive_data}

-- The types of messages that a client that is served may send without an effect.
abbrev pub IsIgnored : ℕ → Type 0
IsIgnored t = (t ≢ 3) × (t ≢ 8) × (t ≢ 10) × (t ≢ 12) × (t ≢ 14)

ne-false : (a b : ℕ) → a ≢ b → (a == b) ≡ false
ne-false a b h = ground arith

receive_data-ignored :
    (outside : Outside) (b : Broker) (c : Client) (inb : Inbound)
    → IsIgnored (get_type inb.in_buffer)
    → receive_data outside b c inb ≡ next b inb
unfolding receive_data
receive_data-ignored outside b c inb (n₃, n₈, n₁₀, n₁₂, n₁₄) =
    rw
      (
        receive_data,
        ne-false _ 8 n₈,
        ne-false _ 10 n₁₀,
        ne-false _ 3 n₃,
        ne-false _ 12 n₁₂,
        ne-false _ 14 n₁₄,
      )
      refl

write-cons :
    (x : ℕ) (buf : List ℕ) (j k : ℕ) (xs : List ℕ)
    → j ≡ suc k
    → write (x ∷ buf) j xs ≡ x ∷ write buf k xs
write-cons x buf j k [] e = refl
write-cons x buf j k (y ∷ ys) e =
    ap (λ i. write (set (x ∷ buf) i y) (j + 1) ys) e
    ∙ write-cons x (set buf k y) (j + 1) (k + 1) ys (omega (arith, e))

-- Copying the beginning of a buffer onto itself.
write-take : (n : ℕ) (buf : List ℕ) → write buf 0 (take n buf) ≡ buf
write-take zero buf = refl
write-take (suc n) [] = refl
write-take (suc n) (x ∷ buf) =
    write-cons x buf 1 0 (take n buf) refl ∙ ap (◌∷◌ x) (write-take n buf)

pub find_client-put :
    (a : ℕ) (c c' : Client) (clients : List Client)
    → find_client a clients ≡ some c
    → c'.address ≡ a
    → find_client a (put_client c' clients) ≡ some c'
find_client-put a c c' [] e s = absurd cc
find_client-put a c c' (d ∷ clients) e s =
    let at : (c'.address == a) ≡ true = ground (arith, s) in
    elim (Bool-cases (d.address == a)) [
      | inl f ↦ let g : (d.address == c'.address) ≡ true = ground (arith, s, f) in rw (g, at) refl
      | inr f ↦
          let g : (d.address == c'.address) ≡ false = ground (arith, s, f) in
          rw (g, f) (find_client-put a c c' clients (ground (arith, f, e)) s)
    ]

shift-zero : (inb : Inbound) → inb.message_length ≡ 0 → shift inb ≡ inb
unfolding shift
shift-zero inb z =
    let m : inb.message_length_read - 0 ≡ inb.message_length_read = omega arith in
    rw (z, m)
      (ap (λ buf. record inb { in_buffer = buf; message_length = 0 })
        (write-take inb.message_length_read inb.in_buffer))

module _ (outside : ℕ → Outside) (a len : ℕ) where
  -- A client that is served, at the address.
  abbrev pub IsServed : Broker → Type 0
  IsServed b =
      (c : Client) × (find_client a b.clientcon_list ≡ some c)
      × (c.conn_state ≡ mqtt_data)
      × (c.address ≡ a)

  renew_timeout-IsServed : (b : Broker) → IsServed b → IsServed (renew_timeout b a)
  renew_timeout-IsServed b (c, e, s, at) =
      let c' = record c { connection_timeout = 2 * c.connect_info.keepalive + 10 } in
      rw (renew_timeout, e) (c', find_client-put a c c' b.clientcon_list e at, s, at)

  -- When a client that is served has sent a message that is ignored and whose total length is a
  -- multiple of 2 ^ 16, no number of rounds is enough for the handler.
  pub recv_loop-endless :
      (n k : ℕ) (b : Broker) (inb : Inbound)
      → ltb len 2 ≡ false
      → IsServed b
      → IsIgnored (get_type inb.in_buffer)
      → 0 < inb.message_length_read
      → get_total_length inb.in_buffer inb.message_length_read % 2 ^ 16 ≡ 0
      → recv_loop n outside k len b a inb ≡ none
  unfolding recv_loop handle
  recv_loop-endless zero k b inb l s i r z = refl
  recv_loop-endless (suc n) k b inb l (c, e, s, at) i r z =
      let total = get_total_length inb.in_buffer inb.message_length_read % 2 ^ 16 in
      let inb₁ = record inb { message_length = total } in
      let f : ltb inb.message_length_read total ≡ false = ground (arith, z) in
      let q : ltb total inb.message_length_read ≡ true =
        lt→ltb total inb.message_length_read (omega (arith, z, r)) in
      rw
        (
          recv_loop,
          l,
          f,
          e,
          handle,
          s,
          receive_data-ignored (outside k) b c inb₁ i,
          q,
          shift-zero inb₁ z,
        )
        (recv_loop-endless n (suc k) (renew_timeout b a) inb₁ l
          (renew_timeout-IsServed b (c, e, s, at)) i r z)
