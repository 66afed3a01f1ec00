-- ===== src/Server/Delivery.antt =====
-- src/mqtt_server.cpp: what a publish leaves in the queues of the clients.
use u_mqttbroker.Base.{
  ℕ, ◌-◌, ◌<◌, ◌≡◌, ◌≢◌, ◌⊎◌, inl, inr, refl, sym, ap, subst, ◌∙◌, Bool, true, false, not, none,
  some, List, [], ◌∷◌, ◌++◌, arith, if◌then◌else◌, leb, ◌==◌, length, AllBytes, Bool-cases,
}
use u_mqttbroker.Ring.Inv.{IsValid}
use u_mqttbroker.Ring.Refine.{contents}
use u_mqttbroker.Proto.{minus_one}
use u_mqttbroker.Proto.Frame.{frame}
use u_mqttbroker.Msg.{Connection}
use u_mqttbroker.Msg.Packet.{message_bytes}
use u_mqttbroker.Msg.Kept.{Same}
use u_mqttbroker.Queue.{Queue, puts}
use u_mqttbroker.Queue.Fifo.{Carries, puts-Carries}
use u_mqttbroker.Server.{Broker, Client, mqtt_buf_size, find_client, put_client}
use u_mqttbroker.Server.Publish.{enqueue}

-- The messages that wait for the client at an address.
abbrev pub Pending : Type 0
Pending = ℕ → List (List ℕ)

abbrev pub Keeps : Client → List (List ℕ) → Type 0
Keeps c ms =
    IsValid c.msg_queue.rb
    × (c.msg_queue.rb.size < minus_one)
    × Carries (contents c.msg_queue.rb) ms
    × (c.connection.buffer_length ≡ mqtt_buf_size)

-- Each client's queue holds what waits for it, and no two clients have one address.
abbrev pub AllKeep : Pending → List Client → Type 0
AllKeep pending [] = Unit {0}
AllKeep pending (c ∷ clients) =
    Keeps c (pending c.address) × (find_client c.address clients ≡ none) × AllKeep pending clients

abbrev pub Serves : Broker → Pending → Type 0
Serves b pending = (length b.shared_out_buffer ≡ mqtt_buf_size) × AllKeep pending b.clientcon_list

abbrev pub add_message : ℕ → List ℕ → Pending → Pending
add_message address m pending a = if a == address then pending a ++ m ∷ [] else pending a

pub find_client-address :
    (a : ℕ) (clients : List Client) (c : Client) → find_client a clients ≡ some c → c.address ≡ a
find_client-address a [] c e = absurd cc
find_client-address a (d ∷ clients) c e = elim (Bool-cases (d.address == a)) [
  | inl s ↦ ground (arith, s)
  | inr o ↦ find_client-address a clients c (ground (arith, o))
]

some_injective : (c d : Client) → some c ≡ some d → c ≡ d
some_injective c d e = ap (λ o. elim o [ none ↦ c | some x ↦ x ]) e

pub Keeps-find :
    (pending : Pending) (clients : List Client) (a : ℕ) (c : Client)
    → AllKeep pending clients
    → find_client a clients ≡ some c
    → Keeps c (pending a)
Keeps-find pending [] a c k e = absurd cc
Keeps-find pending (d ∷ clients) a c k e = elim (Bool-cases (d.address == a)) [
  | inl s ↦
      let same : d ≡ c = some_injective d c (ground (arith, s)) in
      let at : d.address ≡ a = ground (arith, s) in
      subst (λ x. Keeps x (pending a)) same (subst (λ x. Keeps d (pending x)) at k.0)
  | inr o ↦ Keeps-find pending clients a c k.2 (ground (arith, o))
]

some_ne_none : (c : Client) → some c ≢ none
some_ne_none c e = cc

pub put_client-none :
    (a : ℕ) (c : Client) (clients : List Client)
    → find_client a clients ≡ none
    → find_client a (put_client c clients) ≡ none
put_client-none a c [] e = refl
put_client-none a c (d ∷ clients) e = elim (Bool-cases (d.address == a)) [
  | inl s ↦ absurd (some_ne_none d (ground (arith, s)))
  | inr o ↦ elim (Bool-cases (d.address == c.address)) [
    | inl t ↦ rw t (ground (arith, o, t))
    | inr t ↦ rw (t, o) (put_client-none a c clients (ground (arith, o)))
  ]
]

-- Only what waits for the address `a` may differ.
abbrev SameBut : ℕ → Pending → Pending → Type 0
SameBut a p p' = (x : ℕ) → (p' x ≡ p x) ⊎ (x ≡ a)

AllKeep-other :
    (p p' : Pending) (a : ℕ) (clients : List Client)
    → SameBut a p p'
    → find_client a clients ≡ none
    → AllKeep p clients
    → AllKeep p' clients
AllKeep-other p p' a [] s e k = tt
AllKeep-other p p' a (d ∷ clients) s e k = elim (Bool-cases (d.address == a)) [
  | inl t ↦ absurd (some_ne_none d (ground (arith, t)))
  | inr o ↦ elim (s d.address) [
    | inl q ↦ (
      subst (λ ms. Keeps d ms) (sym q) k.0,
      k.1,
      AllKeep-other p p' a clients s (ground (arith, o)) k.2,
    )
    | inr q ↦ absurd (ground (arith, o, q))
  ]
]

AllKeep-put :
    (p p' : Pending) (c : Client) (clients : List Client)
    → SameBut c.address p p'
    → Keeps c (p' c.address)
    → AllKeep p clients
    → AllKeep p' (put_client c clients)
AllKeep-put p p' c [] s h k = tt
AllKeep-put p p' c (d ∷ clients) s h k = elim (Bool-cases (d.address == c.address)) [
  | inl t ↦
      let at : d.address ≡ c.address = ground (arith, t) in
      let none' = subst (λ x. find_client x clients ≡ none) at k.1 in
      rw t (h, none', AllKeep-other p p' c.address clients s none' k.2)
  | inr o ↦ rw o (
    elim (s d.address) [
      | inl q ↦ subst (λ ms. Keeps d ms) (sym q) k.0
      | inr q ↦ absurd (ground (arith, o, q))
    ],
    put_client-none d.address c clients k.1,
    AllKeep-put p p' c clients s h k.2,
  )
]

SameBut-refl : (a : ℕ) (p : Pending) → SameBut a p p
SameBut-refl a p x = inl refl

SameBut-add : (a : ℕ) (m : List ℕ) (p : Pending) → SameBut a p (add_message a m p)
SameBut-add a m p x = elim (Bool-cases (x == a)) [
  | inl e ↦ inr (ground (arith, e))
  | inr e ↦ inl (rw e refl)
]

add_message-same : (a : ℕ) (m : List ℕ) (p : Pending) → add_message a m p a ≡ p a ++ m ∷ []
add_message-same a m p = let e : (a == a) ≡ true = ground arith in rw e refl

-- What waits once a message was offered to a queue, which took it or not.
abbrev pub offered : Bool → ℕ → List ℕ → Pending → Pending
offered true a m pending = add_message a m pending
offered false a m pending = pending

offered-same :
    (done : Bool) (a : ℕ) (m : List ℕ) (p : Pending)
    → offered done a m p a ≡ (if done then p a ++ m ∷ [] else p a)
offered-same true a m p = add_message-same a m p
offered-same false a m p = refl

SameBut-offered :
    (done : Bool) (a : ℕ) (m : List ℕ) (p : Pending) → SameBut a p (offered done a m p)
SameBut-offered true a m p = SameBut-add a m p
SameBut-offered false a m p = SameBut-refl a p

puts-offered :
    (q : Queue) (m : List ℕ) (ms : List (List ℕ))
    → IsValid q.rb
    → q.rb.size < minus_one
    → AllBytes m
    → Carries (contents q.rb) ms
    → let r = puts q m in
      IsValid r.1.rb
      × (r.1.rb.size ≡ q.rb.size)
      × Carries (contents r.1.rb) (if not (r.0 == minus_one) then ms ++ m ∷ [] else ms)
puts-offered q m ms v s a carries =
    let (v', s', n, c) = puts-Carries q m ms v s a carries in
    elim (Bool-cases (leb (length (frame m)) (q.rb.size - q.rb.fill_cnt))) [
      | inl fits ↦
          let took : ((puts q m).0 == minus_one) ≡ false = ground (arith, fits, n) in
          rw took (v', s', (rw fits at c))
      | inr full ↦
          let left : ((puts q m).0 == minus_one) ≡ true = ground (arith, full, n) in
          rw left (v', s', (rw full at c))
    ]

pub enqueue-Serves :
    (b : Broker) (c : Client) (build : Connection → Connection) (m : List ℕ) (pending : Pending)
    → Serves b pending
    → Keeps c (pending c.address)
    → AllBytes m
    → Same
        (record c.connection { buffer = b.shared_out_buffer })
        (build (record c.connection { buffer = b.shared_out_buffer }))
    → message_bytes (build (record c.connection { buffer = b.shared_out_buffer })) ≡ m
    → let r = enqueue b c build in Serves r.1 (offered r.0 c.address m pending)
unfolding enqueue
enqueue-Serves b c build m pending (l, k) (v, s, carries, w) a same e =
    let conn = build (record c.connection { buffer = b.shared_out_buffer }) in
    let r = puts c.msg_queue m in
    let (v', s', carries') = puts-offered c.msg_queue m (pending c.address) v s a carries in
    let done = not (r.0 == minus_one) in
    let c' = record c { connection = conn; msg_queue = r.1 } in
    rw e (
      same.1 ∙ l,
      AllKeep-put pending (offered done c.address m pending) c' b.clientcon_list
          (SameBut-offered done c.address m pending)
          (
            v',
            subst (λ x. x < minus_one) (sym s') s,
            subst (λ ms. Carries (contents r.1.rb) ms) (sym (offered-same done c.address m pending))
                carries',
            same.0 ∙ w,
          )
          k,
    )
