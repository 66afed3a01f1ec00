-- ===== src/Server/Receive/Topics.antt =====
-- src/mqtt_server.cpp, MQTT_ClientCon_recv_cb: the topics of a SUBSCRIBE and of an UNSUBSCRIBE.
use u_mqttbroker.Base.{
  ℕ, zero, suc, ◌+◌, ◌-◌, ◌≤◌, ◌<◌, ◌≡◌, refl, sym, ap, ◌∙◌, Bool, true, false, Option, some, List,
  [], ◌∷◌, ◌++◌, append-nil, append_assoc, arith, ltb, leb, length, length-append, drop,
  take-append, drop_more, if◌then◌else◌, c_string, lt→ltb,
}
use u_mqttbroker.Msg.Read.{get_str}
use u_mqttbroker.Msg.Packet.{string}
use u_mqttbroker.TopicList.{Entry}
use u_mqttbroker.TopicList
use u_mqttbroker.Server.{Broker, Inbound}
use u_mqttbroker.Server.Receive.Session.{topic_at, subscribe_loop, max_subs_per_req}

-- A string without a 0, whose length has 16 bits.
abbrev pub IsText : List ℕ → Type 0
IsText s = (c_string s ≡ s) × (length s < 65536)

get_str-string :
    (s rest : List ℕ) (n : ℕ)
    → length s < 65536
    → 2 + length s ≤ n
    → 3 ≤ n
    → get_str (string s ++ rest) n ≡ some (2, length s)
unfolding get_str
get_str-string s rest n l h k = ground (arith, l, h, k)

pub topic_at_lem :
    (inb : Inbound) (head s rest : List ℕ) (index : ℕ)
    → inb.in_buffer ≡ head ++ (string s ++ rest)
    → index ≡ length head
    → IsText s
    → index + 2 + length s ≤ inb.message_length
    → index + 3 ≤ inb.message_length
    → topic_at inb index ≡ some (length s, s)
topic_at_lem inb head s rest index e i t h k =
    let d : drop index inb.in_buffer ≡ string s ++ rest =
      ap (drop index) e ∙ drop_more head (string s ++ rest) index 0 (omega (arith, i)) in
    let d₂ : drop (index + 2) inb.in_buffer ≡ s ++ rest =
      ap (drop (index + 2)) e
      ∙ drop_more head (string s ++ rest) (index + 2) 2 (omega (arith, i)) in
    let g =
      get_str-string s rest (inb.message_length - index) t.1 (omega (arith, h))
        (omega (arith, k)) in
    rw (topic_at, d, g, d₂, take-append s rest, t.0) refl

-- The topics of a SUBSCRIBE, each with the QoS asked for.
abbrev pub Filters : Type 0
Filters = List (List ℕ × ℕ)

abbrev pub filter_bytes : Filters → List ℕ
filter_bytes [] = []
filter_bytes ((s, qos) ∷ fs) = string s ++ qos ∷ filter_bytes fs

abbrev pub AllText : Filters → Type 0
AllText [] = Unit {0}
AllText ((s, qos) ∷ fs) = IsText s × AllText fs

-- The subscriptions are added one by one, and each gets a code: the QoS 0, or 0x80 where it was
-- refused. `k` of them were before.
abbrev pub added : (ℕ → Bool) → ℕ → ℕ → Filters → Option (List Entry) → List ℕ × Option (List Entry)
added memory address k [] l = ([], l)
added memory address k ((s, qos) ∷ fs) l =
    let (done, l₁) = TopicList.add (memory k) l address s 0 in
    let (codes, l₂) = added memory address (suc k) fs l₁ in ((if done then 0 else 0x80) ∷ codes, l₂)

abbrev pub last_topic : List ℕ → Filters → List ℕ
last_topic s [] = s
last_topic s ((t, qos) ∷ fs) = last_topic t fs

pub subscribe_loop_lem :
    (memory : ℕ → Bool) (inb : Inbound) (address n k : ℕ) (fs : Filters) (head rest : List ℕ)
    (index : ℕ) (r : List ℕ × List ℕ) (b : Broker)
    → inb.in_buffer ≡ head ++ (filter_bytes fs ++ rest)
    → index ≡ length head
    → inb.message_length ≡ index + length (filter_bytes fs)
    → AllText fs
    → length fs ≤ n
    → n + k ≡ max_subs_per_req
    → let (codes, l) = added memory address k fs b.topic_list in
      subscribe_loop memory inb address n index r b
      ≡ (some (r.0 ++ codes, last_topic r.1 fs), record b { topic_list = l })
unfolding subscribe_loop
subscribe_loop_lem memory inb address zero k [] head rest index r b e i m t l c = rw append-nil refl
subscribe_loop_lem memory inb address zero k (f ∷ fs) head rest index r b e i m t l c =
    absurd (omega arith)
subscribe_loop_lem memory inb address (suc n) k [] head rest index r b e i m t l c =
    let x : ltb index inb.message_length ≡ false = ground (arith, m) in
    rw (subscribe_loop, x, append-nil) refl
subscribe_loop_lem memory inb address (suc n) k ((s, qos) ∷ fs) head rest index r b e i m t l c =
    let more = filter_bytes fs ++ rest in
    let size : inb.message_length ≡ index + 3 + length s + length (filter_bytes fs) =
      omega (arith, m, length-append (string s) (qos ∷ filter_bytes fs)) in
    let e' : inb.in_buffer ≡ head ++ (string s ++ (qos ∷ filter_bytes fs ++ rest)) =
      e ∙ ap (◌++◌ head) (append_assoc (string s) (qos ∷ filter_bytes fs) rest) in
    let at =
      topic_at_lem inb head s (qos ∷ filter_bytes fs ++ rest) index e' i t.0 (omega (arith, size))
        (omega (arith, size)) in
    let x : ltb index inb.message_length ≡ true = lt→ltb _ _ (omega (arith, size)) in
    let y : leb inb.message_length (index + 2 + length s) ≡ false = ground (arith, size) in
    let z : max_subs_per_req - suc n ≡ k = omega (arith, c) in
    let (done, l₁) = TopicList.add (memory k) b.topic_list address s 0 in
    let code : ℕ = if done then 0 else 0x80 in
    let (codes, l₂) = added memory address (suc k) fs l₁ in
    rw (subscribe_loop, x, at, y, z)
      (subscribe_loop_lem memory inb address n (suc k) fs (head ++ (string s ++ qos ∷ [])) rest
          (index + 3 + length s) (r.0 ++ code ∷ [], s) (record b { topic_list = l₁ })
          (e'
            ∙ sym (
                append_assoc head (string s ++ qos ∷ []) more
                ∙ ap (◌++◌ head) (append_assoc (string s) (qos ∷ []) more)))
          (omega (
            arith,
            i,
            length-append head (string s ++ qos ∷ []),
            length-append (string s) (qos ∷ []),
          ))
          size t.1 (omega (arith, l)) (omega (arith, c))
        ∙ ap (λ cs. (some (cs, last_topic s fs), record b { topic_list = l₂ }))
            (append_assoc r.0 (code ∷ []) codes))
