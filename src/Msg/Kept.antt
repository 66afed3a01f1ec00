-- ===== src/Msg/Kept.antt =====
-- A message builder keeps the buffer's size.
use u_mqttbroker.Base.{
  ℕ, ◌+◌, ◌-◌, ◌%◌, ◌/◌, ◌≡◌, refl, ◌∙◌, Option, none, some, List, [], ◌∷◌, if◌then◌else◌, ltb,
  ◌==◌, length, length-set, length-write, write, set, Bool-cases, inl, inr,
}
use u_mqttbroker.Msg.{
  Connection, MessageType, push, append_string, assign_id, append_message_id, init_message,
  fail_message, fini_message, first_byte, type_code,
}
use u_mqttbroker.Msg.Build.{msg_publish, with_id}

abbrev pub Same : Connection → Connection → Type 0
Same c c' = (c'.buffer_length ≡ c.buffer_length) × (length c'.buffer ≡ length c.buffer)

Same-trans : (c c' c'' : Connection) → Same c c' → Same c' c'' → Same c c''
Same-trans c c' c'' a b = (b.0 ∙ a.0, b.1 ∙ a.1)

fini_message-Same :
    (c : Connection) (type : MessageType) (dup qos retain : ℕ)
    → Same c (fini_message c type dup qos retain)
unfolding fini_message
fini_message-Same c type dup qos retain = elim (Bool-cases (ltb 127 (c.msg_length - 3))) [
  | inl e ↦ rw e (
    refl,
    length-set
          (set (set c.buffer 0 (first_byte (type_code type) dup qos retain)) 1
            (128 + (c.msg_length - 3) % 128))
          2 ((c.msg_length - 3) / 128 % 256)
        ∙ length-set (set c.buffer 0 (first_byte (type_code type) dup qos retain)) 1
            (128 + (c.msg_length - 3) % 128)
        ∙ length-set c.buffer 0 (first_byte (type_code type) dup qos retain),
  )
  | inr e ↦ rw e (
    refl,
    length-set (set c.buffer 1 (first_byte (type_code type) dup qos retain)) 2 (c.msg_length - 3)
        ∙ length-set c.buffer 1 (first_byte (type_code type) dup qos retain),
  )
]

append_string-Same : (c : Connection) (s : List ℕ) → Same c (append_string c s).1
unfolding append_string push
append_string-Same c s = elim (Bool-cases (ltb c.buffer_length (c.msg_length + length s + 2))) [
  | inl e ↦ rw e (refl, refl)
  | inr e ↦
      let b₁ = set c.buffer c.msg_length (length s / 256 % 256) in
      let b₂ = set b₁ (c.msg_length + 1) (length s % 256) in
      rw e (
        refl,
        length-write s b₂ (c.msg_length + 1 + 1)
            ∙ length-set b₁ (c.msg_length + 1) (length s % 256)
            ∙ length-set c.buffer c.msg_length (length s / 256 % 256),
      )
]

append_message_id-Same : (c : Connection) (n : ℕ) → Same c (append_message_id c n).1
unfolding append_message_id push
append_message_id-Same c n =
    let id = (assign_id 2 c.message_id n).1 in
    elim (Bool-cases (ltb c.buffer_length (c.msg_length + 2))) [
      | inl e ↦ rw e (refl, refl)
      | inr e ↦ rw e (
        refl,
        length-set (set c.buffer c.msg_length (id / 256)) (c.msg_length + 1) (id % 256)
            ∙ length-set c.buffer c.msg_length (id / 256),
      )
    ]

abbrev finish_publish : List ℕ → ℕ → ℕ → ℕ → Connection → Option ℕ × Connection
finish_publish content qos retain id c = (
  some id,
  if ltb c.buffer_length (c.msg_length + length content)
      then fail_message c
      else fini_message
          (record c {
            buffer = write c.buffer c.msg_length content;
            msg_length = c.msg_length + length content;
          })
          MessageType.publish 0 qos retain,
)

finish_publish-Same :
    (content : List ℕ) (qos retain id : ℕ) (c : Connection)
    → Same c (finish_publish content qos retain id c).1
unfolding fail_message
finish_publish-Same content qos retain id c =
    let c' = record c {
      buffer = write c.buffer c.msg_length content;
      msg_length = c.msg_length + length content;
    } in
    elim (Bool-cases (ltb c.buffer_length (c.msg_length + length content))) [
      | inl e ↦ rw e (refl, refl)
      | inr e ↦
          let f = fini_message-Same c' MessageType.publish 0 qos retain in
          rw e (f.0, f.1 ∙ length-write content c.buffer c.msg_length)
    ]

with_id-Same :
    (c : Connection) (r : ℕ × Connection) (k : ℕ → Connection → Option ℕ × Connection)
    → Same c r.1
    → ((id : ℕ) (c' : Connection) → Same c' (k id c').1)
    → Same c (with_id r k).1
unfolding fail_message
with_id-Same c (n, c') k s h = elim (Bool-cases (n == 0)) [
  | inl e ↦ rw e s
  | inr e ↦ let t = h n c' in rw e (t.0 ∙ s.0, t.1 ∙ s.1)
]

-- The lines of `mqtt_msg_publish` behind the topic.
behind_topic-Same :
    (c : Connection) (content : List ℕ) (qos retain : ℕ) (a : Option ℕ × Connection)
    → Same c a.1
    → Same c
        (elim a.0 as (λ n. Option ℕ × Connection) [
          | none ↦ (none, fail_message a.1)
          | some n ↦
              if ltb 0 qos
              then with_id (append_message_id a.1 0) (finish_publish content qos retain)
              else finish_publish content qos retain 0 a.1
        ]).1
unfolding fail_message
behind_topic-Same c content qos retain (none, a) s = s
behind_topic-Same c content qos retain (some n, a) s = elim (Bool-cases (ltb 0 qos)) [
  | inl q ↦ rw q (
      with_id-Same c (append_message_id a 0) (finish_publish content qos retain)
        (Same-trans c a (append_message_id a 0).1 s (append_message_id-Same a 0))
        (finish_publish-Same content qos retain))
  | inr q ↦ rw q (
      Same-trans c a (finish_publish content qos retain 0 a).1 s
        (finish_publish-Same content qos retain 0 a))
]

pub msg_publish-Same :
    (c : Connection) (topic : Option (List ℕ)) (content : List ℕ) (qos retain : ℕ)
    → Same c (msg_publish c topic content qos retain).1
unfolding msg_publish init_message fail_message
msg_publish-Same c none content qos retain = (refl, refl)
msg_publish-Same c (some []) content qos retain = (refl, refl)
msg_publish-Same c (some (x ∷ s)) content qos retain =
    let i = init_message c in
    behind_topic-Same c content qos retain (append_string i (x ∷ s)) (append_string-Same i (x ∷ s))
