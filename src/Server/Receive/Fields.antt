-- ===== src/Server/Receive/Fields.antt =====
-- src/mqtt_server.cpp, MQTT_ClientCon_recv_cb: the strings of a CONNECT are read inside the message.
use u_mqttbroker.Base.{
  ℕ, ◌+◌, ◌-◌, ◌%◌, ◌^◌, ◌≤◌, ◌≡◌, ◌≢◌, ◌⊎◌, inl, inr, refl, subst, Option, none, some, List, arith,
  ltb, leb, ltb→le, length, drop, ◌∙◌, length-take, length-drop, Bool-cases,
}
use u_mqttbroker.Msg.Read.{get_str, get_u16}
use u_mqttbroker.Server.{ConnectInfo, Inbound, mqtt_buf_size}
use u_mqttbroker.Server.Receive.Steps.{Reads, read_client_id-Reads, read_rest-Reads}
use u_mqttbroker.Server.Receive.Bounds.{length-adapt}
use u_mqttbroker.Server.Receive.Connect.{
  ConnectMemory, Auth, is_protocol, mqtt, mqisdp, adapt, connect_header, bytes_left, next_str,
  read_client_id, read_rest,
}

-- What was read so far lies in the message, with its fixed header of two bytes.
abbrev pub IsInside : ℕ → ℕ → Type 0
IsInside n used = 2 + used ≤ n

-- A string that is found has the length that the message states, and ends in the message.
abbrev pub IsWhole : ℕ → ℕ → Option (ℕ × List ℕ) → Type 0
IsWhole n used none = Unit {0}
IsWhole n used (some (len, s)) = (length s ≡ len) × (2 + used + 2 + len ≤ n)

bytes_left_lem :
    (inb : Inbound) (used : ℕ)
    → inb.message_length ≤ mqtt_buf_size
    → 2 + used ≤ inb.message_length
    → bytes_left inb used ≡ inb.message_length - (2 + used)
bytes_left_lem inb used m h = omega (arith, m, h)

get_str-cases :
    (buffer : List ℕ) (n : ℕ)
    → (get_str buffer n ≡ none) ⊎ ((len : ℕ) × (get_str buffer n ≡ some (2, len)) × (2 + len ≤ n))
unfolding get_str
get_str-cases buffer n = elim (Bool-cases (leb n 2)) [
  | inl short ↦ rw (get_str, short) (inl refl)
  | inr long ↦ elim (Bool-cases (ltb n (2 + get_u16 buffer 0))) [
    | inl out ↦ rw (get_str, long, out) (inl refl)
    | inr fits ↦ rw (get_str, long, fits) (inr (get_u16 buffer 0, refl, ltb→le _ _ fits))
  ]
]

pub next_str-IsWhole :
    (inb : Inbound) (used : ℕ)
    → length inb.in_buffer ≡ mqtt_buf_size
    → inb.message_length ≤ mqtt_buf_size
    → 2 + used ≤ inb.message_length
    → IsWhole inb.message_length used (next_str inb used)
next_str-IsWhole inb used l m h =
    elim (get_str-cases (drop (2 + used) inb.in_buffer) (bytes_left inb used)) [
      | inl n ↦ rw (next_str, n) tt
      | inr (len, n, f) ↦
          let fits : 2 + used + 2 + len ≤ inb.message_length =
            omega (arith, f, bytes_left_lem inb used m h) in
          rw (next_str, n)
            (
              omega (
                arith,
                length-take len (drop (2 + used + 2) inb.in_buffer),
                length-drop (2 + used + 2) inb.in_buffer,
                l,
                m,
                fits,
              ),
              fits,
            )
    ]

-- What follows a string begins inside the message.
after_str :
    (inb : Inbound)
    → length inb.in_buffer ≡ mqtt_buf_size
    → inb.message_length ≤ mqtt_buf_size
    → (used : ℕ) (s : ℕ × List ℕ) → IsInside inb.message_length used
    → next_str inb used ≡ some s
    → IsInside inb.message_length ((used + 2 + s.0) % 2 ^ 16)
after_str inb l m used s h n =
    let w = subst (IsWhole inb.message_length used) n (next_str-IsWhole inb used l m h) in
    omega (arith, w.1, m)

none_ne_some : (h : List ℕ × ℕ × ℕ) → none ≢ some h
none_ne_some h e = cc

-- Behind the variable header the buffer has its size, and the payload begins inside the message: a
-- message has 13 bytes or more, and 14 where its version is 3.
connect_header-IsInside :
    (buffer : List ℕ) (h : List ℕ × ℕ × ℕ) (n : ℕ)
    → connect_header buffer ≡ some h
    → 13 ≤ n
    → (h.1 ≡ 4) ⊎ (14 ≤ n)
    → (length h.0 ≡ length buffer) × IsInside n h.2
unfolding connect_header
connect_header-IsInside buffer h n e l v = elim (Bool-cases (is_protocol buffer mqtt 4)) [
  | inl m ↦ starts (buffer, 4, 10) (rw (connect_header, m) at e) (refl, omega (arith, l))
  | inr m ↦ elim (Bool-cases (is_protocol buffer mqisdp 3)) [
    | inl m' ↦
        let e' : some (adapt buffer, 3, 12) ≡ some h = rw (connect_header, m, m') at e in
        starts (adapt buffer, 3, 12) e'
          (
            length-adapt buffer,
            elim v [
              | inl four ↦ absurd (omega (arith, version (adapt buffer, 3, 12) e', four))
              | inr long ↦ omega (arith, long)
            ],
          )
    | inr m' ↦ absurd (none_ne_some h (rw (connect_header, m, m') at e))
  ]
]
  where
    starts :
        (k : List ℕ × ℕ × ℕ)
        → some k ≡ some h
        → (length k.0 ≡ length buffer) × IsInside n k.2
        → (length h.0 ≡ length buffer) × IsInside n h.2
    starts k e p =
        let same : k ≡ h = cc in subst (λ x. (length x.0 ≡ length buffer) × IsInside n x.2) same p

    version : (k : List ℕ × ℕ × ℕ) → some k ≡ some h → h.1 ≡ k.1
    version k e = cc

-- For a message that fits in the buffer and begins with the variable header of a CONNECT, with 13
-- bytes or more, and 14 where its version is 3: the payload begins inside the message. From any
-- place inside it, a string that is found is whole and ends in the message. The parser of the
-- client id, and from any place inside the one of all that follows, goes on inside the message, and
-- a refusal never has the code for success.
pub fields-Reads :
    (inb : Inbound) (h : List ℕ × ℕ × ℕ) (memory : ConnectMemory) (auth : Option Auth) (pcon : ℕ)
    (info : ConnectInfo) (used : ℕ)
    → length inb.in_buffer ≡ mqtt_buf_size
    → 13 ≤ inb.message_length
    → inb.message_length ≤ mqtt_buf_size
    → connect_header inb.in_buffer ≡ some h
    → (h.1 ≡ 4) ⊎ (14 ≤ inb.message_length)
    → 2 + used ≤ inb.message_length
    → let inb' = record inb { in_buffer = h.0 } in
      (2 + h.2 ≤ inb.message_length)
      × Reads (IsInside inb.message_length) (read_client_id memory inb' h.1 info h.2)
      × IsWhole inb.message_length used (next_str inb' used)
      × Reads (IsInside inb.message_length) (read_rest memory auth pcon inb' info used)
fields-Reads inb h memory auth pcon info used l short m e v i =
    let at = IsInside inb.message_length in
    let inb' = record inb { in_buffer = h.0 } in
    let (l', start) = connect_header-IsInside inb.in_buffer h inb.message_length e short v in
    let after = after_str inb' (l' ∙ l) m in
    (
      start,
      read_client_id-Reads at inb' after memory h.1 info h.2 start,
      next_str-IsWhole inb' used (l' ∙ l) m i,
      read_rest-Reads at inb' after memory auth pcon info used i,
    )
