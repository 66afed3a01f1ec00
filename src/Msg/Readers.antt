-- ===== src/Msg/Readers.antt =====
-- The `mqtt_get_…` functions: no answer leaves the buffer, whatever is in it, and on the packets of
-- the `mqtt_msg_…` functions they give back what was put in.
use u_mqttbroker.Base.{
  ℕ, zero, suc, ◌+◌, ◌%◌, ◌≤◌, ◌<◌, ◌≡◌, ◌⊎◌, inl, inr, Option, none, some, List, ◌∷◌, ◌++◌,
  append_assoc, arith, ltb, leb, length, length-append, Bool-cases, take, drop, get_or-append,
  drop_more, take-append, ◌^◌,
}
use u_mqttbroker.Msg.{MessageType, type_code, first_byte}
use u_mqttbroker.Msg.Read.{
  get_type, get_dup, get_qos, get_retain, length_loop, read_length, get_total_length, get_u16,
  str_at, get_str, get_publish_topic, get_publish_data,
}
use u_mqttbroker.Msg.Packet.{packet, remaining, string}

-- A string that is found lies in the buffer.
abbrev pub IsWithin : ℕ → Option (ℕ × ℕ) → Type 0
IsWithin n none = Unit {0}
IsWithin n (some (i, len)) = i + len ≤ n

str_at-IsWithin : (buffer : List ℕ) (n i : ℕ) → IsWithin n (str_at buffer n i)
str_at-IsWithin buffer n i = elim (Bool-cases (leb n (i + 2))) [
  | inl short ↦ rw short tt
  | inr long ↦ rw long (elim (Bool-cases (ltb n (i + 2 + get_u16 buffer i))) [
    | inl out ↦ rw out tt
    | inr fits ↦ rw fits (ground arith)
  ])
]

data-within :
    (buffer : List ℕ) (n : ℕ)
    → let (data_at, len) = get_publish_data buffer n in
      ((data_at ≡ none) × (len ≡ 0)) ⊎ ((k : ℕ) × (data_at ≡ some k) × (k + len ≤ n))
unfolding get_publish_data
data-within buffer n = ground arith

-- Whatever the bytes are, the strings and the data that the readers find lie below the length that
-- they are given.
pub readers-IsWithin :
    (buffer : List ℕ) (n : ℕ)
    → IsWithin n (get_str buffer n)
      × IsWithin n (get_publish_topic buffer n)
      × let (data_at, len) = get_publish_data buffer n in
        ((data_at ≡ none) × (len ≡ 0)) ⊎ ((k : ℕ) × (data_at ≡ some k) × (k + len ≤ n))
unfolding get_str get_publish_topic
readers-IsWithin buffer n = (
  str_at-IsWithin buffer n 0,
  str_at-IsWithin buffer n (read_length buffer n).0,
  data-within buffer n,
)

-- The type, the DUP flag, the QoS and the RETAIN flag are read back from the first byte of a
-- packet.
pub first_byte_fields :
    (type : MessageType) (dup qos retain : ℕ) (payload rest : List ℕ)
    → let buffer = packet type dup qos retain payload ++ rest in
      (get_type buffer ≡ type_code type)
      × (get_dup buffer ≡ dup % 2)
      × (get_qos buffer ≡ qos % 4)
      × (get_retain buffer ≡ retain % 2)
unfolding get_type get_dup get_qos get_retain
first_byte_fields type dup qos retain payload rest =
    let t : type_code type < 16 = code-lt type in omega (arith, t)
  where
    code-lt : (t : MessageType) → type_code t < 16
    code-lt MessageType.connect = omega arith
    code-lt _ = omega arith

pub read_length_lem :
    (first n : ℕ) (rest : List ℕ) (len : ℕ)
    → n < 16384
    → 1 + length (remaining n) ≤ len
    → read_length (first ∷ (remaining n ++ rest)) len ≡ (suc (length (remaining n)), n)
unfolding length_loop
read_length_lem first n rest zero h l = absurd (omega arith)
read_length_lem first n rest (suc zero) h l = ground arith
read_length_lem first n rest (suc (suc zero)) h l = ground arith
read_length_lem first n rest (suc (suc (suc len))) h l = ground arith

-- The total length of a packet with less than 16384 bytes behind its header is read off the fixed
-- header alone, however much of the packet has arrived.
pub get_total_length_lem :
    (type : MessageType) (dup qos retain : ℕ) (payload rest : List ℕ) (len : ℕ)
    → length payload < 16384
    → 1 + length (remaining (length payload)) ≤ len
    → get_total_length (packet type dup qos retain payload ++ rest) len
      ≡ length (packet type dup qos retain payload)
unfolding get_total_length
get_total_length_lem type dup qos retain payload rest len h l =
    let n = length payload in
    let first = first_byte (type_code type) dup qos retain in
    ground (
      arith,
      read_length_lem first n (payload ++ rest) len h l,
      append_assoc (remaining n) payload rest,
      length-append (remaining n) payload,
    )

-- A string behind `pre`, and what follows.
pub get_u16-string :
    (pre s rest : List ℕ)
    → length s < 2 ^ 16
    → get_u16 (pre ++ (string s ++ rest)) (length pre) ≡ length s
get_u16-string pre s rest h =
    let buffer = string s ++ rest in
    omega (
      arith,
      get_or-append pre buffer (length pre) 0 0 (omega arith),
      get_or-append pre buffer (length pre + 1) 1 0 (omega arith),
    )

-- A string that ends below `n` is found, if it is not empty or something follows it.
pub str_at_lem :
    (pre s rest : List ℕ) (n : ℕ)
    → length s < 2 ^ 16
    → length pre + 2 < n
    → length pre + 2 + length s ≤ n
    → str_at (pre ++ (string s ++ rest)) n (length pre) ≡ some (length pre + 2, length s)
str_at_lem pre s rest n h a b = rw (get_u16-string pre s rest h) (ground arith)

pub string_there :
    (pre s rest : List ℕ) → take (length s) (drop (length pre + 2) (pre ++ (string s ++ rest))) ≡ s
string_there pre s rest =
    rw (drop_more pre (string s ++ rest) (length pre + 2) 2 (omega arith)) (take-append s rest)
