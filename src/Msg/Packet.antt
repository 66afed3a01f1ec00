-- ===== src/Msg/Packet.antt =====
-- The bytes of an MQTT packet, and the buffer while a message is built up in it.
use u_mqttbroker.Base.{
  ℕ, suc, ◌+◌, ◌-◌, ◌/◌, ◌%◌, ◌^◌, ◌≤◌, ◌<◌, ◌≡◌, ◌≢◌, inl, inr, refl, false, none, some, List, [],
  ◌∷◌, ◌++◌, arith, if◌then◌else◌, ltb, ◌==◌, set, length, length-append, write, length-write,
  take-write, take, drop, get_or, Bool-cases,
}
use u_mqttbroker.Msg.{
  Connection, MessageType, type_code, append_string, append_message_id, assign_id, init_message,
  fail_message, fini_message, first_byte,
}

-- The remaining length in one or two bytes.
abbrev pub remaining : ℕ → List ℕ
remaining n = if ltb 127 n then (128 + n % 128) ∷ n / 128 ∷ [] else n ∷ []

abbrev pub packet : MessageType → ℕ → ℕ → ℕ → List ℕ → List ℕ
packet type dup qos retain payload =
    first_byte (type_code type) dup qos retain ∷ (remaining (length payload) ++ payload)

-- A string with its length in front.
abbrev pub string : List ℕ → List ℕ
string s = length s / 256 % 256 ∷ length s % 256 ∷ s

abbrev pub u16_bytes : ℕ → List ℕ
u16_bytes n = n / 256 ∷ n % 256 ∷ []

-- What a caller sends of a message: `length` bytes at `data`.
abbrev pub message_bytes : Connection → List ℕ
message_bytes c = take c.msg_length (drop c.msg_data c.buffer)

-- The buffer has the announced size, and a message in it fits two length bytes.
pub record IsReady (c : Connection) : Type 0 where
  pub header : 3 ≤ c.buffer_length
  pub storage : c.buffer_length ≤ length c.buffer
  pub short : c.buffer_length < 16384 + 3

-- Behind three bytes for the fixed header the payload so far has been written.
pub record IsOpen (c : Connection) (payload : List ℕ) : Type 0 where
  pub ready : IsReady c
  pub fits : c.msg_length ≤ c.buffer_length
  pub size : c.msg_length ≡ 3 + length payload
  pub h₀ : ℕ
  pub h₁ : ℕ
  pub h₂ : ℕ
  pub bytes : take c.msg_length c.buffer ≡ h₀ ∷ h₁ ∷ h₂ ∷ payload

take_three :
    (xs : List ℕ) → 3 ≤ length xs → take 3 xs ≡ get_or xs 0 0 ∷ get_or xs 1 0 ∷ get_or xs 2 0 ∷ []
take_three [] h = absurd (omega arith)
take_three (x ∷ []) h = absurd (omega arith)
take_three (x ∷ y ∷ []) h = absurd (omega arith)
take_three (x ∷ y ∷ z ∷ xs) h = refl

pub init_message-IsOpen : {c : Connection} → IsReady c → IsOpen (init_message c) []
unfolding init_message
init_message-IsOpen {c} r = record {
  ready = ground arith;
  fits = r.header;
  size = refl;
  h₀ = get_or c.buffer 0 0;
  h₁ = get_or c.buffer 1 0;
  h₂ = get_or c.buffer 2 0;
  bytes = take_three c.buffer (omega arith);
}

-- A write at the end of the message extends the payload.
pub write-IsOpen :
    {c : Connection} {payload : List ℕ} (bs : List ℕ) (n : ℕ)
    → IsOpen c payload
    → n ≡ c.msg_length + length bs
    → n ≤ c.buffer_length
    → IsOpen (record c { buffer = write c.buffer c.msg_length bs; msg_length = n }) (payload ++ bs)
write-IsOpen {c} {payload} bs n o e h = record {
  ready = record {
    header = o.ready.header;
    storage = omega (arith, length-write bs c.buffer c.msg_length, o.ready.storage);
    short = o.ready.short;
  };
  fits = h;
  size = omega (arith, o.size, length-append payload bs);
  h₀ = o.h₀;
  h₁ = o.h₁;
  h₂ = o.h₂;
  bytes = cc (take-write bs c.buffer c.msg_length n e (omega (arith, o.ready.storage)), o.bytes);
}

-- What `append_string` returns and leaves: the string behind the payload, if it fits.
pub append_string_lem :
    {c : Connection} {payload : List ℕ} (s : List ℕ)
    → IsOpen c payload
    → c.msg_length + length s + 2 ≤ c.buffer_length
    → ((append_string c s).0 ≡ some (length s + 2))
      × IsOpen (append_string c s).1 (payload ++ string s)
      × ((append_string c s).1.buffer_length ≡ c.buffer_length)
      × ((append_string c s).1.message_id ≡ c.message_id)
unfolding append_string
append_string_lem {c} {payload} s o h =
    let t : ltb c.buffer_length (c.msg_length + length s + 2) ≡ false = ground arith in
    rw t (
      refl,
      write-IsOpen (string s) (c.msg_length + 1 + 1 + length s) o (omega arith) (omega arith),
      refl,
      refl,
    )

pub append_string_full :
    (c : Connection) (s : List ℕ)
    → c.buffer_length < c.msg_length + length s + 2
    → append_string c s ≡ (none, c)
unfolding append_string
append_string_full c s h = ground arith

-- The id that a message gets: the caller's, or the next of the counter, which leaves out 0.
abbrev pub next_id : ℕ → ℕ
next_id counter = if (counter + 1) % 2 ^ 16 == 0 then 1 else (counter + 1) % 2 ^ 16

abbrev pub given_id : ℕ → ℕ → ℕ
given_id counter id = if id == 0 then next_id counter else id

assign_id_lem : (counter id : ℕ) → (assign_id 2 counter id).1 ≡ given_id counter id
unfolding assign_id
assign_id_lem counter id = ground arith

pub given_id-ne-zero : (counter id : ℕ) → given_id counter id ≢ 0
given_id-ne-zero counter id = ground arith

IsOpen-counter :
    {c : Connection} {payload : List ℕ} (n : ℕ)
    → IsOpen c payload
    → IsOpen (record c { message_id = n }) payload
IsOpen-counter n o = record {
  ready = record { header = o.ready.header; storage = o.ready.storage; short = o.ready.short };
  fits = o.fits;
  size = o.size;
  h₀ = o.h₀;
  h₁ = o.h₁;
  h₂ = o.h₂;
  bytes = o.bytes;
}

-- What `append_message_id` returns and leaves: the id behind the payload, if it fits, and 0 if not.
pub append_message_id_lem :
    {c : Connection} {payload : List ℕ} (id : ℕ)
    → IsOpen c payload
    → c.msg_length + 2 ≤ c.buffer_length
    → ((append_message_id c id).0 ≡ given_id c.message_id id)
      × IsOpen (append_message_id c id).1 (payload ++ u16_bytes (given_id c.message_id id))
      × ((append_message_id c id).1.buffer_length ≡ c.buffer_length)
      × ((append_message_id c id).1.msg_length ≡ c.msg_length + 2)
unfolding append_message_id
append_message_id_lem {c} {payload} id o h =
    let t : ltb c.buffer_length (c.msg_length + 2) ≡ false = ground arith in
    let a = assign_id 2 c.message_id id in
    rw (t, ← assign_id_lem c.message_id id)
      (
        refl,
        write-IsOpen (u16_bytes a.1) (c.msg_length + 1 + 1) (IsOpen-counter a.0 o) (omega arith)
            (omega arith),
        refl,
        omega arith,
      )

pub append_message_id_full :
    (c : Connection) (id : ℕ) → c.buffer_length < c.msg_length + 2 → (append_message_id c id).0 ≡ 0
unfolding append_message_id
append_message_id_full c id h = ground arith

-- A message that failed is empty.
pub fail_message_lem : (c : Connection) → message_bytes (fail_message c) ≡ []
unfolding fail_message
fail_message_lem c = refl

-- The two ways to write a fixed header over the three bytes that were left for it.
long_header :
    (buf payload : List ℕ) {h₀ h₁ h₂ : ℕ} (a b d n : ℕ)
    → take (suc (suc (suc n))) buf ≡ h₀ ∷ h₁ ∷ h₂ ∷ payload
    → take (suc (suc (suc n))) (set (set (set buf 0 a) 1 b) 2 d) ≡ a ∷ b ∷ d ∷ payload
long_header [] payload a b d n e = cc
long_header (x ∷ []) payload a b d n e = cc
long_header (x ∷ y ∷ []) payload a b d n e = cc
long_header (x ∷ y ∷ z ∷ buf) payload a b d n e = cc

short_header :
    (buf payload : List ℕ) {h₀ h₁ h₂ : ℕ} (a b n : ℕ)
    → take (suc (suc (suc n))) buf ≡ h₀ ∷ h₁ ∷ h₂ ∷ payload
    → take (suc (suc n)) (drop 1 (set (set buf 1 a) 2 b)) ≡ a ∷ b ∷ payload
short_header [] payload a b n e = cc
short_header (x ∷ []) payload a b n e = cc
short_header (x ∷ y ∷ []) payload a b n e = cc
short_header (x ∷ y ∷ z ∷ buf) payload a b n e = cc

-- `fini_message` puts the fixed header in front of the payload.
pub fini_message_lem :
    {c : Connection} {payload : List ℕ} (type : MessageType) (dup qos retain : ℕ)
    → IsOpen c payload
    → message_bytes (fini_message c type dup qos retain) ≡ packet type dup qos retain payload
unfolding fini_message
fini_message_lem {c} {payload} type dup qos retain o =
    let n = length payload in
    let first = first_byte (type_code type) dup qos retain in
    let e : take (suc (suc (suc n))) c.buffer ≡ o.h₀ ∷ o.h₁ ∷ o.h₂ ∷ payload = whole in
    let m : c.msg_length - 3 ≡ n = omega (arith, o.size) in
    elim (Bool-cases (ltb 127 n)) [
      | inl long ↦
          let k : (n + 3) % 2 ^ 16 ≡ suc (suc (suc n)) =
            omega (arith, o.size, o.fits, o.ready.short) in
          let d : n / 128 % 256 ≡ n / 128 = omega (arith, o.size, o.fits, o.ready.short) in
          rw (m, long, k, d) (long_header c.buffer payload first (128 + n % 128) (n / 128) n e)
      | inr short ↦
          let k : n + 2 ≡ suc (suc n) = omega arith in
          rw (m, short, k) (short_header c.buffer payload first n n e)
    ]
  where
    whole : take (suc (suc (suc (length payload)))) c.buffer ≡ o.h₀ ∷ o.h₁ ∷ o.h₂ ∷ payload
    whole =
        let e : c.msg_length ≡ suc (suc (suc (length payload))) = omega (arith, o.size) in
        rw (← e) o.bytes
