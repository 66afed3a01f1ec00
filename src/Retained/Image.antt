-- ===== src/Retained/Image.antt =====
-- `serialize_retainedtopics` and `deserialize_retainedtopics` of src/mqtt_retainedlist.c.
pub mod Layout
pub mod Save
pub mod Entry
pub mod Load
use u_mqttbroker.Base.{
  ℕ, zero, suc, ◌+◌, ◌-◌, ◌*◌, ◌/◌, ◌%◌, ◌^◌, Bool, true, false, not, ◌&&◌, ◌||◌, Option, none,
  some, List, [], ◌∷◌, ◌++◌, if◌then◌else◌, ltb, leb, ◌==◌, set, get_or, length, take, drop, write,
}
use u_mqttbroker.Proto.{u16}
use u_mqttbroker.Retained.{Slot, Store, Memory, Calls, update}

abbrev pub str_of : Option (List ℕ) → List ℕ
str_of o = elim o [ none ↦ [] | some t ↦ t ]

-- What a round writes for an entry, and where it ends. `pos` has 16 bits.
abbrev pub put_entry : List ℕ → List ℕ → ℕ → ℕ → ℕ → List ℕ → ℕ × List ℕ
put_entry topic content data_len qos pos buf =
    let buf₁ = write buf pos (topic ++ 0 ∷ []) in
    let pos₁ = u16 (pos + length topic + 1) in
    let buf₂ = set buf₁ pos₁ (data_len % 2 ^ 8) in
    let pos₂ = u16 (pos₁ + 1) in
    let buf₃ = set buf₂ pos₂ (data_len / 2 ^ 8 % 2 ^ 8) in
    let pos₃ = u16 (pos₂ + 1) in
    let buf₄ = write buf₃ pos₃ (take data_len content) in
    let pos₄ = u16 (pos₃ + data_len) in
    let buf₅ = set buf₄ pos₄ qos in let pos₅ = u16 (pos₄ + 1) in (pos₅, set buf₅ pos₅ 0)

-- Whether the buffer is too short for an entry; `len-1` is compared as an unsigned number.
abbrev pub is_over : ℕ → List ℕ → ℕ → ℕ → Bool
is_over len topic data_len pos =
    leb ((len + (2 ^ 32 - 1)) % 2 ^ 32) (pos + length topic + 4 + data_len + 1)

-- The loop of `serialize_retainedtopics`; `none` is `return 0`.
abbrev pub serialize_loop : ℕ → List Slot → ℕ → List ℕ → Option (ℕ × List ℕ)
serialize_loop len [] pos buf = some (pos, buf)
serialize_loop len (s ∷ slots) pos buf = elim s.topic [
  | none ↦ serialize_loop len slots pos buf
  | some t ↦
      let r = put_entry t (str_of s.content) s.data_len s.qos pos buf in
      let rest = serialize_loop len slots r.0 r.1 in
      if is_over len t s.data_len pos then none else rest
]

-- The result, and the buffer where a result other than 0 is given.
unfoldable pub serialize : Store → List ℕ → ℕ → ℕ × List ℕ
serialize s buf len = elim s.retained_list [
  | none ↦ (0, buf)
  | some slots ↦ elim (serialize_loop len slots 0 buf) [
    | none ↦ (0, buf)
    | some r ↦ if r.0 == 0 then (1, set r.1 0 0) else r
  ]
]

-- The string at the head of a memory; one that the memory's end cuts off ends there.
abbrev pub c_string : List ℕ → List ℕ
c_string [] = []
c_string (c ∷ s) = let rest = c_string s in if c == 0 then [] else c ∷ rest

abbrev pub after : Calls → Option (Bool × Store × Calls) → Option (Bool × Store × Calls)
after calls none = none
after calls (some r) = some (r.0, r.1, calls ++ r.2)

-- The loop of `deserialize_retainedtopics` on the `len` bytes of `buf`, from `pos` on: `none` when
-- the fuel runs out. `memory` says for each place what an update there gets. C leaves
-- open which read of `buf[pos++] + (buf[pos++] << 8)` is first: `left_first` is the compiler's
-- choice.
abbrev pub deserialize_loop :
    Bool → (ℕ → Memory) → ℕ → ℕ → List ℕ → Store → Option (Bool × Store × Calls)
deserialize_loop left_first memory zero pos buf s = none
deserialize_loop left_first memory (suc fuel) pos buf s =
    let len = length buf in
    let topic = c_string (drop pos buf) in
    let pos₁ = u16 (pos + length topic + 1) in
    let first = get_or buf pos₁ 0 in
    let second = get_or buf (u16 (pos₁ + 1)) 0 in
    let data_len = u16 (if left_first then first + second * 2 ^ 8 else second + first * 2 ^ 8) in
    let pos₂ = u16 (pos₁ + 2) in
    let content = take data_len (drop pos₂ buf) in
    let pos₃ = u16 (pos₂ + data_len) in
    let qos = get_or buf pos₃ 0 in
    let r = update (memory pos) s topic content qos in
    let rest = deserialize_loop left_first memory fuel (u16 (pos₃ + 1)) buf r.1 in
    if not (ltb pos len && not (get_or buf pos 0 == 0))
    then some (true, s, [])
    else if leb len pos₁
    then some (false, s, [])
    else if leb len pos₃
    then some (false, s, [])
    else if not r.0
    then some (false, r.1, r.2)
    else after r.2 rest

unfoldable pub deserialize :
    Bool → (ℕ → Memory) → ℕ → List ℕ → Store → Option (Bool × Store × Calls)
deserialize left_first memory fuel buf s = deserialize_loop left_first memory fuel 0 buf s
