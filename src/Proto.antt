-- ===== src/Proto.antt =====
-- src/proto.c: frames on a byte stream. A frame is 0x7E, the packet with 0x7D, 0x7E and 0x7F
-- escaped, and 0x7F. `U8` flags are `Bool`; an `I16` result is its bit pattern below 2 ^ 16.
pub mod Frame
pub mod Sender
pub mod Receiver
pub mod Flat
mod Tests
use Prim.Native.Nat.{bit_xor}
use u_mqttbroker.Base.{
  ℕ, zero, suc, ◌+◌, ◌-◌, ◌*◌, ◌%◌, ◌^◌, Bool, true, false, ◌||◌, Option, none, some, List, [], ◌∷◌,
  if◌then◌else◌, ltb, ◌==◌, set, get_or, drop,
}
use u_mqttbroker.Ring.{Rc, ok, fail, Ring}
use u_mqttbroker.Ring

-- `callback` tells whether it is not NULL, and `calls` counts its calls.
pub record Parser : Type 0 where
  pub buf : List ℕ
  pub buf_size : ℕ
  pub data_len : ℕ
  pub is_esc : Bool
  pub is_begin : Bool
  pub callback : Bool
  pub calls : ℕ

-- `isBegin` stays what it was.
unfoldable pub init : Parser → Bool → List ℕ → ℕ → Parser
init parser complete_callback buf buf_size = record parser {
  buf = buf;
  buf_size = buf_size;
  data_len = 0;
  callback = complete_callback;
  is_esc = false;
}

-- The default case of the switch, for a byte that may be escaped.
unfoldable pub store : Parser → ℕ → Parser
store parser value =
    if ltb parser.data_len parser.buf_size
    then record parser {
      buf = set parser.buf parser.data_len value;
      data_len = parser.data_len + 1;
    }
    else parser

unfoldable pub parse_byte : Parser → ℕ → Rc × Parser
unfolding store
parse_byte parser value =
    if value == 0x7D
    then (fail, record parser { is_esc = true })
    else if value == 0x7E
    then (fail, record parser { data_len = 0; is_esc = false; is_begin = true })
    else if value == 0x7F
    then (
      ok,
      record parser {
        calls = if parser.callback then parser.calls + 1 else parser.calls;
        is_begin = false;
      },
    )
    else if parser.is_begin
    then (
      fail,
      if parser.is_esc
          then store (record parser { is_esc = false }) (bit_xor value 0x20)
          else store parser value,
    )
    else (fail, parser)

-- `PROTO_Parse`, which returns 0: the list is the `len` bytes at `buf`.
unfoldable pub parse : Parser → List ℕ → Parser
parse parser [] = parser
parse parser (value ∷ rest) = parse (parse_byte parser value).1 rest

-- What `PROTO_ParseRb` leaves: `*len` (`none` where it is not written), the bytes at `bufOut`, the
-- ring.
pub record Parsed : Type 0 where
  pub rc : Rc
  pub len : Option ℕ
  pub buf_out : List ℕ
  pub rb : Ring

-- The loop over `RINGBUF_Get`; each round takes a byte, so `fill_cnt` rounds are enough fuel.
unfoldable pub parse_rb_loop : ℕ → Parser → Ring → Parsed
parse_rb_loop zero proto rb = record {
  rc = fail;
  len = none;
  buf_out = proto.buf;
  rb = (Ring.get rb).2;
}
parse_rb_loop (suc fuel) proto rb =
    let (rc, c, rb') = Ring.get rb in
    let (done, proto') = parse_byte proto c in
    elim rc [
      | fail ↦ record { rc = fail; len = none; buf_out = proto.buf; rb = rb' }
      | ok ↦ elim done [
        | ok ↦ record { rc = ok; len = some proto'.data_len; buf_out = proto'.buf; rb = rb' }
        | fail ↦ parse_rb_loop fuel proto' rb'
      ]
    ]

-- `proto` is the parser on the stack, with whatever is there.
unfoldable pub parse_rb : Parser → Ring → List ℕ → ℕ → Parsed
unfolding init
parse_rb proto rb buf_out max_buf_len =
    parse_rb_loop rb.fill_cnt (init proto false buf_out max_buf_len) rb

-- The bytes that are sent behind an escape.
abbrev pub is_special : ℕ → Bool
is_special b = (b == 0x7D) || ((b == 0x7E) || (b == 0x7F))

-- -1 as an `I16`.
abbrev pub minus_one : ℕ
minus_one = 0xFFFF

abbrev pub u16 : ℕ → ℕ
u16 n = n % 2 ^ 16

-- `while (len--)` of `PROTO_AddRb`: the list is the rest of the packet.
unfoldable pub add_rb_loop : Ring → List ℕ → ℕ → ℕ × Ring
add_rb_loop rb [] i =
    let (rc, rb') = Ring.put rb 0x7F in elim rc [ fail ↦ (minus_one, rb') | ok ↦ (i, rb') ]
add_rb_loop rb (b ∷ packet) i = elim (is_special b) [
  | true ↦
      let (rc, rb') = Ring.put rb 0x7D in
      let (rc', rb'') = Ring.put rb' (bit_xor b 0x20) in
      elim rc [
        | fail ↦ (minus_one, rb')
        | ok ↦ elim rc' [ fail ↦ (minus_one, rb'') | ok ↦ add_rb_loop rb'' packet (u16 (i + 2)) ]
      ]
  | false ↦
      let (rc, rb') = Ring.put rb b in
      elim rc [ fail ↦ (minus_one, rb') | ok ↦ add_rb_loop rb' packet (u16 (i + 1)) ]
]

unfoldable pub add_rb : Ring → List ℕ → ℕ × Ring
unfolding add_rb_loop
add_rb rb packet =
    let (rc, rb') = Ring.put rb 0x7E in
    elim rc [ fail ↦ (minus_one, rb') | ok ↦ add_rb_loop rb' packet 2 ]

-- `while (len--)` of `PROTO_Add`: the rounds left, the buffer, the offset of `buf` in it,
-- `bufSize`, the bytes at `packet` (0 past its end), `i`.
unfoldable pub add_loop : ℕ → List ℕ → ℕ → ℕ → List ℕ → ℕ → ℕ × List ℕ
add_loop zero buf at size packet i = if ltb size 1 then (minus_one, buf) else (i, set buf at 0x7F)
add_loop (suc len) buf at size packet i =
    let b = get_or packet 0 0 in
    elim (is_special b) [
      | true ↦ elim (ltb size 2) [
        | true ↦ (minus_one, buf)
        | false ↦
            add_loop len (set (set buf at 0x7D) (at + 1) (bit_xor b 0x20)) (at + 2) (size - 2)
              (drop 1 packet) (u16 (i + 2))
      ]
      | false ↦ elim (ltb size 1) [
        | true ↦ (minus_one, buf)
        | false ↦ add_loop len (set buf at b) (at + 1) (size - 1) (drop 1 packet) (u16 (i + 1))
      ]
    ]

-- The length is read, little endian, from the first two bytes of the packet.
unfoldable pub add : List ℕ → List ℕ → ℕ → ℕ × List ℕ
unfolding add_loop
add buf packet buf_size =
    if ltb buf_size 1
    then (minus_one, buf)
    else add_loop (get_or packet 0 0 + 256 * get_or packet 1 0) (set buf 0 0x7E) 1 (buf_size - 1)
        packet 2
