-- ===== src/Proto/Flat.antt =====
-- The parser on a list of bytes: what a frame leaves in the buffer, also behind a broken one.
use Prim.Native.Nat.{bit_xor}
use native.Mathlib.Numerals.{add-one}
use u_mqttbroker.Base.{
  ℕ, ◌+◌, ◌-◌, ◌≤◌, ◌<◌, ◌≡◌, refl, ap, true, false, min, List, [], ◌∷◌, ◌++◌, append-nil,
  append_assoc, arith, length, length-set, take, take-zero, take_pos, take-nil, take-set, set, ltb,
  ◌==◌, if◌then◌else◌, AllBytes,
}
use u_mqttbroker.Ring.{Rc, ok, fail}
use u_mqttbroker.Proto.{Parser, store, parse_byte, is_special}
use u_mqttbroker.Proto.Frame.{escape, frame, NoEnd, flip_twice}

-- The loop of `PROTO_ParseRb` over the bytes themselves; the list is what is left.
unfoldable pub parse_flat : Parser → List ℕ → Rc × Parser × List ℕ
parse_flat p [] = (fail, p, [])
parse_flat p (c ∷ cs) =
    let (done, p') = parse_byte p c in elim done [ ok ↦ (ok, p', cs) | fail ↦ parse_flat p' cs ]

store_all : Parser → List ℕ → Parser
store_all p [] = p
store_all p (b ∷ bs) = store_all (store p b) bs

abbrev finish : Parser → Parser
finish p = record p { calls = if p.callback then p.calls + 1 else p.calls; is_begin = false }

-- One byte of a packet, escaped or not, is stored.
parse_flat-special :
    (p : Parser) (b : ℕ) (rest : List ℕ)
    → b < 256
    → is_special b ≡ true
    → p.is_begin ≡ true
    → p.is_esc ≡ false
    → parse_flat p (0x7D ∷ bit_xor b 0x20 ∷ rest) ≡ parse_flat (store p b) rest
unfolding parse_flat parse_byte
parse_flat-special p b rest h s begin esc = ground (arith, flip_twice b h)

parse_flat-plain :
    (p : Parser) (b : ℕ) (rest : List ℕ)
    → is_special b ≡ false
    → p.is_begin ≡ true
    → p.is_esc ≡ false
    → parse_flat p (b ∷ rest) ≡ parse_flat (store p b) rest
unfolding parse_flat parse_byte
parse_flat-plain p b rest s begin esc = ground arith

store-flags :
    (p : Parser) (b : ℕ)
    → ((store p b).is_begin ≡ p.is_begin)
      × ((store p b).is_esc ≡ p.is_esc)
      × ((store p b).buf_size ≡ p.buf_size)
      × (length (store p b).buf ≡ length p.buf)
unfolding store
store-flags p b = ground (arith, length-set p.buf p.data_len b)

parse_flat-end : (p : Parser) (rest : List ℕ) → parse_flat p (0x7F ∷ rest) ≡ (ok, finish p, rest)
unfolding parse_flat parse_byte
parse_flat-end p rest = ground arith

parse_flat-escape :
    (p : Parser) (bs rest : List ℕ)
    → AllBytes bs
    → p.is_begin ≡ true
    → p.is_esc ≡ false
    → parse_flat p (escape bs ++ 0x7F ∷ rest) ≡ (ok, finish (store_all p bs), rest)
unfolding store_all
parse_flat-escape p [] rest a begin esc = parse_flat-end p rest
parse_flat-escape p (b ∷ bs) rest a begin esc = ground (
  arith,
  parse_flat-special p b (escape bs ++ 0x7F ∷ rest),
  parse_flat-plain p b (escape bs ++ 0x7F ∷ rest),
  store-flags p b,
  parse_flat-escape (store p b) bs rest a.1,
)

-- The parser's buffer is large enough, and holds `data_len` bytes.
pub record IsRoomy (p : Parser) : Type 0 where
  pub stored : p.data_len ≤ p.buf_size
  pub roomy : p.buf_size ≤ length p.buf

-- What the buffer holds.
abbrev pub held : Parser → List ℕ
held p = take p.data_len p.buf

store-held :
    (p : Parser) (b : ℕ)
    → IsRoomy p
    → IsRoomy (store p b)
      × (held (store p b) ≡ (if ltb p.data_len p.buf_size then held p ++ b ∷ [] else held p))
      × ((store p b).data_len ≡ (if ltb p.data_len p.buf_size then p.data_len + 1 else p.data_len))
      × ((store p b).buf_size ≡ p.buf_size)
unfolding store
store-held p b v = ground (
  arith,
  length-set p.buf p.data_len b,
  take-set p.data_len b p.buf,
  ap (λ k. take k (set p.buf p.data_len b)) (add-one p.data_len),
)

-- A packet is stored up to the size of the buffer.
store_all-held :
    (p : Parser) (bs : List ℕ)
    → IsRoomy p
    → IsRoomy (store_all p bs)
      × (held (store_all p bs) ≡ held p ++ take (p.buf_size - p.data_len) bs)
      × ((store_all p bs).data_len ≡ min (p.data_len + length bs) p.buf_size)
unfolding store_all
store_all-held p [] v = ground (arith, take-nil ℕ (p.buf_size - p.data_len), append-nil (held p))
store_all-held p (b ∷ bs) v = ground (
  arith,
  store-held p b v,
  store_all-held (store p b) bs,
  take_pos (p.buf_size - p.data_len) b bs,
  take-zero (p.buf_size - p.data_len) (b ∷ bs),
  take-zero (p.buf_size - p.data_len) bs,
  append_assoc (held p) (b ∷ []) (take (p.buf_size - p.data_len - 1) bs),
)

-- A buffer of the announced size.
abbrev pub IsSized : Parser → Type 0
IsSized p = p.buf_size ≤ length p.buf

parse_byte-step :
    (p : Parser) (b : ℕ)
    → (b == 0x7F) ≡ false
    → let (done, p') = parse_byte p b in
      (done ≡ fail) × (length p'.buf ≡ length p.buf) × (p'.buf_size ≡ p.buf_size)
unfolding parse_byte
parse_byte-step p b h =
    ground (arith, store-flags p b, store-flags (record p { is_esc = false }) (bit_xor b 0x20))

-- A broken frame alone is drained, and nothing is found.
pub parse_flat-drained :
    (p : Parser) (junk : List ℕ) → NoEnd junk → (p' : Parser) × (parse_flat p junk ≡ (fail, p', []))
unfolding parse_flat
parse_flat-drained p [] h = (p, refl)
parse_flat-drained p (b ∷ junk) h =
    let (p', e) = parse_flat-drained (parse_byte p b).1 junk h.1 in
    (p', ground (arith, parse_byte-step p b, e))

-- Whatever stands before it, the start of a frame resets the parser.
record Begins (p : Parser) (junk xs : List ℕ) : Type 0 where
  begun : Parser
  reached : parse_flat p (junk ++ 0x7E ∷ xs) ≡ parse_flat begun xs
  sized : IsSized begun
  empty : begun.data_len ≡ 0
  plain : begun.is_esc ≡ false
  begin : begun.is_begin ≡ true
  same : begun.buf_size ≡ p.buf_size

Begins-start : (p : Parser) (xs : List ℕ) → IsSized p → Begins p [] xs
unfolding parse_flat parse_byte
Begins-start p xs v = record {
  begun = record p { data_len = 0; is_esc = false; is_begin = true };
  reached = refl;
  sized = v;
  empty = refl;
  plain = refl;
  begin = refl;
  same = refl;
}

Begins-step :
    (p : Parser) (b : ℕ) (junk xs : List ℕ)
    → (b == 0x7F) ≡ false
    → Begins (parse_byte p b).1 junk xs
    → Begins p (b ∷ junk) xs
unfolding parse_flat
Begins-step p b junk xs h r = record {
  begun = r.begun;
  reached = ground (arith, parse_byte-step p b, r.reached);
  sized = r.sized;
  empty = r.empty;
  plain = r.plain;
  begin = r.begin;
  same = ground (arith, parse_byte-step p b, r.same);
}

Begins-all : (p : Parser) (junk xs : List ℕ) → NoEnd junk → IsSized p → Begins p junk xs
Begins-all p [] xs h v = Begins-start p xs v
Begins-all p (b ∷ junk) xs h v =
    Begins-step p b junk xs h.0
      (Begins-all (parse_byte p b).1 junk xs h.1 (ground (arith, parse_byte-step p b)))

-- Behind any bytes without an end of frame, the frame of bytes yields its packet, up to the
-- buffer's size, and leaves what follows the frame.
pub parse_flat-frame :
    (p : Parser) (junk bs rest : List ℕ)
    → NoEnd junk
    → AllBytes bs
    → IsSized p
    → (p' : Parser) × (parse_flat p (junk ++ (frame bs ++ rest)) ≡ (ok, p', rest))
      × (held p' ≡ take p.buf_size bs)
      × (p'.data_len ≡ min (length bs) p.buf_size)
parse_flat-frame p junk bs rest h a v =
    let r = Begins-all p junk (escape bs ++ 0x7F ∷ rest) h v in
    let s = store_all-held r.begun bs (ground (arith, r.empty, r.sized)) in
    (
      finish (store_all r.begun bs),
      ground (
        arith,
        append_assoc (escape bs) (0x7F ∷ []) rest,
        r.reached,
        parse_flat-escape r.begun bs rest a r.begin r.plain,
      ),
      ground (arith, s, r.same, r.empty),
      ground (arith, s, r.same, r.empty),
    )
