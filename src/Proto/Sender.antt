-- ===== src/Proto/Sender.antt =====
-- What `PROTO_AddRb` leaves in the ring, and what it returns.
use Prim.Native.Nat.{bit_xor}
use u_mqttbroker.Base.{
  ℕ, ◌+◌, ◌-◌, ◌^◌, ◌<◌, ◌≡◌, refl, ◌⊎◌, inl, inr, List, [], ◌∷◌, ◌++◌, append-nil, append_assoc,
  arith, length, length-append, take, take-zero, take_pos, take-nil, leb, ltb, if◌then◌else◌,
  Bool-cases,
}
use u_mqttbroker.Ring.{Rc, ok, fail, Ring}
use u_mqttbroker.Ring
use u_mqttbroker.Ring.Inv.{IsValid, put-IsValid, size-put}
use u_mqttbroker.Ring.Refine.{contents, length-contents, put_refines}
use u_mqttbroker.Proto.{minus_one, u16, add_rb_loop, add_rb}
use u_mqttbroker.Proto.Frame.{escape, frame}

-- Puts until one fails.
pub put_all : Ring → List ℕ → Rc × Ring
put_all r [] = (ok, r)
put_all r (b ∷ bs) =
    let (rc, r') = Ring.put r b in elim rc [ fail ↦ (fail, r') | ok ↦ put_all r' bs ]

abbrev free : Ring → ℕ
free r = r.size - r.fill_cnt

-- As many of the bytes as fit are appended; the call succeeds if all are.
pub record Appends (r : Ring) (bs : List ℕ) (rc : Rc) (r' : Ring) : Type 0 where
  pub valid : IsValid r'
  pub size : r'.size ≡ r.size
  pub bytes : contents r' ≡ contents r ++ take (r.size - r.fill_cnt) bs
  pub status : rc ≡ (if leb (length bs) (r.size - r.fill_cnt) then ok else fail)

Rc-cases : (rc : Rc) → (rc ≡ ok) ⊎ (rc ≡ fail)
Rc-cases ok = inl refl
Rc-cases fail = inr refl

pub put_all-Appends :
    (r : Ring) (bs : List ℕ) → IsValid r → Appends r bs (put_all r bs).0 (put_all r bs).1
unfolding put_all
put_all-Appends r [] v = record {
  valid = v;
  size = refl;
  bytes = rw (take-nil, append-nil) refl;
  status = ground arith;
}
put_all-Appends r (b ∷ bs) v = elim (Bool-cases (ltb r.fill_cnt r.size)) [
  | inl room ↦ ground (
    arith,
    put_refines r b v,
    put_all-Appends (Ring.put r b).1 bs (put-IsValid b v),
    size-put r b,
    length-contents r,
    length-contents (Ring.put r b).1,
    length-append (contents r) (b ∷ []),
    take_pos (r.size - r.fill_cnt) b bs,
    append_assoc (contents r) (b ∷ []) (take (r.size - r.fill_cnt - 1) bs),
  )
  | inr full ↦ ground (
    arith,
    put_refines r b v,
    put-IsValid b v,
    size-put r b,
    length-contents r,
    take-zero (r.size - r.fill_cnt) (b ∷ bs),
    append-nil (contents r),
  )
]

-- The loop puts the escaped packet and the end of the frame, and counts the bytes.
pub add_rb_loop-put_all :
    (r : Ring) (bs : List ℕ) (i : ℕ)
    → i < 2 ^ 16
    → let (rc, r') = put_all r (escape bs ++ 0x7F ∷ []) in
      add_rb_loop r bs i ≡ (elim rc [ ok ↦ u16 (i + length (escape bs)) | fail ↦ minus_one ], r')
unfolding add_rb_loop put_all
add_rb_loop-put_all r [] i h = ground arith
add_rb_loop-put_all r (b ∷ bs) i h = ground (
  arith,
  add_rb_loop-put_all (Ring.put r b).1 bs (u16 (i + 1)) (omega arith),
  add_rb_loop-put_all (Ring.put (Ring.put r 0x7D).1 (bit_xor b 0x20)).1 bs (u16 (i + 2))
      (omega arith),
)

add_rb-put_all :
    (r : Ring) (bs : List ℕ)
    → let (rc, r') = put_all r (frame bs) in
      add_rb r bs ≡ (elim rc [ ok ↦ u16 (2 + length (escape bs)) | fail ↦ minus_one ], r')
unfolding add_rb put_all
add_rb-put_all r bs = ground (arith, add_rb_loop-put_all (Ring.put r 0x7E).1 bs 2 (omega arith))

pub length-frame : (bs : List ℕ) → length (frame bs) ≡ 2 + length (escape bs)
length-frame bs = omega (arith, length-append (escape bs) (0x7F ∷ []))

-- On a valid ring below 0xFFFF bytes, as much of the frame as there is room for is appended. The
-- call returns the length of the frame if all of it is, and -1 otherwise. The ring stays valid.
pub add_rb_lem :
    (r : Ring) (bs : List ℕ)
    → IsValid r
    → r.size < minus_one
    → let (n, r') = add_rb r bs in
      IsValid r'
      × (r'.size ≡ r.size)
      × (contents r' ≡ contents r ++ take (r.size - r.fill_cnt) (frame bs))
      × (n ≡ (
          if leb (length (frame bs)) (r.size - r.fill_cnt) then length (frame bs) else minus_one))
add_rb_lem r bs v h =
    ground (arith, add_rb-put_all r bs, put_all-Appends r (frame bs) v, length-frame bs)
