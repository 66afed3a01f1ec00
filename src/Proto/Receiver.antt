-- ===== src/Proto/Receiver.antt =====
-- `PROTO_ParseRb` on a ring does what the parser does on the bytes that the ring holds.
use u_mqttbroker.Base.{
  ℕ, zero, suc, ◌≤◌, ◌≡◌, refl, false, none, some, List, [], ◌∷◌, arith, length,
}
use u_mqttbroker.Ring.{Rc, ok, fail, Ring}
use u_mqttbroker.Ring
use u_mqttbroker.Ring.Inv.{IsValid, get-IsValid, size-get}
use u_mqttbroker.Ring.Refine.{contents, length-contents, get_refines}
use u_mqttbroker.Proto.{Parser, Parsed, init, parse_byte, parse_rb_loop, parse_rb}
use u_mqttbroker.Proto.Flat.{parse_flat}

-- `t` is what the parser's result `u` on the bytes of `r` comes to.
pub record Agrees (r : Ring) (t : Parsed) (u : Rc × Parser × List ℕ) : Type 0 where
  pub valid : IsValid t.rb
  pub size : t.rb.size ≡ r.size
  pub rest : contents t.rb ≡ u.2
  pub rc : t.rc ≡ u.0
  pub buf_out : t.buf_out ≡ u.1.buf
  pub len : t.len ≡ (elim u.0 [ ok ↦ some u.1.data_len | fail ↦ none ])

parse_rb_loop-Agrees :
    (fuel : ℕ) (p : Parser) (r : Ring) (xs : List ℕ)
    → IsValid r
    → contents r ≡ xs
    → length xs ≤ fuel
    → Agrees r (parse_rb_loop fuel p r) (parse_flat p xs)
unfolding parse_rb_loop parse_flat
parse_rb_loop-Agrees zero p r [] v e h = ground (arith, get_refines r v, get-IsValid v, size-get r)
parse_rb_loop-Agrees zero p r (x ∷ xs) v e h = absurd (omega arith)
parse_rb_loop-Agrees (suc fuel) p r [] v e h =
    ground (arith, get_refines r v, get-IsValid v, size-get r)
parse_rb_loop-Agrees (suc fuel) p r (x ∷ xs) v e h = ground (
  arith,
  get_refines r v,
  get-IsValid v,
  size-get r,
  parse_rb_loop-Agrees fuel (parse_byte p x).1 (Ring.get r).2 xs (get-IsValid v),
)

-- On a valid ring, the parser that reads byte after byte from it agrees with the parser of the
-- sequence of bytes that the ring holds: in its result, in the message and in what is left.
pub parse_rb-Agrees :
    (p : Parser) (r : Ring) (buf : List ℕ) (max_buf_len : ℕ)
    → IsValid r
    → Agrees r
        (parse_rb p r buf max_buf_len)
        (parse_flat (init p false buf max_buf_len) (contents r))
unfolding parse_rb
parse_rb-Agrees p r buf max_buf_len v =
    parse_rb_loop-Agrees r.fill_cnt (init p false buf max_buf_len) r (contents r) v refl
      (omega (arith, length-contents r))
