-- ===== src/Proto/Tests.antt =====
-- Runs of the framing of messages.
use u_mqttbroker.Base.{
  ◌≡◌, ◌-◌, refl, true, false, [], ◌∷◌, ◌++◌, arith, if◌then◌else◌, leb, length, take, replicate,
}
use u_mqttbroker.Ring.{Ring}
use u_mqttbroker.Ring.Inv.{IsValid}
use u_mqttbroker.Ring.Refine.{contents}
use u_mqttbroker.Proto.{Parser, init, add_rb, parse_rb, minus_one}
use u_mqttbroker.Proto.Frame.{frame}
use u_mqttbroker.Proto.Sender.{add_rb_lem}
use u_mqttbroker.Proto.Flat.{parse_flat}
use u_mqttbroker.Proto.Receiver.{Agrees, parse_rb-Agrees}

-- an empty ring of eight bytes
abbrev ring : Ring
ring = record { buf = replicate 8 0; size = 8; p_r = 0; p_w = 0; fill_cnt = 0 }

ring-IsValid : IsValid ring
ring-IsValid = record {
  two = omega arith;
  storage = omega arith;
  read_in = omega arith;
  write_in = omega arith;
  filled = omega arith;
  written = refl;
}

abbrev stack : Parser
stack = record {
  buf = replicate 4 0;
  buf_size = 4;
  data_len = 9;
  is_esc = true;
  is_begin = true;
  callback = false;
  calls = 0;
}

add_rb_example :
    let (n, r') = add_rb ring (1 ∷ 0x7E ∷ []) in
    IsValid r'
    × (r'.size ≡ ring.size)
    × (contents r' ≡ contents ring ++ take (ring.size - ring.fill_cnt) (frame (1 ∷ 0x7E ∷ [])))
    × (n ≡ (
        if leb (length (frame (1 ∷ 0x7E ∷ []))) (ring.size - ring.fill_cnt)
        then length (frame (1 ∷ 0x7E ∷ []))
        else minus_one))
add_rb_example = add_rb_lem ring (1 ∷ 0x7E ∷ []) ring-IsValid (omega arith)

parse_rb_example :
    Agrees ring
      (parse_rb stack ring (replicate 4 0) 4)
      (parse_flat (init stack false (replicate 4 0) 4) (contents ring))
parse_rb_example = parse_rb-Agrees stack ring (replicate 4 0) 4 ring-IsValid
