-- ===== src/Ring/Tests.antt =====
-- Runs of the ring buffer.
use u_mqttbroker.Base.{◌≡◌, ◌⊎◌, true, refl, [], ◌∷◌, arith}
use u_mqttbroker.Ring.{ok, fail, Ring, put, get, init}
use u_mqttbroker.Ring.Inv.{IsValid, init-IsValid}
use u_mqttbroker.Ring.Refine.{contents, put_refines, get_refines, uncons}

-- 8, then 9, round the end of the storage
abbrev wrapped : Ring
wrapped = record { buf = 9 ∷ 7 ∷ 8 ∷ []; size = 3; p_r = 2; p_w = 1; fill_cnt = 2 }

wrapped-IsValid : IsValid wrapped
wrapped-IsValid = record {
  two = omega arith;
  storage = omega arith;
  read_in = omega arith;
  write_in = omega arith;
  filled = omega arith;
  written = refl;
}

full_then_empty : ((put (put wrapped 5).1 6).0 ≡ fail) × ((get wrapped).1 ≡ 8)
unfolding put get
full_then_empty = (refl, refl)

abbrev fresh : Ring
fresh = record { buf = 0 ∷ 0 ∷ 0 ∷ []; size = 3; p_r = 0; p_w = 0; fill_cnt = 0 }

init-IsValid_example : IsValid fresh × (fresh.fill_cnt ≡ 0) × (fresh.size ≡ 3)
unfolding init
init-IsValid_example = init-IsValid (0 ∷ 0 ∷ 0 ∷ []) 3 (omega arith) refl

put_refines_example :
    ((put wrapped 5).0 ≡ ok)
    × (contents (put wrapped 5).1 ≡ 8 ∷ 9 ∷ 5 ∷ [])
    × IsValid (put wrapped 5).1
    × ((true ≡ true) ⊎ ((put wrapped 5).1 ≡ wrapped))
put_refines_example = put_refines wrapped 5 wrapped-IsValid

get_refines_example :
    let (rc, c, r') = get wrapped in (rc, c, contents r') ≡ uncons (contents wrapped)
get_refines_example = get_refines wrapped wrapped-IsValid
