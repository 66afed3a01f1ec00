-- ===== src/Ring.antt =====
-- src/ringbuf_mqtt.c: a ring buffer of bytes over caller-provided storage. The pointers `p_r` and
-- `p_w` are offsets from `p_o`; `fill_cnt` and `size` are `I32` and never negative here. A function
-- that updates `*r` returns its status and the new ring.
pub mod Inv
pub mod Refine
mod Tests
use u_mqttbroker.Base.{
  ℕ, ◌+◌, ◌-◌, Bool, Option, none, some, List, if◌then◌else◌, leb, ltb, set, get_or,
}

-- The return codes 0 and -1.
pub data Rc : Type 0 where
  ok fail : Rc

pub record Ring : Type 0 where
  pub buf : List ℕ
  pub p_r : ℕ
  pub p_w : ℕ
  pub fill_cnt : ℕ
  pub size : ℕ

-- `none` is the return code -1, which leaves `*r` alone; a NULL `buf` is `none`.
unfoldable pub init : Option (List ℕ) → ℕ → Option Ring
init none size = none
init (some buf) size =
    if ltb size 2
    then none
    else some (record { buf = buf; p_r = 0; p_w = 0; fill_cnt = 0; size = size })

-- `p++; if (p >= p_o + size) p = p_o;`
abbrev pub advance : ℕ → ℕ → ℕ
advance size p = if leb size (p + 1) then 0 else p + 1

unfoldable pub put : Ring → ℕ → Rc × Ring
put r c = if leb r.size r.fill_cnt then (fail, r) else (
  ok,
  record r { fill_cnt = r.fill_cnt + 1; buf = set r.buf r.p_w c; p_w = advance r.size r.p_w },
)

-- The number is `*c` (0 where nothing is read).
unfoldable pub get : Ring → Rc × ℕ × Ring
get r = if leb r.fill_cnt 0 then (fail, 0, r) else (
  ok,
  get_or r.buf r.p_r 0,
  record r { fill_cnt = r.fill_cnt - 1; p_r = advance r.size r.p_r },
)
