-- ===== src/Ring/Inv.antt =====
-- The representation invariant of `RINGBUF`: no access leaves the storage.
use u_mqttbroker.Base.{
  ℕ, ◌+◌, ◌-◌, ◌≤◌, ◌<◌, ◌≡◌, some, List, if◌then◌else◌, ltb, arith, length, length-set,
}
use u_mqttbroker.Ring.{Ring, init, put, get}

-- Where the write pointer stands, `n` bytes after the offset `p`.
abbrev pub offset : ℕ → ℕ → ℕ → ℕ
offset size p n = if ltb (p + n) size then p + n else p + n - size

pub record IsValid (r : Ring) : Type 0 where
  pub two : 2 ≤ r.size
  pub storage : r.size ≤ length r.buf
  pub read_in : r.p_r < r.size
  pub write_in : r.p_w < r.size
  pub filled : r.fill_cnt ≤ r.size
  pub written : r.p_w ≡ offset r.size r.p_r r.fill_cnt

-- A fresh ring is valid and empty, if the storage holds `size` bytes.
pub init-IsValid :
    (s : List ℕ) (size : ℕ) {r : Ring}
    → size ≤ length s
    → init (some s) size ≡ some r
    → IsValid r × (r.fill_cnt ≡ 0) × (r.size ≡ size)
unfolding init
init-IsValid s size h e = grind arith

-- A put keeps a ring valid: its indices and its count in bounds, and the write index at the end of
-- the bytes.
pub put-IsValid : {r : Ring} (c : ℕ) → IsValid r → IsValid (put r c).1
unfolding put
put-IsValid {r} c v = ground (arith, length-set r.buf r.p_w c)

-- A get keeps a ring valid: its indices and its count in bounds, and the write index at the end of
-- the bytes.
pub get-IsValid : {r : Ring} → IsValid r → IsValid (get r).2
unfolding get
get-IsValid v = ground arith

pub size-put : (r : Ring) (c : ℕ) → (put r c).1.size ≡ r.size
unfolding put
size-put r c = ground arith

pub size-get : (r : Ring) → (get r).2.size ≡ r.size
unfolding get
size-get r = ground arith
