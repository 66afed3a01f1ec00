-- ===== src/Ring/Refine.antt =====
-- A valid ring is a bounded FIFO of the bytes that it holds.
use u_mqttbroker.Base.{
  ℕ, zero, suc, ◌-◌, ◌≤◌, ◌<◌, ◌≡◌, ◌⊎◌, true, refl, ap, ap₂, List, [], ◌∷◌, ◌++◌, arith, length,
  get_or, set, get_or-set_self, get_or-set_ne, ltb, if◌then◌else◌,
}
use u_mqttbroker.Ring.{Rc, ok, fail, Ring, advance, put, get}
use u_mqttbroker.Ring.Inv.{offset, IsValid, put-IsValid}

-- The `n` bytes from the offset `p` on, going round at `size`.
module _ (buf : List ℕ) (size : ℕ) where
  abbrev pub window : ℕ → ℕ → List ℕ
  window p zero = []
  window p (suc n) = get_or buf p 0 ∷ window (advance size p) n

  length-window : (p n : ℕ) → length (window p n) ≡ n
  length-window p zero = refl
  length-window p (suc n) = ap suc (length-window (advance size p) n)

  window_pos : (p n : ℕ) → 0 < n → window p n ≡ get_or buf p 0 ∷ window (advance size p) (n - 1)
  window_pos p zero h = absurd (omega arith)
  window_pos p (suc n) h = ap (λ k. window p (suc k)) (omega arith)

-- What the ring holds, the oldest byte first.
abbrev pub contents : Ring → List ℕ
contents r = window r.buf r.size r.p_r r.fill_cnt

pub length-contents : (r : Ring) → length (contents r) ≡ r.fill_cnt
length-contents r = length-window r.buf r.size r.p_r r.fill_cnt

-- A write just past a window extends it.
window-set :
    (buf : List ℕ) (size x n p i : ℕ)
    → size ≤ length buf
    → p < size
    → n < size
    → i ≡ offset size p n
    → window (set buf i x) size p (suc n) ≡ window buf size p n ++ x ∷ []
window-set buf size x zero p i hs hp hn e =
    let here : i ≡ p = ground arith in rw (here, get_or-set_self buf p x 0 (omega arith))
window-set buf size x (suc n) p i hs hp hn e =
    ap₂ ◌∷◌ (get_or-set_ne buf x 0 (ground arith))
      (window-set buf size x n (advance size p) i hs (ground arith) (omega arith) (ground arith))

-- On a valid ring, a put appends its byte while there is room; on a full ring it fails and leaves
-- the ring as it was. The ring is valid behind it.
pub put_refines :
    (r : Ring) (c : ℕ)
    → IsValid r
    → let (rc, r') = put r c in
      (rc ≡ (if ltb r.fill_cnt r.size then ok else fail))
      × (contents r' ≡ (if ltb r.fill_cnt r.size then contents r ++ c ∷ [] else contents r))
      × IsValid r'
      × ((ltb r.fill_cnt r.size ≡ true) ⊎ (r' ≡ r))
unfolding put
put_refines r c v =
    let (rc, kept) : ((put r c).0 ≡ (if ltb r.fill_cnt r.size then ok else fail))
        × (contents (put r c).1
            ≡ (if ltb r.fill_cnt r.size then contents r ++ c ∷ [] else contents r)) =
      ground (arith, window-set r.buf r.size c r.fill_cnt r.p_r r.p_w) in
    (rc, kept, put-IsValid c v, ground arith)

-- The first byte and the rest, or nothing.
abbrev pub uncons : List ℕ → Rc × ℕ × List ℕ
uncons [] = (fail, 0, [])
uncons (x ∷ xs) = (ok, x, xs)

-- On a valid ring, a get takes the oldest byte; on an empty ring it fails.
pub get_refines :
    (r : Ring) → IsValid r → let (rc, c, r') = get r in (rc, c, contents r') ≡ uncons (contents r)
unfolding get
get_refines r v = ground (arith, window_pos r.buf r.size r.p_r r.fill_cnt)
