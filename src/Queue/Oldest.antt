-- ===== src/Queue/Oldest.antt =====
-- src/queue.c: a get of a queue that holds a message.
use u_mqttbroker.Base.{
  ℕ, ◌≤◌, ◌<◌, ◌≡◌, false, some, List, ◌∷◌, ◌++◌, arith, length, length-append, take, take_all, min,
}
use u_mqttbroker.Ring.Inv.{IsValid}
use u_mqttbroker.Ring.Refine.{contents, length-contents}
use u_mqttbroker.Proto.{Parser}
use u_mqttbroker.Proto.Frame.{frame}
use u_mqttbroker.Queue.{Queue, gets, is_empty}
use u_mqttbroker.Queue.Fifo.{Carries, next, gets-Carries}

Carries-pos : (bs m : List ℕ) (ms : List (List ℕ)) → Carries bs (m ∷ ms) → 0 < length bs
Carries-pos bs m ms (next _ junk _ rest _ h a e c) =
    rw e (omega (arith, length-append junk (frame m ++ rest)))

pub is_empty-Carries :
    (q : Queue) (m : List ℕ) (ms : List (List ℕ))
    → Carries (contents q.rb) (m ∷ ms)
    → is_empty q ≡ false
unfolding is_empty
is_empty-Carries q m ms c =
    let h = Carries-pos (contents q.rb) m ms c in ground (arith, h, length-contents q.rb)

-- A get into a buffer with room for the oldest message takes it out whole.
pub gets_oldest :
    (stack : Parser) (q : Queue) (buffer : List ℕ) (max_len : ℕ) (m : List ℕ) (ms : List (List ℕ))
    → IsValid q.rb
    → max_len ≤ length buffer
    → length m ≤ max_len
    → Carries (contents q.rb) (m ∷ ms)
    → let (t, q') = gets stack q buffer max_len in
      (t.len ≡ some (length m)) × (take (length m) t.buf_out ≡ m) × Carries (contents q'.rb) ms
gets_oldest stack q buffer max_len m ms v h l c =
    let (v', s', (rc, len, out), c') = gets-Carries stack q buffer max_len (m ∷ ms) v h c in
    let same : min (length m) max_len ≡ length m = omega (arith, l) in
    (rw same at len, (rw (same, take_all max_len m l) at out), c')
