-- ===== src/Queue/History.antt =====
-- Any sequence of calls of a queue: what is taken out is what was put in, in order.
use u_mqttbroker.Base.{
  ℕ, ◌≤◌, ◌<◌, ◌≡◌, sym, subst, ◌∙◌, inl, inr, none, some, List, [], ◌∷◌, ◌++◌, append-nil,
  append_assoc, arith, length, take, take_all, drop, if◌then◌else◌, AllBytes, Bool-cases, ◌==◌,
}
use u_mqttbroker.Ring.Inv.{IsValid}
use u_mqttbroker.Ring.Refine.{contents}
use u_mqttbroker.Proto.{Parser, Parsed, minus_one}
use u_mqttbroker.Queue.{Queue, puts, gets}
use u_mqttbroker.Queue.Fifo.{Carries, Delivers, puts-Carries, gets-Carries}

pub data Op : Type 0 where
  put : List ℕ → Op
  get : Op

abbrev pub IsShort : ℕ → List ℕ → Type 0
IsShort max_len m = AllBytes m × (length m ≤ max_len)

abbrev pub AllShort : ℕ → List (List ℕ) → Type 0
AllShort max_len [] = Unit {0}
AllShort max_len (m ∷ ms) = IsShort max_len m × AllShort max_len ms

abbrev pub Sends : ℕ → List Op → Type 0
Sends max_len [] = Unit {0}
Sends max_len (put m ∷ ops) = IsShort max_len m × Sends max_len ops
Sends max_len (get ∷ ops) = Sends max_len ops

-- The message that a get has left in the buffer, if any.
abbrev pub received : Parsed → List (List ℕ)
received t = elim t.len [ none ↦ [] | some n ↦ take n t.buf_out ∷ [] ]

abbrev pub sent : ℕ → List ℕ → List (List ℕ)
sent n m = if n == minus_one then [] else m ∷ []

-- The messages put with success, the messages taken out, and the queue at the end.
module _ (stack : Parser) (buffer : List ℕ) (max_len : ℕ) where
  pub run : Queue → List Op → List (List ℕ) × List (List ℕ) × Queue
  run q [] = ([], [], q)
  run q (put m ∷ ops) =
      let (n, q') = puts q m in let (acc, del, q'') = run q' ops in (sent n m ++ acc, del, q'')
  run q (get ∷ ops) =
      let (t, q') = gets stack q buffer max_len in
      let (acc, del, q'') = run q' ops in (acc, received t ++ del, q'')

  -- What is still in the queue at the end.
  pub record Pending (ms : List (List ℕ)) (out : List (List ℕ) × List (List ℕ) × Queue)
      : Type 0 where
    pub left : List (List ℕ)
    pub carried : Carries (contents out.2.rb) left
    pub fifo : ms ++ out.0 ≡ out.1 ++ left

  received_lem :
      (ms : List (List ℕ)) (t : Parsed)
      → AllShort max_len ms
      → Delivers max_len ms t
      → (ms ≡ received t ++ drop 1 ms) × AllShort max_len (drop 1 ms)
  received_lem [] t a d = ground arith
  received_lem (m ∷ ms) t a d = ground (arith, take_all max_len m)

  sent_lem :
      (q : Queue) (m : List ℕ) (ms : List (List ℕ))
      → IsValid q.rb
      → q.rb.size < minus_one
      → AllBytes m
      → Carries (contents q.rb) ms
      → Carries (contents (puts q m).1.rb) (ms ++ sent (puts q m).0 m)
  sent_lem q m ms v s a c =
      let l = puts-Carries q m ms v s a c in
      subst (Carries (contents (puts q m).1.rb)) (ground (arith, l.2, append-nil ms)) l.3

  AllShort-append :
      (ms : List (List ℕ)) (n : ℕ) (m : List ℕ)
      → AllShort max_len ms
      → IsShort max_len m
      → AllShort max_len (ms ++ sent n m)
  AllShort-append [] n m a h = elim (Bool-cases (n == minus_one)) [
    | inl e ↦ rw e tt
    | inr e ↦ rw e (h, tt)
  ]
  AllShort-append (x ∷ ms) n m a h = (a.0, AllShort-append ms n m a.1 h)

  -- For any sequence of puts and gets on a valid queue below 0xFFFF bytes, where no message is
  -- longer than the reader's buffer: the messages it carried and then the accepted ones are, in
  -- order, the messages taken out and then those it carries at the end.
  pub run_fifo :
      (q : Queue) (ops : List Op) (ms : List (List ℕ))
      → IsValid q.rb
      → q.rb.size < minus_one
      → max_len ≤ length buffer
      → AllShort max_len ms
      → Sends max_len ops
      → Carries (contents q.rb) ms
      → Pending ms (run q ops)
  unfolding run
  run_fifo q [] ms v s h a o c = record { left = ms; carried = c; fifo = append-nil ms }
  run_fifo q (put m ∷ ops) ms v s h a o c =
      let l = puts-Carries q m ms v s o.0.0 c in
      let n = (puts q m).0 in
      let p =
        run_fifo (puts q m).1 ops (ms ++ sent n m) l.0 (omega (arith, l.1)) h
          (AllShort-append ms n m a o.0) o.1 (sent_lem q m ms v s o.0.0 c) in
      record {
        left = p.left;
        carried = p.carried;
        fifo = sym (append_assoc ms (sent n m) _) ∙ p.fifo;
      }
  run_fifo q (get ∷ ops) ms v s h a o c =
      let g = gets-Carries stack q buffer max_len ms v h c in
      let r = received_lem ms (gets stack q buffer max_len).0 a g.2 in
      let p =
        run_fifo (gets stack q buffer max_len).1 ops (drop 1 ms) g.0 (omega (arith, g.1)) h r.1 o
          g.3 in
      record {
        left = p.left;
        carried = p.carried;
        fifo = cc (
          r.0,
          p.fifo,
          append_assoc (received (gets stack q buffer max_len).0) (drop 1 ms)
              (run (gets stack q buffer max_len).1 ops).0,
          append_assoc (received (gets stack q buffer max_len).0)
              (run (gets stack q buffer max_len).1 ops).1 p.left,
        );
      }
