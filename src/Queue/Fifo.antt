-- ===== src/Queue/Fifo.antt =====
-- A queue of bytes read as a queue of messages.
use u_mqttbroker.Base.{
  ℕ, zero, suc, ◌-◌, ◌≤◌, ◌<◌, ◌≡◌, refl, subst, inl, inr, false, none, some, List, [], ◌∷◌, ◌++◌,
  append-nil, append_assoc, arith, length, take, take_all, drop, if◌then◌else◌, leb, AllBytes,
  Bool-cases, min,
}
use u_mqttbroker.Ring.{Rc, ok, fail, Ring}
use u_mqttbroker.Ring.Inv.{IsValid}
use u_mqttbroker.Ring.Refine.{contents}
use u_mqttbroker.Proto.{Parser, Parsed, add_rb, minus_one, init}
use u_mqttbroker.Proto.Frame.{escape, frame, NoEnd, flip_twice}
use u_mqttbroker.Proto.Sender.{add_rb_lem, length-frame}
use u_mqttbroker.Proto.Flat.{IsSized, parse_flat, parse_flat-frame, parse_flat-drained}
use u_mqttbroker.Proto.Receiver.{Agrees, parse_rb-Agrees}
use u_mqttbroker.Queue.{Queue, puts, gets}

-- The bytes are the frames of the messages, each behind what a failed put may have left.
pub data Carries : List ℕ → List (List ℕ) → Type 0 where
  drained : (bs : List ℕ) → NoEnd bs → Carries bs []
  next :
      (bs junk m rest : List ℕ) (ms : List (List ℕ))
      → NoEnd junk
      → AllBytes m
      → bs ≡ junk ++ (frame m ++ rest)
      → Carries rest ms
      → Carries bs (m ∷ ms)

NoEnd-append : (xs ys : List ℕ) → NoEnd xs → NoEnd ys → NoEnd (xs ++ ys)
NoEnd-append [] ys h k = k
NoEnd-append (x ∷ xs) ys h k = (h.0, NoEnd-append xs ys h.1 k)

-- A frame that is not put whole lacks its end.
NoEnd-take-escape :
    (n : ℕ) (bs : List ℕ)
    → AllBytes bs
    → n ≤ length (escape bs)
    → NoEnd (take n (escape bs ++ 0x7F ∷ []))
NoEnd-take-escape zero bs a h = tt
NoEnd-take-escape (suc n) [] a h = absurd (omega arith)
NoEnd-take-escape (suc zero) (b ∷ bs) a h = ground arith
NoEnd-take-escape (suc (suc n)) (b ∷ bs) a h =
    ground (arith, flip_twice b a.0, NoEnd-take-escape n bs a.1, NoEnd-take-escape (suc n) bs a.1)

NoEnd-take-frame :
    (n : ℕ) (bs : List ℕ) → AllBytes bs → n < length (frame bs) → NoEnd (take n (frame bs))
NoEnd-take-frame zero bs a h = tt
NoEnd-take-frame (suc n) bs a h = (refl, NoEnd-take-escape n bs a (omega (arith, length-frame bs)))

regroup :
    (bs junk f rest ys : List ℕ) → bs ≡ junk ++ (f ++ rest) → bs ++ ys ≡ junk ++ (f ++ (rest ++ ys))
regroup bs junk f rest ys e = cc (append_assoc junk (f ++ rest) ys, append_assoc f rest ys)

-- A whole frame at the end is one more message; bytes without an end are none.
Carries-frame :
    {xs : List ℕ} {ms : List (List ℕ)} (m : List ℕ)
    → AllBytes m
    → Carries xs ms
    → Carries (xs ++ frame m) (ms ++ m ∷ [])
Carries-frame m a (drained bs h) =
    next (bs ++ frame m) bs m [] [] h a (rw append-nil) (drained [] tt)
Carries-frame m a (next bs junk m' rest ms h b e c) =
    next (bs ++ frame m) junk m' (rest ++ frame m) (ms ++ m ∷ []) h b
      (regroup bs junk (frame m') rest (frame m) e) (Carries-frame m a c)

Carries-junk :
    {xs : List ℕ} {ms : List (List ℕ)} (ys : List ℕ)
    → NoEnd ys
    → Carries xs ms
    → Carries (xs ++ ys) ms
Carries-junk ys k (drained bs h) = drained (bs ++ ys) (NoEnd-append bs ys h k)
Carries-junk ys k (next bs junk m' rest ms h b e c) =
    next (bs ++ ys) junk m' (rest ++ ys) ms h b (regroup bs junk (frame m') rest ys e)
      (Carries-junk ys k c)

-- On a valid queue below 0xFFFF bytes, a put of bytes adds them as the last message and returns the
-- frame's length if the frame fits; otherwise it returns -1, and the messages are as they were. The
-- queue stays valid.
pub puts-Carries :
    (q : Queue) (m : List ℕ) (ms : List (List ℕ))
    → IsValid q.rb
    → q.rb.size < minus_one
    → AllBytes m
    → Carries (contents q.rb) ms
    → let (n, q') = puts q m in
      let fits = leb (length (frame m)) (q.rb.size - q.rb.fill_cnt) in
      IsValid q'.rb
      × (q'.rb.size ≡ q.rb.size)
      × (n ≡ (if fits then length (frame m) else minus_one))
      × Carries (contents q'.rb) (if fits then ms ++ m ∷ [] else ms)
unfolding puts
puts-Carries q m ms v s a c = let l = add_rb_lem q.rb m v s in (l.0, l.1, l.3, messages l.2)
  where
    bytes' : List ℕ
    bytes' = contents (add_rb q.rb m).1

    room : ℕ
    room = q.rb.size - q.rb.fill_cnt

    messages :
        bytes' ≡ contents q.rb ++ take room (frame m)
        → Carries bytes' (if leb (length (frame m)) room then ms ++ m ∷ [] else ms)
    messages e = elim (Bool-cases (leb (length (frame m)) room)) [
      | inl fits ↦ rw fits (
          subst (λ xs. Carries xs (ms ++ m ∷ [])) (cc (take_all room (frame m) (ground arith)))
            (Carries-frame m a c))
      | inr full ↦
          rw (full, e)
            (Carries-junk (take room (frame m)) (NoEnd-take-frame room m a (ground arith)) c)
    ]

-- What a get delivers of a queue: the first message, cut at the size of the buffer.
abbrev pub Delivers : ℕ → List (List ℕ) → Parsed → Type 0
Delivers max_len [] t = (t.rc ≡ fail) × (t.len ≡ none)
Delivers max_len (m ∷ ms) t =
    (t.rc ≡ ok)
    × (t.len ≡ some (min (length m) max_len))
    × (take (min (length m) max_len) t.buf_out ≡ take max_len m)

abbrev Found : ℕ → List (List ℕ) → Rc × Parser × List ℕ → Type 0
Found size [] u = u.0 ≡ fail
Found size (m ∷ ms) u =
    (u.0 ≡ ok) × (u.1.data_len ≡ min (length m) size) × (take u.1.data_len u.1.buf ≡ take size m)

parse_flat-Carries :
    (p : Parser) (xs : List ℕ) (ms : List (List ℕ))
    → IsSized p
    → Carries xs ms
    → Found p.buf_size ms (parse_flat p xs) × Carries (parse_flat p xs).2 (drop 1 ms)
parse_flat-Carries p xs _ v (drained bs h) =
    let (p', e) = parse_flat-drained p xs h in rw e (refl, drained [] tt)
parse_flat-Carries p xs _ v (next bs junk m rest ms h b e c) =
    let (p', e', held, len) = parse_flat-frame p junk m rest h b v in
    rw (e, e') ((refl, len, held), c)

Delivers-Found :
    (size : ℕ) (ms : List (List ℕ)) (r : Ring) (t : Parsed) (u : Rc × Parser × List ℕ)
    → Agrees r t u
    → Found size ms u
    → Delivers size ms t
Delivers-Found size [] r t u g f = ground arith
Delivers-Found size (m ∷ ms) r t u g f = ground arith

-- On a valid queue, a get into a buffer of the announced size takes the oldest message out, cut at
-- that size; without one it fails. Neither what was on the stack nor what a failed put left
-- matters. The queue stays valid.
pub gets-Carries :
    (stack : Parser) (q : Queue) (buffer : List ℕ) (max_len : ℕ) (ms : List (List ℕ))
    → IsValid q.rb
    → max_len ≤ length buffer
    → Carries (contents q.rb) ms
    → let (t, q') = gets stack q buffer max_len in
      IsValid q'.rb
      × (q'.rb.size ≡ q.rb.size)
      × Delivers max_len ms t
      × Carries (contents q'.rb) (drop 1 ms)
unfolding gets init
gets-Carries stack q buffer max_len ms v h c =
    let p = init stack false buffer max_len in
    let g = parse_rb-Agrees stack q.rb buffer max_len v in
    let f = parse_flat-Carries p (contents q.rb) ms h c in
    (g.valid, g.size, Delivers-Found max_len ms q.rb _ _ g f.0, rw g.rest f.1)
