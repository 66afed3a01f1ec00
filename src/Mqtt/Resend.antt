-- ===== src/Mqtt/Resend.antt =====
-- src/mqtt.c: the loop that makes room in the queue of the client ends, and drops the oldest messages
-- alone.
use u_mqttbroker.Base.{
  ℕ, zero, suc, ◌-◌, ◌≤◌, ◌<◌, ◌≡◌, ◌⊎◌, inl, inr, refl, ◌∙◌, Bool, true, false, some, List, [],
  ◌∷◌, ◌++◌, arith, length, drop, leb, ◌==◌, AllBytes, Bool-cases,
}
use u_mqttbroker.Ring.Inv.{IsValid}
use u_mqttbroker.Ring.Refine.{contents}
use u_mqttbroker.Proto.{Parser, minus_one}
use u_mqttbroker.Proto.Frame.{frame}
use u_mqttbroker.Queue.{Queue, puts, gets}
use u_mqttbroker.Queue.Fifo.{Carries, Delivers, puts-Carries, gets-Carries}
use u_mqttbroker.Server.{mqtt_buf_size}
use u_mqttbroker.Mqtt.Queueing.{push_loop}

abbrev pub has_room : Queue → List ℕ → Bool
has_room q m = leb (length (frame m)) (q.rb.size - q.rb.fill_cnt)

module _ (stack : Parser) (buffer : List ℕ) (m : List ℕ) where
  -- The queue behind a round whose put failed: the bytes of the frame that had room are in the ring,
  -- and the oldest message is out.
  abbrev pub next_queue : Queue → Queue
  next_queue q = (gets stack (puts q m).1 buffer mqtt_buf_size).1

  -- The queue behind `k` such rounds.
  abbrev queue_behind : ℕ → Queue → Queue
  queue_behind zero q = q
  queue_behind (suc k) q = queue_behind k (next_queue q)

  -- There was no room in `k` rounds.
  abbrev AllFull : ℕ → Queue → Type 0
  AllFull zero q = Unit {0}
  AllFull (suc k) q = (has_room q m ≡ false) × AllFull k (next_queue q)

  -- The message was put in the first round that had room, behind the others without one for each
  -- round before; or no round had room, and the queue of the last round has no message.
  abbrev pub Pushed : Queue → List (List ℕ) → Bool → Queue → Type 0
  Pushed q ms r q' =
      IsValid q'.rb
      × (q'.rb.size ≡ q.rb.size)
      × (((r ≡ true)
            × ((k : ℕ) × AllFull k q
                × (has_room (queue_behind k q) m ≡ true)
                × (q' ≡ (puts (queue_behind k q) m).1)
                × Carries (contents q'.rb) (drop k ms ++ m ∷ [])))
          ⊎ ((r ≡ false)
              × AllFull (suc (length ms)) q
              × (q' ≡ queue_behind (suc (length ms)) q)
              × Carries (contents q'.rb) []))

  module _ (h : mqtt_buf_size ≤ length buffer) (a : AllBytes m) where
    -- A round puts the message, or takes the oldest one out.
    round :
        (q : Queue) (ms : List (List ℕ))
        → IsValid q.rb
        → q.rb.size < minus_one
        → Carries (contents q.rb) ms
        → ((has_room q m ≡ true)
            × (((puts q m).0 == minus_one) ≡ false)
            × IsValid (puts q m).1.rb
            × ((puts q m).1.rb.size ≡ q.rb.size)
            × Carries (contents (puts q m).1.rb) (ms ++ m ∷ []))
          ⊎ ((has_room q m ≡ false)
              × (((puts q m).0 == minus_one) ≡ true)
              × IsValid (next_queue q).rb
              × ((next_queue q).rb.size ≡ q.rb.size)
              × Delivers mqtt_buf_size ms (gets stack (puts q m).1 buffer mqtt_buf_size).0
              × Carries (contents (next_queue q).rb) (drop 1 ms))
    round q ms v s c =
        let (v₁, s₁, r, c₁) = puts-Carries q m ms v s a c in
        elim (Bool-cases (has_room q m)) [
          | inl fits ↦ inl (fits, ground (arith, fits, r), v₁, s₁, (rw fits at c₁))
          | inr full ↦
              let (v₂, s₂, d, c₂) =
                gets-Carries stack (puts q m).1 buffer mqtt_buf_size ms v₁ h (rw full at c₁) in
              inr (full, ground (arith, full, r), v₂, s₂ ∙ s₁, d, c₂)
        ]

    -- On a valid queue below 0xFFFF bytes, one more round than there are messages is enough for the
    -- loop. Either some round, the first that has room, puts the message, behind the others without
    -- the oldest for each round before; or all rounds have no room, and the loop gives up with a
    -- queue that has no message. The room is that of the ring as the rounds before left it, with
    -- the bytes of the frame that their failed puts wrote.
    pub push_loop_lem :
        (ms : List (List ℕ)) (n : ℕ) (q : Queue)
        → length ms ≤ n
        → IsValid q.rb
        → q.rb.size < minus_one
        → Carries (contents q.rb) ms
        → (r : Bool) × (q' : Queue) × (push_loop (suc n) stack buffer q m ≡ some (r, q'))
          × Pushed q ms r q'
    unfolding push_loop
    push_loop_lem [] n q l v s c = elim (round q [] v s c) [
      | inl (fits, e, v₁, s₁, c₁) ↦
          rw (push_loop, e)
            (true, (puts q m).1, refl, (v₁, s₁, inl (refl, (0, tt, fits, refl, c₁))))
      | inr (full, e, v₂, s₂, d, c₂) ↦
          rw (push_loop, e, d.1)
            (false, next_queue q, refl, (v₂, s₂, inr (refl, (full, tt), refl, c₂)))
    ]
    push_loop_lem (x ∷ ms) zero q l v s c = absurd (omega arith)
    push_loop_lem (x ∷ ms) (suc n) q l v s c = elim (round q (x ∷ ms) v s c) [
      | inl (fits, e, v₁, s₁, c₁) ↦
          rw (push_loop, e)
            (true, (puts q m).1, refl, (v₁, s₁, inl (refl, (0, tt, fits, refl, c₁))))
      | inr (full, e, v₂, s₂, d, c₂) ↦
          let (r, q', f, (v', s', p)) =
            push_loop_lem ms n (next_queue q) (omega (arith, l)) v₂ (omega (arith, s₂, s)) c₂ in
          rw (push_loop, e, d.1)
            (
              r,
              q',
              f,
              (
                v',
                s' ∙ s₂,
                elim p [
                  | inl (y, (k, a, z, g, c')) ↦ inl (y, (suc k, (full, a), z, g, c'))
                  | inr (y, a, g, c') ↦ inr (y, (full, a), g, c')
                ],
              ),
            )
    ]
