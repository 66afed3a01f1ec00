-- ===== src/Queue/Tests.antt =====
-- Runs of the queue of messages.
use u_mqttbroker.Base.{
  ℕ, ◌≡◌, ◌-◌, refl, true, false, List, [], ◌∷◌, ◌++◌, arith, if◌then◌else◌, leb, length, drop,
  replicate,
}
use u_mqttbroker.Ring.Inv.{IsValid}
use u_mqttbroker.Ring.Refine.{contents}
use u_mqttbroker.Proto.{Parser, minus_one}
use u_mqttbroker.Proto.Frame.{frame}
use u_mqttbroker.Queue.{Queue, puts, gets}
use u_mqttbroker.Queue.Fifo.{Carries, drained, Delivers, puts-Carries, gets-Carries}
use u_mqttbroker.Queue.History.{put, get, run, Pending, run_fifo}

-- room for ten bytes
abbrev queue : Queue
queue = record {
  buf = true;
  rb = record { buf = replicate 10 0; size = 10; p_r = 0; p_w = 0; fill_cnt = 0 };
}

queue-IsValid : IsValid queue.rb
queue-IsValid = record {
  two = omega arith;
  storage = omega arith;
  read_in = omega arith;
  write_in = omega arith;
  filled = omega arith;
  written = refl;
}

queue-Carries : Carries (contents queue.rb) []
queue-Carries = drained [] tt

abbrev message : List ℕ
message = 0xC0 ∷ 0 ∷ []

abbrev stack : Parser
stack = record {
  buf = [];
  buf_size = 0;
  data_len = 0;
  is_esc = true;
  is_begin = true;
  callback = false;
  calls = 0;
}

puts-Carries_example :
    let (n, q') = puts queue message in
    let fits = leb (length (frame message)) (queue.rb.size - queue.rb.fill_cnt) in
    IsValid q'.rb
    × (q'.rb.size ≡ queue.rb.size)
    × (n ≡ (if fits then length (frame message) else minus_one))
    × Carries (contents q'.rb) (if fits then [] ++ message ∷ [] else [])
puts-Carries_example =
    puts-Carries queue message [] queue-IsValid (omega arith) (omega arith, (omega arith, tt))
      queue-Carries

gets-Carries_example :
    let (t, q') = gets stack queue (replicate 4 0) 4 in
    IsValid q'.rb
    × (q'.rb.size ≡ queue.rb.size)
    × Delivers 4 [] t
    × Carries (contents q'.rb) (drop 1 [])
gets-Carries_example =
    gets-Carries stack queue (replicate 4 0) 4 [] queue-IsValid (omega arith) queue-Carries

run_fifo_example :
    Pending stack
      (replicate 4 0)
      4
      []
      (run stack (replicate 4 0) 4 queue (put message ∷ get ∷ get ∷ put message ∷ []))
run_fifo_example =
    run_fifo stack (replicate 4 0) 4 queue (put message ∷ get ∷ get ∷ put message ∷ []) []
      queue-IsValid (omega arith) (omega arith) tt
      (
        ((omega arith, (omega arith, tt)), omega arith),
        (((omega arith, (omega arith, tt)), omega arith), tt),
      )
      queue-Carries
