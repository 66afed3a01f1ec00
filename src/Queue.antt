-- ===== src/Queue.antt =====
-- src/queue.c: a queue of messages, each a frame in a ring buffer of its own.
pub mod Fifo
pub mod History
pub mod Oldest
mod Tests
use u_mqttbroker.Base.{
  ℕ, Bool, true, false, Option, none, some, List, if◌then◌else◌, leb, replicate,
}
use u_mqttbroker.Ring.{Ring}
use u_mqttbroker.Ring
use u_mqttbroker.Proto.{Parser, Parsed, add_rb, parse_rb}

-- `buf` tells whether the pointer is not NULL; the storage is the ring's.
pub record Queue : Type 0 where
  pub buf : Bool
  pub rb : Ring

-- `os_zalloc` gives zeros, or NULL where `memory` is false: then the ring stays as it was.
unfoldable pub init : Bool → Queue → ℕ → Queue
init memory queue buffer_size =
    elim (Ring.init (if memory then some (replicate buffer_size 0) else none) buffer_size) [
      | none ↦ record queue { buf = memory }
      | some rb ↦ record { buf = memory; rb = rb }
    ]

-- The number is the bit pattern of the `I16` that `PROTO_AddRb` returns.
unfoldable pub puts : Queue → List ℕ → ℕ × Queue
puts queue buffer = let (n, rb) = add_rb queue.rb buffer in (n, record queue { rb = rb })

-- `stack` is the parser on the stack of `PROTO_ParseRb`.
unfoldable pub gets : Parser → Queue → List ℕ → ℕ → Parsed × Queue
gets stack queue buffer max_len =
    let t = parse_rb stack queue.rb buffer max_len in (t, record queue { rb = t.rb })

unfoldable pub is_empty : Queue → Bool
is_empty queue = leb queue.rb.fill_cnt 0
