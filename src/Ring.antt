-- ===== src/Ring.antt =====
-- The byte ring of kernel/lib/ring_buffer.c, which holds the keyboard's input.
pub mod Refine
mod Tests
use mini_kernel.Prelude.{
  ℕ, ◌+◌, ◌-◌, ◌%◌, ◌^◌, Bool, true, false, Option, none, some, List, [], ◌∷◌, if◌then◌else◌, ◌==◌,
  update,
}

-- `ring_buffer_t`; a byte is any number, since it is only moved.
pub record Ring : Type 0 where
  pub storage : ℕ → ℕ
  pub capacity : ℕ
  pub head : ℕ
  pub tail : ℕ

pub ring_buffer_init : (ℕ → ℕ) → ℕ → Ring
ring_buffer_init storage capacity = record {
  storage = storage;
  capacity = capacity;
  head = 0;
  tail = 0;
}

-- `(i + 1) % capacity` in `unsigned int`
abbrev pub next_index : Ring → ℕ → ℕ
next_index rb i = (i + 1) % 2 ^ 32 % rb.capacity

-- The status (1 is true) and the ring.
pub ring_buffer_push : Ring → ℕ → Bool × Ring
ring_buffer_push rb value = if next_index rb rb.head == rb.tail then (false, rb) else (
  true,
  record rb { storage = update rb.storage rb.head value; head = next_index rb rb.head },
)

-- What goes through `out` is `none` where nothing is written to it.
pub ring_buffer_pop : Ring → Bool × Option ℕ × Ring
ring_buffer_pop rb =
    if rb.tail == rb.head
    then (false, none, rb)
    else (true, some (rb.storage rb.tail), record rb { tail = next_index rb rb.tail })

-- A client's calls, and what it sees of each.
pub data Call : Type 0 where
  pushes : ℕ → Call
  pops : Call

unfoldable pub run : Ring → List Call → List (Bool × Option ℕ)
run rb [] = []
run rb (pushes v ∷ calls) = let (s, rb') = ring_buffer_push rb v in (s, none) ∷ run rb' calls
run rb (pops ∷ calls) = let (s, out, rb') = ring_buffer_pop rb in (s, out) ∷ run rb' calls
