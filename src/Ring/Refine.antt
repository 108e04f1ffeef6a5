-- ===== src/Ring/Refine.antt =====
-- A ring of kernel/lib/ring_buffer.c against the queue of the bytes that it holds, one byte fewer
-- than its capacity at most.
use mini_kernel.Prelude.{
  ℕ, suc, ◌+◌, ◌-◌, ◌%◌, ◌^◌, ◌<◌, ◌≡◌, refl, ap, ◌∙◌, ◌≢◌, ◌↔◌, ◌⊎◌, inl, inr, Bool, true, false,
  Option, none, some, List, [], ◌∷◌, ◌++◌, if◌then◌else◌, ltb, length, cycle, length-cycle,
  cycle-update, distance, distance_cases, mod-wrap, mod_small, dec_lt, arith,
}
use mini_kernel.Ring.{
  Ring, Call, pushes, pops, ring_buffer_init, ring_buffer_push, ring_buffer_pop, next_index, run,
}

-- The indices are in range, so every access of the storage is.
pub record IsValid (rb : Ring) : Type 0 where
  pub small : rb.capacity < 2 ^ 32
  pub head_in : rb.head < rb.capacity
  pub tail_in : rb.tail < rb.capacity

abbrev pub used : Ring → ℕ
used rb = distance rb.capacity rb.tail rb.head

abbrev pub contents : Ring → List ℕ
contents rb = cycle rb.storage rb.capacity rb.tail (used rb)

-- The queue that a client may think of.
pub queue_push : ℕ → List ℕ → ℕ → Bool × List ℕ
queue_push capacity q v = if ltb (length q + 1) capacity then (true, q ++ v ∷ []) else (false, q)

pub queue_pop : List ℕ → Bool × Option ℕ × List ℕ
queue_pop [] = (false, none, [])
queue_pop (v ∷ q) = (true, some v, q)

pub queue_run : ℕ → List ℕ → List Call → List (Bool × Option ℕ)
queue_run capacity q [] = []
queue_run capacity q (pushes v ∷ calls) =
    let (s, q') = queue_push capacity q v in (s, none) ∷ queue_run capacity q' calls
queue_run capacity q (pops ∷ calls) =
    let (s, out, q') = queue_pop q in (s, out) ∷ queue_run capacity q' calls

-- The next index, as the two cases that the code's remainders make.
next_cases :
    (i cap : ℕ)
    → i < cap
    → cap < 2 ^ 32
    → ((i + 1 < cap) × ((i + 1) % 2 ^ 32 % cap ≡ i + 1))
      ⊎ ((i + 1 ≡ cap) × ((i + 1) % 2 ^ 32 % cap ≡ 0))
next_cases i cap h s =
    let e : (i + 1) % 2 ^ 32 ≡ i + 1 = omega arith in
    elim (dec_lt (i + 1) cap) [
      | yes p ↦ inl (p, rw e (mod_small _ _ p))
      | no p ↦ inr (omega arith, rw e (ground (arith, mod-wrap (i + 1) cap)))
    ]

-- `ring_buffer_init` gives a valid, empty ring, if the storage has a byte.
pub ring_buffer_init-IsValid :
    (s : ℕ → ℕ) (capacity : ℕ)
    → 0 < capacity
    → capacity < 2 ^ 32
    → IsValid (ring_buffer_init s capacity) × (contents (ring_buffer_init s capacity) ≡ [])
unfolding ring_buffer_init
ring_buffer_init-IsValid s capacity h k =
    let none_used : (0 + capacity - 0) % capacity ≡ 0 =
      mod-wrap (0 + capacity - 0) capacity (omega arith) (omega arith) ∙ omega arith in
    (omega arith, ap (cycle s capacity 0) none_used)

push-IsValid : {rb : Ring} (v : ℕ) → IsValid rb → IsValid (ring_buffer_push rb v).1
unfolding ring_buffer_push
push-IsValid {rb} v ok = ground (arith, next_cases rb.head rb.capacity)

pop-IsValid : {rb : Ring} → IsValid rb → IsValid (ring_buffer_pop rb).2
unfolding ring_buffer_pop
pop-IsValid {rb} ok = ground (arith, next_cases rb.tail rb.capacity)

-- The number of bytes after a push that is accepted.
used_after_push :
    {rb : Ring}
    → IsValid rb
    → next_index rb rb.head ≢ rb.tail
    → (used rb + 1 < rb.capacity)
      × ((next_index rb rb.head + rb.capacity - rb.tail) % rb.capacity ≡ suc (used rb))
used_after_push {rb} ok ne = ground (
  arith,
  next_cases rb.head rb.capacity,
  distance_cases rb.capacity rb.tail rb.head,
  distance_cases rb.capacity rb.tail (next_index rb rb.head),
)

used_when_full :
    {rb : Ring} → IsValid rb → next_index rb rb.head ≡ rb.tail → used rb + 1 ≡ rb.capacity
used_when_full {rb} ok e =
    ground (arith, next_cases rb.head rb.capacity, distance_cases rb.capacity rb.tail rb.head)

used_when_empty : {rb : Ring} → IsValid rb → (rb.tail ≡ rb.head) ↔ (used rb ≡ 0)
used_when_empty {rb} ok = (
  λ e. ground (arith, distance_cases rb.capacity rb.tail rb.head),
  λ e. ground (arith, distance_cases rb.capacity rb.tail rb.head),
)

used_after_pop :
    {rb : Ring}
    → IsValid rb
    → rb.tail ≢ rb.head
    → used rb ≡ suc ((rb.head + rb.capacity - next_index rb rb.tail) % rb.capacity)
used_after_pop {rb} ok ne = ground (
  arith,
  next_cases rb.tail rb.capacity,
  distance_cases rb.capacity rb.tail rb.head,
  distance_cases rb.capacity (next_index rb rb.tail) rb.head,
)

-- The index that a push writes is where the ring's bytes end.
head_lem : {rb : Ring} → IsValid rb → rb.head ≡ (rb.tail + used rb) % rb.capacity
head_lem {rb} ok = ground (
  arith,
  distance_cases rb.capacity rb.tail rb.head,
  mod_small (rb.tail + used rb) rb.capacity,
  mod-wrap (rb.tail + used rb) rb.capacity,
)

-- `ring_buffer_push` returns what the queue returns, and leaves the ring holding its bytes.
pub push_refines :
    {rb : Ring} (v : ℕ)
    → IsValid rb
    → let (s, rb') = ring_buffer_push rb v in
      (s, contents rb') ≡ queue_push rb.capacity (contents rb) v
unfolding ring_buffer_push queue_push
push_refines {rb} v ok = ground (
  arith,
  length-cycle rb.storage rb.capacity rb.tail (used rb),
  used_when_full ok,
  used_after_push ok,
  cycle-update rb.storage rb.capacity v (used rb) rb.tail rb.head,
  head_lem ok,
)

-- `ring_buffer_pop` returns the status and the byte that the queue returns, and leaves the rest.
pub pop_refines :
    {rb : Ring}
    → IsValid rb
    → let (s, out, rb') = ring_buffer_pop rb in (s, out, contents rb') ≡ queue_pop (contents rb)
unfolding ring_buffer_pop queue_pop
pop_refines {rb} ok = ground (arith, used_when_empty ok, used_after_pop ok)

capacity-push : (rb : Ring) (v : ℕ) → (ring_buffer_push rb v).1.capacity ≡ rb.capacity
unfolding ring_buffer_push
capacity-push rb v = ground arith

capacity-pop : (rb : Ring) → (ring_buffer_pop rb).2.capacity ≡ rb.capacity
unfolding ring_buffer_pop
capacity-pop rb = ground arith

-- No sequence of calls tells a valid ring from the queue of its bytes that holds one byte fewer
-- than the capacity at most.
pub run_refines :
    (calls : List Call) {rb : Ring}
    → IsValid rb
    → run rb calls ≡ queue_run rb.capacity (contents rb) calls
unfolding run queue_run
run_refines [] ok = refl
run_refines (pushes v ∷ calls) {rb} ok =
    rw (run_refines calls (push-IsValid v ok), ← push_refines v ok, capacity-push)
run_refines (pops ∷ calls) {rb} ok =
    rw (run_refines calls (pop-IsValid ok), ← pop_refines ok, capacity-pop)
