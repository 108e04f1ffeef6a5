-- ===== src/Ring/Tests.antt =====
-- The byte ring at concrete inputs.
use mini_kernel.Prelude.{
  ◌≡◌, refl, true, false, none, some, List, [], ◌∷◌, arith, if◌then◌else◌, ◌==◌,
}
use mini_kernel.Ring.{Ring, Call, pushes, pops, ring_buffer_push, ring_buffer_pop, run}
use mini_kernel.Ring.Refine.{IsValid, queue_run, run_refines}

-- 8, then 9, round the end of the storage of three bytes
abbrev wrapped : Ring
wrapped = record { storage = λ i. if i == 2 then 8 else 9; capacity = 3; head = 1; tail = 2 }

abbrev script : List Call
script = pushes 7 ∷ pops ∷ pushes 7 ∷ pops ∷ pops ∷ pops ∷ []

wrapped-IsValid : IsValid wrapped
wrapped-IsValid = omega arith

run-wrapped :
    run wrapped script
    ≡ (false, none)
      ∷ (true, some 8)
      ∷ (true, none)
      ∷ (true, some 9)
      ∷ (true, some 7)
      ∷ (false, none)
      ∷ []
unfolding run ring_buffer_push ring_buffer_pop
run-wrapped = refl

run_refines_example : run wrapped script ≡ queue_run 3 (8 ∷ 9 ∷ []) script
run_refines_example = run_refines script wrapped-IsValid
