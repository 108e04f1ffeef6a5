-- ===== src/Pmm/Alloc.antt =====
-- What the allocations of kernel/mm/pmm.c return.
use mini_kernel.Prelude.{
  ℕ, zero, suc, ◌+◌, ◌*◌, ◌/◌, ◌%◌, ◌≤◌, ◌<◌, ◌≡◌, ◌≢◌, refl, ap, ◌∙◌, sym, subst, true, false,
  Bool-cases, ◌==◌, ◌⊎◌, inl, inr, arith, if◌then◌else◌, ℕ_discrete, distance,
}
use mini_kernel.Pmm.{
  Pmm, frame_size, word, set_used, is_used, max_frames, alloc_from, pmm_alloc_frame, pmm_free_frame,
  frame_of,
}
use mini_kernel.Pmm.Frames.{
  IsValid, set_used-IsValid, set_free-IsValid, is_used-set_used, is_used-set_free,
  free_frames-set_used, is_used_lt,
}

-- The frame that the search tries in round `i`.
abbrev tried : Pmm → ℕ → ℕ
tried s i = (s.search_hint + i) % word % max_frames

-- A search that fails has tried used frames only.
abbrev Failed : Pmm → ℕ → ℕ → ℕ × Pmm → Type 0
Failed s i rounds r =
    (r ≡ (0, s)) × ((j : ℕ) → i ≤ j → j < i + rounds → is_used (tried s j) s ≡ true)

abbrev Took : Pmm → ℕ × Pmm → Type 0
Took s r =
    (f : ℕ) × (is_used f s ≡ false)
    × (r ≡ (f * frame_size, record (set_used f s) { search_hint = f + 1 }))

alloc_from_cases :
    (rounds i : ℕ) (s : Pmm)
    → Failed s i rounds (alloc_from rounds i s) ⊎ Took s (alloc_from rounds i s)
unfolding alloc_from
alloc_from_cases zero i s = inl (refl, λ j p q. absurd (omega arith))
alloc_from_cases (suc rounds) i s = elim (Bool-cases (is_used (tried s i) s)) [
  | inr free ↦ inr (tried s i, free, rw free refl)
  | inl used ↦ elim (alloc_from_cases rounds (i + 1) s) [
    | inl (e, all) ↦ inl (
      rw used e,
      λ j p q. elim (ℕ_discrete j i) [
        | yes same ↦ rw same used
        | no ne ↦ all j (omega arith) (omega arith)
      ],
    )
    | inr (f, free, e) ↦ inr (f, free, rw used e)
  ]
]

-- The search tries every frame.
tried_all :
    (s : Pmm) (g : ℕ)
    → s.search_hint ≤ max_frames
    → g < max_frames
    → tried s (distance max_frames (s.search_hint % max_frames) g) ≡ g
tried_all s g h k = omega arith

-- No frame is free, and nothing is changed.
abbrev pub NoFrame : Pmm → ℕ × Pmm → Type 0
NoFrame s (addr, s') = (addr ≡ 0) × (s' ≡ s) × ((g : ℕ) → is_used g s ≡ true)

-- The address of a frame that was free, and that alone is marked.
abbrev pub OneFrame : Pmm → ℕ × Pmm → Type 0
OneFrame s (addr, s') =
    (f : ℕ) × (addr ≡ f * frame_size)
    × (0 < addr)
    × (f < max_frames)
    × (is_used f s ≡ false)
    × ((g : ℕ) → is_used g s' ≡ (if g == f then true else is_used g s))
    × (s'.free_frames + 1 ≡ s.free_frames)
    × IsValid s'

all_used :
    (s : Pmm)
    → IsValid s
    → ((j : ℕ) → 0 ≤ j → j < 0 + max_frames → is_used (tried s j) s ≡ true)
    → (g : ℕ) → is_used g s ≡ true
all_used s v all g = elim (Bool-cases (is_used g s)) [
  | inl e ↦ e
  | inr free ↦
      let h = is_used_lt g s free in
      let j = distance max_frames (s.search_hint % max_frames) g in
      ap (λ k. is_used k s) (sym (tried_all s g v.hint_in h)) ∙ all j (omega arith) (omega arith)
]

hint-IsValid :
    {s : Pmm} (h : ℕ) → h ≤ max_frames → IsValid s → IsValid (record s { search_hint = h })
hint-IsValid h le v = record { bytes = v.bytes; counted = v.counted; hint_in = le }

is_used-hint : (g h : ℕ) (s : Pmm) → is_used g (record s { search_hint = h }) ≡ is_used g s
unfolding is_used
is_used-hint g h s = refl

Took-OneFrame :
    (s : Pmm) (f : ℕ)
    → IsValid s
    → is_used 0 s ≡ true
    → is_used f s ≡ false
    → OneFrame s (f * frame_size, record (set_used f s) { search_hint = f + 1 })
Took-OneFrame s f v zero_used free =
    let h = is_used_lt f s free in
    let pos_f : f ≢ 0 = λ e. cc (ap (λ k. is_used k s) e) in
    (
      f,
      refl,
      omega arith,
      h,
      free,
      λ g. is_used-hint g (f + 1) (set_used f s) ∙ is_used-set_used f g v,
      free_frames-set_used f v free,
      hint-IsValid (f + 1) (omega arith) (set_used-IsValid f v),
    )

-- `pmm_alloc_frame`, where frame 0 is in use: it returns 0 and changes nothing only if no frame is
-- free. Otherwise it returns the address of a frame that was free, which is not 0; that frame
-- alone becomes used, the count of free frames falls by one, and the state stays valid.
pub alloc_frame_lem :
    (s : Pmm)
    → IsValid s
    → is_used 0 s ≡ true
    → NoFrame s (pmm_alloc_frame s) ⊎ OneFrame s (pmm_alloc_frame s)
unfolding pmm_alloc_frame
alloc_frame_lem s v zero_used = elim (alloc_from_cases max_frames 0 s) [
  | inl (e, all) ↦ inl (subst (NoFrame s) (sym e) (refl, refl, all_used s v all))
  | inr (f, free, e) ↦ inr (subst (OneFrame s) (sym e) (Took-OneFrame s f v zero_used free))
]

-- A frame that is freed can be had again: it is free, no other frame is changed, and the state
-- stays valid.
pub free_frame_lem :
    (addr : ℕ) (s : Pmm)
    → IsValid s
    → addr < max_frames * frame_size
    → let s' = pmm_free_frame addr s in
      (is_used (addr / frame_size) s' ≡ false)
      × ((g : ℕ) → g ≢ addr / frame_size → is_used g s' ≡ is_used g s)
      × IsValid s'
unfolding pmm_free_frame frame_of
free_frame_lem addr s v h = (
  ground (arith, is_used-set_free (addr / frame_size) (addr / frame_size) v),
  λ g ne. ground (arith, is_used-set_free (addr / frame_size) g v),
  set_free-IsValid (addr / frame_size) v,
)
