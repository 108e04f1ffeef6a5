-- ===== src/Pmm/Runs.antt =====
-- `pmm_alloc_contiguous` of kernel/mm/pmm.c finds a run of free frames exactly where there is one.
use mini_kernel.Prelude.{
  ℕ, zero, suc, ◌+◌, ◌*◌, ◌≤◌, ◌<◌, ◌≡◌, ◌≢◌, refl, sym, subst, true, false, if_elim, ==_iff, ◌==◌,
  ◌⊎◌, inl, inr, arith, ltb, leb, if◌then◌else◌, dec_lt, ℕ_discrete,
}
use mini_kernel.Pmm.{
  Pmm, frame_size, is_used, use_frames, max_frames, contiguous_from, pmm_alloc_contiguous,
}
use mini_kernel.Pmm.Frames.{IsValid, use_frames-IsValid, is_used-use_frames}

-- A frame from `a` on and below `b` is used.
abbrev pub UsedIn : Pmm → ℕ → ℕ → Type 0
UsedIn s a b = (g : ℕ) × (a ≤ g) × (g < b) × (is_used g s ≡ true)

-- Every frame from `a` on and below `b` is free.
abbrev pub FreeIn : Pmm → ℕ → ℕ → Type 0
FreeIn s a b = (g : ℕ) → a ≤ g → g < b → is_used g s ≡ false

-- The loop's state at frame `f`: the frames of the run are free and end at `f`, the run is as long
-- as it can be, and no `count` free frames stand before `f`.
record Scan (s : Pmm) (count f run_start run_len : ℕ) : Type 0 where
  ends : 0 < run_len → run_start + run_len ≡ f
  short : run_len < count
  run_free : 0 < run_len → FreeIn s run_start f
  no_window : (a : ℕ) → a + count ≤ f → UsedIn s a (a + count)
  maximal : (a : ℕ) → a + run_len < f → UsedIn s a f

-- Two frames used to end a window.
widen : (s : Pmm) (a b c : ℕ) → b ≤ c → UsedIn s a b → UsedIn s a c
widen s a b c le (g, p, q, u) = (g, p, omega arith, u)

used-Scan :
    (s : Pmm) (count f run_start run_len : ℕ)
    → Scan s count f run_start run_len
    → is_used f s ≡ true
    → Scan s count (f + 1) run_start 0
used-Scan s count f run_start run_len v u = record {
  ends = λ p. absurd (omega arith);
  short = omega arith;
  run_free = λ p. absurd (omega arith);
  no_window = λ a h. elim (dec_lt f (a + count)) [
    | yes p ↦ (f, omega arith, p, u)
    | no p ↦ v.no_window a (omega arith)
  ];
  maximal = λ a h. (f, omega arith, omega arith, u);
}

-- A free frame behind the run makes it longer.
abbrev longer_start : ℕ → ℕ → ℕ → ℕ
longer_start f run_start run_len = if run_len == 0 then f else run_start

longer_run :
    (s : Pmm) (count f run_start run_len : ℕ)
    → Scan s count f run_start run_len
    → is_used f s ≡ false
    → FreeIn s (longer_start f run_start run_len) (f + 1)
longer_run s count f run_start run_len v u g p q = elim (ℕ_discrete g f) [
  | yes e ↦ rw e u
  | no other ↦ elim (ℕ_discrete run_len 0) [
    | yes z ↦ absurd (ground arith)
    | no nz ↦ v.run_free (omega arith) g (ground arith) (omega arith)
  ]
]

free-Scan :
    (s : Pmm) (count f run_start run_len : ℕ)
    → Scan s count f run_start run_len
    → is_used f s ≡ false
    → run_len + 1 ≢ count
    → Scan s count (f + 1) (longer_start f run_start run_len) (run_len + 1)
free-Scan s count f run_start run_len v u ne = record {
  ends = λ p. ground (arith, v.ends);
  short = omega (arith, v.short);
  run_free = λ p. longer_run s count f run_start run_len v u;
  no_window = λ a h. elim (dec_lt f (a + count)) [
    | yes p ↦ widen s a f (a + count) (omega arith) (v.maximal a (omega (arith, v.short)))
    | no p ↦ v.no_window a (omega arith)
  ];
  maximal = λ a h. widen s a f (f + 1) (omega arith) (v.maximal a (omega arith));
}

-- What the search gives: nothing, or the run that it marks.
abbrev NoRun : Pmm → ℕ → ℕ → ℕ × Pmm → Type 0
NoRun s count end r = (r ≡ (0, s)) × ((a : ℕ) → a + count ≤ end → UsedIn s a (a + count))

abbrev Run : Pmm → ℕ → ℕ → ℕ × Pmm → Type 0
Run s count end r =
    (start : ℕ) × (start + count ≤ end)
    × FreeIn s start (start + count)
    × (r ≡ (start * frame_size, use_frames start count s))

abbrev Searched : Pmm → ℕ → ℕ → ℕ × Pmm → Type 0
Searched s count end r = NoRun s count end r ⊎ Run s count end r

hit :
    (s : Pmm) (count f rounds run_start run_len : ℕ)
    → Scan s count f run_start run_len
    → is_used f s ≡ false
    → run_len + 1 ≡ count
    → let start = longer_start f run_start run_len in
      Run s count (f + suc rounds) (start * frame_size, use_frames start count s)
hit s count f rounds run_start run_len v u e =
    let start = longer_start f run_start run_len in
    let whole : start + count ≡ f + 1 = ground (arith, v.ends) in
    (
      start,
      omega arith,
      subst (FreeIn s start) (sym whole) (longer_run s count f run_start run_len v u),
      refl,
    )

contiguous_cases :
    (rounds f run_start run_len count : ℕ) (s : Pmm)
    → Scan s count f run_start run_len
    → Searched s count (f + rounds) (contiguous_from rounds f run_start run_len count s)
unfolding contiguous_from
contiguous_cases zero f run_start run_len count s v = inl (refl, λ a h. v.no_window a (omega arith))
contiguous_cases (suc rounds) f run_start run_len count s v =
    let start = longer_start f run_start run_len in
    let end : f + 1 + rounds ≡ f + suc rounds = omega arith in
    if_elim (Searched s count (f + suc rounds)) (is_used f s)
      (λ u.
        subst (λ n. Searched s count n (contiguous_from rounds (f + 1) run_start 0 count s)) end
          (contiguous_cases rounds (f + 1) run_start 0 count s
            (used-Scan s count f run_start run_len v u)))
      λ u.
        if_elim (Searched s count (f + suc rounds)) (run_len + 1 == count)
          (λ e. inr (hit s count f rounds run_start run_len v u ((==_iff _ _).0 e)))
          λ e.
            subst
              (λ n. Searched s count n (contiguous_from rounds (f + 1) start (run_len + 1) count s))
              end
              (contiguous_cases rounds (f + 1) start (run_len + 1) count s
                (free-Scan s count f run_start run_len v u (λ q. cc (e, (==_iff _ _).1 q))))

-- No run of `count` free frames exists, and nothing is changed.
abbrev pub NoFrames : ℕ → Pmm → ℕ × Pmm → Type 0
NoFrames count s (addr, s') =
    (addr ≡ 0) × (s' ≡ s) × ((a : ℕ) → a + count ≤ max_frames → UsedIn s a (a + count))

-- The address of a run of frames that were free, and that alone are marked.
abbrev pub Frames : ℕ → Pmm → ℕ × Pmm → Type 0
Frames count s (addr, s') =
    (start : ℕ) × (addr ≡ start * frame_size)
    × (start + count ≤ max_frames)
    × FreeIn s start (start + count)
    × ((g : ℕ)
        → is_used g s' ≡ (
            if leb start g
            then (if ltb g (start + count) then true else is_used g s)
            else is_used g s))
    × IsValid s'

-- `pmm_alloc_contiguous` for at least one frame: it returns 0 and changes nothing only if no run
-- of so many free frames exists. Otherwise it returns the address of a run of so many frames that
-- were free; these alone become used, and the state stays valid.
pub alloc_contiguous_lem :
    (count : ℕ) (s : Pmm)
    → 0 < count
    → IsValid s
    → NoFrames count s (pmm_alloc_contiguous count s)
      ⊎ Frames count s (pmm_alloc_contiguous count s)
unfolding pmm_alloc_contiguous
alloc_contiguous_lem count s h v =
    let first : Scan s count 0 0 0 = record {
      ends = λ p. absurd (omega arith);
      short = h;
      run_free = λ p. absurd (omega arith);
      no_window = λ a p. absurd (omega arith);
      maximal = λ a p. absurd (omega arith);
    } in
    if_elim (λ (r : ℕ × Pmm). NoFrames count s r ⊎ Frames count s r) (count == 0)
      (λ e. absurd (ground arith))
      λ e. elim (contiguous_cases max_frames 0 0 0 count s first) [
        | inl (q, none_free) ↦
            inl (subst (NoFrames count s) (sym q) (refl, refl, λ a p. none_free a (omega arith)))
        | inr (start, p, free, q) ↦ inr (
            subst (Frames count s) (sym q) (
              start,
              refl,
              omega arith,
              free,
              λ g. is_used-use_frames count start g v,
              use_frames-IsValid count start v,
            ))
      ]
