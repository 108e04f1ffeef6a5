-- ===== src/Vmm/Destroy.antt =====
-- `vmm_destroy_address_space` of kernel/mm/vmm.c. Its loops read the tables, which freeing frames
-- leaves as they are.
use mini_kernel.Prelude.{
  Bool-cases, inl, inr, if-true, ℕ, zero, suc, ◌*◌, ◌/◌, ◌<◌, ◌≡◌, ◌≢◌, refl, ap, sym, subst, ◌∙◌,
  Bool, true, false, not, ◌&&◌, if◌then◌else◌, if-false, leb, ◌==◌, arith,
}
use mini_kernel.Pmm
use mini_kernel.Pmm.{Pmm, is_used, set_free, max_frames, pmm_free_frame}
use mini_kernel.Pmm.Frames.{IsValid, set_free-IsValid, is_used-set_free}
use mini_kernel.Vmm.{Vmm, page_present, page_size_2mb, page_4kb_size, has, frame_of, user_entry}

-- `for (i = 0; i < n; i++)`
unfoldable each : ℕ → (ℕ → Pmm → Pmm) → Pmm → Pmm
each zero round p = p
each (suc n) round p = round n (each n round p)

-- The pages of a table, then the table.
unfoldable destroy_pt : (ℕ → ℕ → ℕ) → ℕ → Pmm → Pmm
unfolding each
destroy_pt t pt p = pmm_free_frame (pt * page_4kb_size) (
    each 512
      (λ l1i q.
        let pte = t pt l1i in
        if user_entry pte then pmm_free_frame (frame_of pte * page_4kb_size) q else q)
      p)

unfoldable destroy_pd : (ℕ → ℕ → ℕ) → ℕ → Pmm → Pmm
unfolding each destroy_pt
destroy_pd t pd p = pmm_free_frame (pd * page_4kb_size) (
    each 512
      (λ l2i q.
        let l2 = t pd l2i in
        if has page_present l2
        then if has page_size_2mb l2 then q else destroy_pt t (frame_of l2) q
        else q)
      p)

unfoldable destroy_pdpt : (ℕ → ℕ → ℕ) → ℕ → Pmm → Pmm
unfolding each destroy_pd
destroy_pdpt t pdpt p = pmm_free_frame (pdpt * page_4kb_size) (
    each 512
      (λ l3i q.
        let l3 = t pdpt l3i in if has page_present l3 then destroy_pd t (frame_of l3) q else q)
      p)

-- An entry of the top table that the kernel's does not have.
abbrev private_entry : (ℕ → ℕ → ℕ) → ℕ → ℕ → ℕ → Bool
private_entry t kernel_pml4 pml4 l4i =
    has page_present (t pml4 l4i) && not (t pml4 l4i == t kernel_pml4 l4i)

pub vmm_destroy_address_space : ℕ → Vmm → Vmm
unfolding each destroy_pdpt
vmm_destroy_address_space space s =
    let pml4 = frame_of space in
    let freed =
      each 512
        (λ l4i q.
          if private_entry s.tables s.kernel_pml4 pml4 l4i
          then destroy_pdpt s.tables (frame_of (s.tables pml4 l4i)) q
          else q)
        s.pmm in
    if space == 0
    then s
    else if space == s.kernel_pml4 * page_4kb_size
    then s
    else record s { pmm = pmm_free_frame space freed }

-- Whether a test is true of some number below `n`.
some_below : ℕ → (ℕ → Bool) → Bool
some_below zero b = false
some_below (suc n) b = if b n then true else some_below n b

-- The frames that a table holds: its own and those behind its entries.
pt_holds : (ℕ → ℕ → ℕ) → ℕ → ℕ → Bool
pt_holds t h pt =
    if h == pt then true else some_below 512 (λ i. user_entry (t pt i) && (h == frame_of (t pt i)))

pd_holds : (ℕ → ℕ → ℕ) → ℕ → ℕ → Bool
pd_holds t h pd =
    if h == pd
    then true
    else some_below 512 (λ i.
      if has page_present (t pd i)
      then if has page_size_2mb (t pd i) then false else pt_holds t h (frame_of (t pd i))
      else false)

pdpt_holds : (ℕ → ℕ → ℕ) → ℕ → ℕ → Bool
pdpt_holds t h pdpt =
    if h == pdpt
    then true
    else some_below 512 (λ i. has page_present (t pdpt i) && pd_holds t h (frame_of (t pdpt i)))

-- A step that frees frame `h` if the test says so, and leaves its use as it is otherwise.
abbrev Frees : ℕ → Bool → (Pmm → Pmm) → Type 0
Frees h b step =
    (p : Pmm)
    → IsValid p
    → IsValid (step p) × (is_used h (step p) ≡ (if b then false else is_used h p))

either_false :
    (b c x : Bool)
    → (if b then false else if c then false else x) ≡ (if if b then true else c then false else x)
either_false true c x = refl
either_false false c x = refl

below_max :
    (f h : ℕ) (x : Bool)
    → h < max_frames
    → (if h == f then leb max_frames f else x) ≡ (if h == f then false else x)
below_max f h x below = ground arith

module _ (h : ℕ) (below : h < max_frames) where
  nothing-Frees : Frees h false (λ q. q)
  nothing-Frees p valid = (valid, refl)

  if-Frees :
      (test b : Bool) (step : Pmm → Pmm)
      → Frees h b step
      → Frees h (test && b) (λ q. if test then step q else q)
  if-Frees true b step frees = frees
  if-Frees false b step frees = nothing-Frees

  then-Frees :
      (b c : Bool) (f g : Pmm → Pmm)
      → Frees h b f
      → Frees h c g
      → Frees h (if b then true else c) (λ q. f (g q))
  then-Frees b c f g frees_f frees_g p valid =
      let (valid', used) = frees_g p valid in
      let (valid'', used') = frees_f (g p) valid' in
      (valid'', used' ∙ ap (λ x. if b then false else x) used ∙ either_false b c (is_used h p))

  address-Frees : (addr f : ℕ) → addr / 4096 ≡ f → Frees h (h == f) (pmm_free_frame addr)
  unfolding pmm_free_frame Pmm.frame_of
  address-Frees addr f same p valid = (
    set_free-IsValid (addr / 4096) valid,
    is_used-set_free (addr / 4096) h valid
        ∙ below_max (addr / 4096) h (is_used h p) below
        ∙ ap (λ k. if h == k then false else is_used h p) same,
  )

  frame-Frees : (f : ℕ) → Frees h (h == f) (pmm_free_frame (f * page_4kb_size))
  frame-Frees f = address-Frees (f * page_4kb_size) f (omega arith)

  each-Frees :
      (b : ℕ → Bool) (round : ℕ → Pmm → Pmm)
      → ((i : ℕ) → Frees h (b i) (round i))
      → (n : ℕ) → Frees h (some_below n b) (each n round)
  unfolding each some_below
  each-Frees b round frees zero = nothing-Frees
  each-Frees b round frees (suc n) =
      then-Frees (b n) (some_below n b) (round n) (each n round) (frees n)
        (each-Frees b round frees n)

  -- The entries of a table, then the table.
  table-Frees :
      (f : ℕ) (b : ℕ → Bool) (round : ℕ → Pmm → Pmm)
      → ((i : ℕ) → Frees h (b i) (round i))
      → Frees h
          (if h == f then true else some_below 512 b)
          (λ q. pmm_free_frame (f * page_4kb_size) (each 512 round q))
  table-Frees f b round frees =
      then-Frees (h == f) (some_below 512 b) (pmm_free_frame (f * page_4kb_size)) (each 512 round)
        (frame-Frees f) (each-Frees b round frees 512)

  destroy_pt-Frees : (t : ℕ → ℕ → ℕ) (pt : ℕ) → Frees h (pt_holds t h pt) (destroy_pt t pt)
  unfolding destroy_pt pt_holds
  destroy_pt-Frees t pt = table-Frees pt _ _ (λ i.
      if-Frees (user_entry (t pt i)) (h == frame_of (t pt i))
        (pmm_free_frame (frame_of (t pt i) * page_4kb_size)) (frame-Frees (frame_of (t pt i))))

  pd_entry-Frees :
      (present size_2mb b : Bool) (step : Pmm → Pmm)
      → Frees h b step
      → Frees h
          (if present then if size_2mb then false else b else false)
          (λ q. if present then if size_2mb then q else step q else q)
  pd_entry-Frees false large b step frees = nothing-Frees
  pd_entry-Frees true true b step frees = nothing-Frees
  pd_entry-Frees true false b step frees = frees

  destroy_pd-Frees : (t : ℕ → ℕ → ℕ) (pd : ℕ) → Frees h (pd_holds t h pd) (destroy_pd t pd)
  unfolding destroy_pd pd_holds
  destroy_pd-Frees t pd = table-Frees pd _ _ (λ i.
      pd_entry-Frees (has page_present (t pd i)) (has page_size_2mb (t pd i))
        (pt_holds t h (frame_of (t pd i))) (destroy_pt t (frame_of (t pd i)))
        (destroy_pt-Frees t (frame_of (t pd i))))

  destroy_pdpt-Frees :
      (t : ℕ → ℕ → ℕ) (pdpt : ℕ) → Frees h (pdpt_holds t h pdpt) (destroy_pdpt t pdpt)
  unfolding destroy_pdpt pdpt_holds
  destroy_pdpt-Frees t pdpt = table-Frees pdpt _ _ (λ i.
      if-Frees (has page_present (t pdpt i)) (pd_holds t h (frame_of (t pdpt i)))
        (destroy_pd t (frame_of (t pdpt i))) (destroy_pd-Frees t (frame_of (t pdpt i))))

-- Whether a frame is held behind an entry of a top table that differs from the kernel's.
abbrev behind : (ℕ → ℕ → ℕ) → ℕ → ℕ → ℕ → ℕ → Bool
behind t kernel_pml4 pml4 h i =
    if t pml4 i == t kernel_pml4 i
    then false
    else if has page_present (t pml4 i)
    then pdpt_holds t h (frame_of (t pml4 i))
    else false

-- The entries that the source's test skips are the absent ones and the kernel's.
behind-private :
    (t : ℕ → ℕ → ℕ) (kernel_pml4 pml4 h i : ℕ)
    → (private_entry t kernel_pml4 pml4 i && pdpt_holds t h (frame_of (t pml4 i)))
      ≡ behind t kernel_pml4 pml4 h i
behind-private t kernel_pml4 pml4 h i = elim (Bool-cases (t pml4 i == t kernel_pml4 i)) [
  | inl e ↦ elim (Bool-cases (has page_present (t pml4 i))) [
    | inl q ↦ rw (e, q) refl
    | inr q ↦ rw (e, q) refl
  ]
  | inr e ↦ elim (Bool-cases (has page_present (t pml4 i))) [
    | inl q ↦ rw (e, q) refl
    | inr q ↦ rw (e, q) refl
  ]
]

behind_same :
    (t : ℕ → ℕ → ℕ) (kernel_pml4 pml4 h i : ℕ)
    → t pml4 i ≡ t kernel_pml4 i
    → behind t kernel_pml4 pml4 h i ≡ false
behind_same t kernel_pml4 pml4 h i same =
    let equal : (t pml4 i == t kernel_pml4 i) ≡ true = ground arith in if-true _ _ equal

-- Whether a frame is an address space's top table, or is held behind a present entry of it that
-- differs from the kernel's.
pub holds : Vmm → ℕ → ℕ → Bool
holds s space h =
    if h == space / 4096
    then true
    else some_below 512 (behind s.tables s.kernel_pml4 (frame_of space) h)

-- Destroying an address space other than the kernel's frees its top table and, behind each present
-- entry of it that differs from the kernel's in any bit, the tables and the pages that are open to
-- users. Each other frame of memory is used as it was; the tables stay.
pub vmm_destroy_address_space_lem :
    (space : ℕ) (s : Vmm) (h : ℕ)
    → IsValid s.pmm
    → space ≢ 0
    → space ≢ s.kernel_pml4 * page_4kb_size
    → h < max_frames
    → let s' = vmm_destroy_address_space space s in
      IsValid s'.pmm
      × (is_used h s'.pmm ≡ (if holds s space h then false else is_used h s.pmm))
      × (s'.tables ≡ s.tables)
unfolding vmm_destroy_address_space holds
vmm_destroy_address_space_lem space s h valid not_null not_kernel below =
    let t = s.tables in
    let pml4 = frame_of space in
    let some_space : (space == 0) ≡ false = ground arith in
    let own_space : (space == s.kernel_pml4 * page_4kb_size) ≡ false = ground arith in
    let same = if-false _ _ some_space ∙ if-false _ _ own_space in
    let (valid', used) =
      then-Frees h below (h == space / 4096) _ (pmm_free_frame space) _
        (address-Frees h below space (space / 4096) refl)
        (each-Frees h below (behind t s.kernel_pml4 pml4 h) _
          (λ i.
            subst
              (λ b. Frees h b (λ q.
                if private_entry t s.kernel_pml4 pml4 i
                then destroy_pdpt t (frame_of (t pml4 i)) q
                else q))
              (behind-private t s.kernel_pml4 pml4 h i)
              (if-Frees h below (private_entry t s.kernel_pml4 pml4 i)
                (pdpt_holds t h (frame_of (t pml4 i))) (destroy_pdpt t (frame_of (t pml4 i)))
                (destroy_pdpt-Frees h below t (frame_of (t pml4 i)))))
          512)
        s.pmm valid in
    (
      subst (λ (r : Vmm). IsValid r.pmm) (sym same) valid',
      ap (λ (r : Vmm). is_used h r.pmm) same ∙ used,
      ap (λ (r : Vmm). r.tables) same,
    )

pub vmm_destroy_address_space-null : (s : Vmm) → vmm_destroy_address_space 0 s ≡ s
unfolding vmm_destroy_address_space
vmm_destroy_address_space-null s = refl

if_same : (b : Bool) → (if b then true else false) ≡ b
if_same true = refl
if_same false = refl

-- Nothing is held behind no entry.
nothing_below : (n : ℕ) (b : ℕ → Bool) → ((i : ℕ) → i < n → b i ≡ false) → some_below n b ≡ false
unfolding some_below
nothing_below zero b all = refl
nothing_below (suc n) b all =
    if-false _ _ (all n (omega arith)) ∙ nothing_below n b (λ i lt. all i (omega arith))

-- A space with the kernel's top entries holds its own frame alone.
pub holds-shared :
    (s : Vmm) (space h : ℕ)
    → ((i : ℕ) → i < 512 → s.tables (frame_of space) i ≡ s.tables s.kernel_pml4 i)
    → holds s space h ≡ (h == space / 4096)
unfolding holds
holds-shared s space h shared =
    let t = s.tables in
    let none_held =
      nothing_below 512 (behind t s.kernel_pml4 (frame_of space) h)
        (λ i lt. behind_same t s.kernel_pml4 (frame_of space) h i (shared i lt)) in
    ap (λ x. if h == space / 4096 then true else x) none_held ∙ if_same (h == space / 4096)
