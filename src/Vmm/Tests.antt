-- ===== src/Vmm/Tests.antt =====
-- The page tables of kernel/mm/vmm.c at concrete states.
use mini_kernel.Prelude.{
  ℕ, ◌*◌, ◌/◌, ◌%◌, ◌<◌, ◌≡◌, refl, sym, subst, ◌⊎◌, inl, inr, true, false, Option, none, some,
  List, [], ◌∷◌, if◌then◌else◌, if_elim, ◌==◌, ==_iff, length, arith,
}
use mini_kernel.Pmm.{Pmm, Entry, is_used, pmm_init}
use mini_kernel.Pmm.Frames.{IsValid}
use mini_kernel.Pmm.Init.{init_lem}
use mini_kernel.Vmm.{
  Vmm, page_4kb_size, frame_of, vmm_map_page_in, vmm_unmap_page_in, vmm_is_mapped_in,
  vmm_is_user_accessible_in, vmm_create_address_space,
}
use mini_kernel.Vmm.Walk.{walk, points, huge, translate, Tree, some_inj}
use mini_kernel.Vmm.Calls.{SetsPage, vmm_map_page_in_lem, vmm_unmap_page_in_lem}
use mini_kernel.Vmm.Access.{OpensTo, vmm_map_page_in-accessible}
use mini_kernel.Vmm.Spaces.{Creates, vmm_create_address_space_lem, create_destroy}
use mini_kernel.Vmm.Destroy.{vmm_destroy_address_space, vmm_destroy_address_space_lem, holds}
use mini_kernel.Vmm.Boot.{vmm_init, vmm_init_lem}
use mini_kernel.Vmm.Huge.{MapsMore}
use mini_kernel.Vmm.Stacks.{Region, Faulted, vmm_handle_page_fault, vmm_handle_page_fault_lem}

-- A machine with 16 MiB from 1 MiB on, and frames 1, 2 and 3 as the kernel's tables: the first 2 MB are
-- one page.
abbrev memory : List Entry
memory = record { base = 0x100000; length = 0x1000000; type = 1 } ∷ []

abbrev boot_pmm : Pmm
boot_pmm = pmm_init memory 0x20000

abbrev boot_tables : ℕ → ℕ → ℕ
boot_tables f i =
    if i == 0
    then if f == 1 then 0x2003 else if f == 2 then 0x3003 else if f == 3 then 0x83 else 0
    else 0

abbrev boot : Vmm
boot = record { tables = boot_tables; pmm = boot_pmm; kernel_pml4 = 1 }

abbrev boot_label : ℕ → Option (List ℕ)
boot_label f =
    if f == 1
    then some []
    else if f == 2
    then some (0 ∷ [])
    else if f == 3
    then some (0 ∷ 0 ∷ [])
    else none

abbrev Labelled : ℕ → List ℕ → Type 0
Labelled f p = ((f ≡ 1) × (p ≡ [])) ⊎ ((f ≡ 2) × (p ≡ 0 ∷ [])) ⊎ ((f ≡ 3) × (p ≡ 0 ∷ 0 ∷ []))

boot_labels : (f : ℕ) (p : List ℕ) → boot_label f ≡ some p → Labelled f p
boot_labels f p =
    if_elim (λ x. x ≡ some p → Labelled f p) (f == 1)
      (λ e at. inl ((==_iff f 1).0 e, some_inj p [] (sym at)))
      (λ _.
        if_elim (λ x. x ≡ some p → Labelled f p) (f == 2)
          (λ e at. inr (inl ((==_iff f 2).0 e, some_inj p (0 ∷ []) (sym at))))
          (λ _.
            if_elim (λ x. x ≡ some p → Labelled f p) (f == 3)
              (λ e at. inr (inr ((==_iff f 3).0 e, some_inj p (0 ∷ 0 ∷ []) (sym at))))
              (λ _ at. absurd cc)))

reserved : (f : ℕ) → f < 8 → is_used f boot_pmm ≡ true
reserved f lt =
    (init_lem memory 0x20000 f (omega arith)).1 (f * 4096) (omega arith) (inl (omega arith))

boot_pmm-IsValid : IsValid boot_pmm
boot_pmm-IsValid = (init_lem memory 0x20000 0 (omega arith)).0

label_small : (f : ℕ) (p : List ℕ) → boot_label f ≡ some p → f < 8
label_small f p at = elim (boot_labels f p at) [
  | inl (one, _) ↦ omega arith
  | inr (inl (two, _)) ↦ omega arith
  | inr (inr (three, _)) ↦ omega arith
]

-- The entries of a table of the boot, where the first is `e`.
first_entry :
    (P : ℕ → ℕ → Type 0) (i e : ℕ) → P 0 e → ((j : ℕ) → P j 0) → P i (if i == 0 then e else 0)
first_entry P i e first rest =
    if_elim (P i) (i == 0) (λ z. subst (λ j. P j e) (sym ((==_iff i 0).0 z)) first) (λ _. rest i)

boot_Entries :
    (P : List ℕ → ℕ → ℕ → Type 0)
    → P [] 0 0x2003
    → P (0 ∷ []) 0 0x3003
    → P (0 ∷ 0 ∷ []) 0 0x83
    → ((p : List ℕ) (j : ℕ) → P p j 0)
    → (f : ℕ) (p : List ℕ) (i : ℕ) → boot_label f ≡ some p
    → P p i (boot_tables f i)
boot_Entries P a b c rest f p i at = elim (boot_labels f p at) [
  | inl (one, path) ↦
      subst (λ q. P q i (boot_tables f i)) (sym path)
        (subst (λ h. P [] i (boot_tables h i)) (sym one) (first_entry (P []) i 0x2003 a (rest [])))
  | inr (inl (two, path)) ↦
      subst (λ q. P q i (boot_tables f i)) (sym path)
        (subst (λ h. P (0 ∷ []) i (boot_tables h i)) (sym two)
          (first_entry (P (0 ∷ [])) i 0x3003 b (rest (0 ∷ []))))
  | inr (inr (three, path)) ↦
      subst (λ q. P q i (boot_tables f i)) (sym path)
        (subst (λ h. P (0 ∷ 0 ∷ []) i (boot_tables h i)) (sym three)
          (first_entry (P (0 ∷ 0 ∷ [])) i 0x83 c (rest (0 ∷ 0 ∷ []))))
]

boot-Tree : Tree 1 boot_label boot
boot-Tree = record {
  root_label = refl;
  null_label = refl;
  frame_used = λ f p at. reserved f (label_small f p at);
  child_label = λ f p i at small.
      boot_Entries (λ q j e. points (length q) e ≡ true → boot_label (frame_of e) ≡ some (j ∷ q))
        (λ _. refl) (λ _. refl) (λ leads. absurd cc) (λ q j leads. absurd cc) f p i at;
  huge_aligned = λ f p i at small.
      boot_Entries (λ q j e. huge (length q) e ≡ true → frame_of e % 512 ≡ 0) (λ large. absurd cc)
        (λ large. absurd cc) (λ _. refl) (λ q j _. refl) f p i at;
  pmm_valid = boot_pmm-IsValid;
  zero_used = reserved 0 (omega arith);
}

vmm_map_page_in_lem_example :
    SetsPage 0x1000 boot 0x5123
      (some (record { frame = 0x700; writable = true }))
      (vmm_map_page_in 0x1000 0x5123 0x700000 6 boot)
vmm_map_page_in_lem_example = vmm_map_page_in_lem 0x1000 0x5123 0x700000 6 boot_label boot boot-Tree

vmm_unmap_page_in_lem_example :
    SetsPage 0x1000 boot 0x5123 none (vmm_unmap_page_in 0x1000 0x5123 boot)
vmm_unmap_page_in_lem_example = vmm_unmap_page_in_lem 0x1000 0x5123 boot_label boot boot-Tree

vmm_map_page_in-accessible_example :
    OpensTo true 0x1000 0x5123 (vmm_map_page_in 0x1000 0x5123 0x700000 6 boot)
vmm_map_page_in-accessible_example =
    vmm_map_page_in-accessible 0x1000 0x5123 0x700000 6 boot_label boot boot-Tree

vmm_create_address_space_lem_example :
    (vmm_create_address_space boot ≡ (0, boot)) ⊎ Creates boot (vmm_create_address_space boot)
vmm_create_address_space_lem_example = vmm_create_address_space_lem boot_label boot boot-Tree

create_destroy_example :
    let (space, s') = vmm_create_address_space boot in
    is_used 0x150 (vmm_destroy_address_space space s').pmm ≡ is_used 0x150 boot.pmm
create_destroy_example = create_destroy boot_label boot 0x150 boot-Tree (omega arith)

-- A space with its own tables in slot 1.
abbrev process_tables : ℕ → ℕ → ℕ
process_tables f i =
    if f == 0x120 then if i == 1 then 0x121007 else boot_tables 1 i else boot_tables f i

abbrev process : Vmm
process = record { tables = process_tables; pmm = boot_pmm; kernel_pml4 = 1 }

vmm_destroy_address_space_lem_example :
    let s' = vmm_destroy_address_space 0x120000 process in
    IsValid s'.pmm
    × (is_used 0x121 s'.pmm
        ≡ (if holds process 0x120000 0x121 then false else is_used 0x121 process.pmm))
    × (s'.tables ≡ process.tables)
vmm_destroy_address_space_lem_example =
    vmm_destroy_address_space_lem 0x120000 process 0x121 boot_pmm-IsValid (λ e. omega arith)
      (λ e. omega arith) (omega arith)

-- Two stacks of two spaces.
abbrev stacks : List Region
stacks =
    record { space = 0x120000; stack_top = 0x8000000; stack_limit = 0x7F00000 }
    ∷ record { space = 0x1000; stack_top = 0x9000000; stack_limit = 0x8F00000 }
    ∷ []

vmm_handle_page_fault_lem_example :
    Faulted stacks 0x1000
      (0x8FFF123 / page_4kb_size * page_4kb_size)
      boot
      (vmm_handle_page_fault stacks 0x1000 0x8FFF123 boot)
vmm_handle_page_fault_lem_example =
    vmm_handle_page_fault_lem stacks 0x1000 0x8FFF123 boot_label boot boot-Tree

vmm_init_lem_example : MapsMore 1 boot (vmm_init 0x1000 memory boot)
vmm_init_lem_example = vmm_init_lem 0x1000 memory boot_label boot (omega arith, tt) boot-Tree

-- The tables run.
reads_2mb : translate boot_tables 0x1000 0x5123 ≡ some (record { frame = 5; writable = true })
unfolding walk
reads_2mb = refl

no_second_page : vmm_is_mapped_in boot_tables 0x1000 0x200000 ≡ false
unfolding vmm_is_mapped_in
no_second_page = refl

kernel_only : vmm_is_user_accessible_in boot_tables 0x1000 0x5123 ≡ false
unfolding vmm_is_user_accessible_in
kernel_only = refl
