-- ===== src/Vmm/Access.antt =====
-- Which pages kernel/mm/vmm.c opens to user programs.
use mini_kernel.Prelude.{
  ℕ, ◌/◌, ◌%◌, ◌≡◌, refl, ap, sym, subst, ◌∙◌, ◌⊎◌, inl, inr, ℤ, minus_one, Bool, true, false,
  Option, none, some, List, if-true, if-false, ◌==◌, arith,
}
use mini_kernel.Vmm.{
  Vmm, page_user, page_size_2mb, pml4_index, pdpt_index, pd_index, pt_index, has, frame_of,
  get_or_split_pt_entry, set_pte, pte_of, user_entry, vmm_map_page_in, vmm_is_user_accessible_in,
}
use mini_kernel.Vmm.Walk.{Tree, points}
use mini_kernel.Vmm.Steps.{set_entry_at}
use mini_kernel.Vmm.Way.{Way, Link, Reached, get_or_split_pt_entry_lem}
use mini_kernel.Vmm.Mapping.{written, written-Way}
use mini_kernel.Vmm.Calls.{present_flags}

link_user : (depth e : ℕ) → points depth e ≡ true → has page_user e ≡ true → user_entry e ≡ true
link_user depth e leads user = ground arith

-- Behind tables that are open to users, the entry of the page decides.
Way-accessible :
    (label : ℕ → Option (List ℕ)) (t : ℕ → ℕ → ℕ) (space virt pt : ℕ)
    → Way (frame_of space) label t (pml4_index virt) (pdpt_index virt) (pd_index virt) pt
    → vmm_is_user_accessible_in t space virt ≡ user_entry (t pt (pt_index virt))
unfolding vmm_is_user_accessible_in
Way-accessible label t space virt pt w =
    let l4 = t (frame_of space) (pml4_index virt) in
    let l3 = t (frame_of l4) (pdpt_index virt) in
    let l2 = t (frame_of l3) (pd_index virt) in
    let first : Link 0 t (frame_of space) (pml4_index virt) w.pdpt = w.first in
    let second = subst (λ h. Link 1 t h (pdpt_index virt) w.pd) (sym first.1) w.second in
    let third = subst (λ h. Link 2 t h (pd_index virt) pt) (sym second.1) w.third in
    let small : has page_size_2mb l2 ≡ false = ground (arith, third.0) in
    if-true _ _ (link_user 0 l4 first.0 first.2)
    ∙ if-true _ _ (link_user 1 l3 second.0 second.2)
    ∙ if-true _ _ (link_user 2 l2 third.0 third.2)
    ∙ if-false _ _ small
    ∙ ap (λ h. user_entry (t h (pt_index virt))) third.1

abbrev pub OpensTo : Bool → ℕ → ℕ → ℤ × Vmm → Type 0
OpensTo b space virt (r, s') =
    (r ≡ minus_one) ⊎ (vmm_is_user_accessible_in s'.tables space virt ≡ b)

set_pte-OpensTo :
    (space : ℕ) (label : ℕ → Option (List ℕ)) (s : Vmm) (virt v : ℕ) (r : Option ℕ × Vmm)
    → Reached (frame_of space) label s (pml4_index virt) (pdpt_index virt) (pd_index virt) r
    → OpensTo (user_entry v) space virt (set_pte virt v r)
unfolding set_pte
set_pte-OpensTo space label s virt v (none, s') k = inl refl
set_pte-OpensTo space label s virt v (some pt, s') (k, way) = inr (
    Way-accessible k.label' (written (frame_of space) k.label' s' virt v pt k.tree way).tables space
      virt pt (written-Way (frame_of space) k.label' s' virt v pt k.tree way)
    ∙ ap user_entry (set_entry_at s'.tables pt (pt_index virt) v))

user_of_pte : (phys flags : ℕ) → user_entry (pte_of phys flags) ≡ has page_user flags
user_of_pte phys flags =
    let v = pte_of phys flags in
    let (below, odd, bit, third) = present_flags flags in
    let one : v / 1 % 2 ≡ 1 = omega arith in
    let user : v / 4 % 2 ≡ flags / 4 % 2 = omega arith in
    if-true _ _ (ap (λ (x : ℕ). x == 1) one) ∙ ap (λ (x : ℕ). x == 1) user

-- After a successful mapping in an address space whose tables are a tree, user programs reach the
-- page exactly where the flags asked for it.
pub vmm_map_page_in-accessible :
    (space virt phys flags : ℕ) (label : ℕ → Option (List ℕ)) (s : Vmm)
    → Tree (frame_of space) label s
    → OpensTo (has page_user flags) space virt (vmm_map_page_in space virt phys flags s)
unfolding vmm_map_page_in
vmm_map_page_in-accessible space virt phys flags label s tree =
    subst (λ b. OpensTo b space virt (vmm_map_page_in space virt phys flags s))
      (user_of_pte phys flags)
      (set_pte-OpensTo space label s virt (pte_of phys flags)
        (get_or_split_pt_entry (frame_of space) virt s)
        (get_or_split_pt_entry_lem (frame_of space) label s virt tree))
