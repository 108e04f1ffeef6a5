-- ===== src/Memfs/Contents.antt =====
-- What the files of kernel/core/memfs.c hold: a write is read back.
use mini_kernel.Prelude.{
  doubled_ends, store, store_before, store_behind, slice-store, mod_small, ℕ, ◌+◌, ◌-◌, ◌*◌, ◌%◌,
  ◌^◌, ◌≤◌, ◌<◌, ◌≡◌, ◌≢◌, refl, ap, ap₂, sym, subst, ◌∙◌, pos, minus_one, true, Option, none, some,
  List, [], ◌∷◌, if◌then◌else◌, ltb, leb, update, update_ne, update_self, length, slice, arith, ◌⊎◌,
  inl, inr, Option-cases, Bool-cases, if_elim,
}
use mini_kernel.Memfs.{
  MemfsEntry, Memfs, with_entry, entry_index, Write, returns, ensure_capacity, stored, int_of,
  memfs_write_at, memfs_read_at,
}

-- The file of an entry: its bytes.
abbrev pub file : Memfs → ℕ → List ℕ
file s i = slice (s.entries i).contents 0 (s.entries i).size

-- One entry is changed, and of that only the bytes beyond its size and the capacity, which is
-- enough.
record Ready (s : Memfs) (i needed : ℕ) (s' : Memfs) : Type 0 where
  same_table : s'.entry_capacity ≡ s.entry_capacity
  others : (j : ℕ) → j ≢ i → s'.entries j ≡ s.entries j
  same_use : (s'.entries i).in_use ≡ (s.entries i).in_use
  same_name : (s'.entries i).name ≡ (s.entries i).name
  same_size : (s'.entries i).size ≡ (s.entries i).size
  same_bytes :
      (k : ℕ) → k < (s.entries i).size → (s'.entries i).contents k ≡ (s.entries i).contents k
  enough : needed ≤ (s'.entries i).capacity

replaced-Ready :
    (s : Memfs) (i needed capacity : ℕ) (buf : ℕ → ℕ)
    → needed ≤ capacity
    → let e = s.entries i in
      Ready s i needed (
        with_entry s i (record e {
          contents = λ k. if ltb k e.size then e.contents k else buf k;
          capacity = capacity;
        }))
replaced-Ready s i needed capacity buf h =
    let e = s.entries i in
    let e' : MemfsEntry = record e {
      contents = λ k. if ltb k e.size then e.contents k else buf k;
      capacity = capacity;
    } in
    let at : update s.entries i e' i ≡ e' = update_self s.entries i e' in
    record {
      same_table = refl;
      others = λ j ne. update_ne s.entries i j e' ne;
      same_use = ap (λ x. x.in_use) at;
      same_name = ap (λ x. x.name) at;
      same_size = ap (λ x. x.size) at;
      same_bytes = λ k lt. ap (λ x. x.contents k) at ∙ ground arith;
      enough = subst (λ (x : MemfsEntry). needed ≤ x.capacity) (sym at) h;
    }

-- `ensure_capacity` returns: -1 with nothing changed where there is no memory, or 0.
abbrev Ensured : (ℕ → Option (ℕ → ℕ)) → Memfs → ℕ → ℕ → Write → Type 0
Ensured kmalloc s i needed w =
    ((w ≡ returns minus_one s) × (c : ℕ) × (kmalloc c ≡ none))
    ⊎ (s' : Memfs) × (w ≡ returns (pos 0) s') × Ready s i needed s'

ensure_capacity_lem :
    (kmalloc : ℕ → Option (ℕ → ℕ)) (i needed : ℕ) (s : Memfs)
    → needed ≤ 2 ^ 31
    → 0 < (s.entries i).capacity
    → Ensured kmalloc s i needed (ensure_capacity kmalloc i needed s)
unfolding ensure_capacity
ensure_capacity_lem kmalloc i needed s small pos_c =
    let e = s.entries i in
    if_elim (Ensured kmalloc s i needed) (leb needed e.capacity)
      (λ h. inr (
        s,
        refl,
        record {
          same_table = refl;
          others = λ j ne. refl;
          same_use = refl;
          same_name = refl;
          same_size = refl;
          same_bytes = λ k lt. refl;
          enough = ground arith;
        },
      ))
      λ h.
        let (c, found, le) =
          doubled_ends 63 (e.capacity * 2 % 2 ^ 32) needed small (ground arith) in
        elim (Option-cases (kmalloc c)) [
          | inl failed ↦ inl (rw (found, failed) refl, c, failed)
          | inr (buf, got) ↦ inr (_, rw (found, got) refl, replaced-Ready s i needed c buf le)
        ]

-- A handle of a file.
abbrev pub InUse : Memfs → ℕ → Type 0
InUse s i = (i < s.entry_capacity) × ((s.entries i).in_use ≡ true)

InUse-index : (s : Memfs) (i : ℕ) → InUse s i → entry_index s (pos i) ≡ some i
InUse-index s i (h, u) = ground arith

-- The bytes are in the file from the offset on, and the rest of it and the other files are as
-- they were.
pub record Written (s : Memfs) (i offset : ℕ) (bytes : List ℕ) (s' : Memfs) : Type 0 where
  pub still_used : InUse s' i
  pub others : (j : ℕ) → j ≢ i → s'.entries j ≡ s.entries j
  pub same_name : (s'.entries i).name ≡ (s.entries i).name
  pub size_now : (s'.entries i).size ≡ (
      if ltb (s.entries i).size (offset + length bytes)
      then offset + length bytes
      else (s.entries i).size)
  pub fits : offset + length bytes ≤ (s'.entries i).capacity
  pub before :
      (k : ℕ)
      → k < (s.entries i).size
      → k < offset
      → (s'.entries i).contents k ≡ (s.entries i).contents k
  pub behind :
      (k : ℕ)
      → k < (s.entries i).size
      → offset + length bytes ≤ k
      → (s'.entries i).contents k ≡ (s.entries i).contents k
  pub stored_bytes : slice (s'.entries i).contents offset (length bytes) ≡ bytes

stored-Written :
    (s s1 : Memfs) (i offset : ℕ) (bytes : List ℕ)
    → InUse s i
    → Ready s i (offset + length bytes) s1
    → let e = s1.entries i in
      let needed = offset + length bytes in
      Written s i offset bytes (
        with_entry s1 i (record e {
          contents = store e.contents offset bytes;
          size = if ltb e.size needed then needed else e.size;
        }))
stored-Written s s1 i offset bytes (lt, u) r =
    let e = s1.entries i in
    let needed = offset + length bytes in
    let e' : MemfsEntry = record e {
      contents = store e.contents offset bytes;
      size = if ltb e.size needed then needed else e.size;
    } in
    let at : update s1.entries i e' i ≡ e' = update_self s1.entries i e' in
    record {
      still_used = (omega (arith, r.same_table), ap (λ x. x.in_use) at ∙ r.same_use ∙ u);
      others = λ j ne. update_ne s1.entries i j e' ne ∙ r.others j ne;
      same_name = ap (λ x. x.name) at ∙ r.same_name;
      size_now = ap (λ x. x.size) at ∙ ap (λ n. if ltb n needed then needed else n) r.same_size;
      fits = subst (λ (x : MemfsEntry). needed ≤ x.capacity) (sym at) r.enough;
      before = λ k h p.
          ap (λ x. x.contents k) at ∙ store_before bytes e.contents offset k p ∙ r.same_bytes k h;
      behind = λ k h p.
          ap (λ x. x.contents k) at ∙ store_behind bytes e.contents offset k p ∙ r.same_bytes k h;
      stored_bytes =
          ap (λ x. slice x.contents offset (length bytes)) at ∙ slice-store bytes e.contents offset;
    }

-- `memfs_write_at` returned -1 with nothing changed and no memory to be had, or the number of
-- bytes.
abbrev pub WriteResult : (ℕ → Option (ℕ → ℕ)) → Memfs → ℕ → ℕ → List ℕ → Write → Type 0
WriteResult kmalloc s i offset bytes w =
    ((w ≡ returns minus_one s) × (c : ℕ) × (kmalloc c ≡ none))
    ⊎ (s' : Memfs) × (w ≡ returns (pos (length bytes)) s') × Written s i offset bytes s'

-- `memfs_write_at` on a file with a buffer, where the write ends at most 2^31 bytes in and is
-- shorter than that: it returns. It returns -1 only where `kmalloc` fails, and then changes
-- nothing. Otherwise the bytes are in the file from the offset on, the rest of the file and the
-- other files are as they were, and the size has grown where it had to.
pub write_lem :
    (kmalloc : ℕ → Option (ℕ → ℕ)) (i offset : ℕ) (bytes : List ℕ) (s : Memfs)
    → InUse s i
    → 0 < (s.entries i).capacity
    → offset + length bytes ≤ 2 ^ 31
    → length bytes < 2 ^ 31
    → WriteResult kmalloc s i offset bytes (memfs_write_at kmalloc (pos i) offset bytes s)
unfolding memfs_write_at stored store
write_lem kmalloc i offset bytes s used pos_c small short =
    let index = InUse-index s i used in
    let same : (offset + length bytes) % 2 ^ 32 ≡ offset + length bytes =
      mod_small (offset + length bytes) (2 ^ 32) (omega arith) in
    let whole : int_of (length bytes) ≡ pos (length bytes) = ground arith in
    rw (index, memfs_write_at, same)
      (if_elim (WriteResult kmalloc s i offset bytes) (ltb (offset + length bytes) offset)
        (λ e. absurd (ground arith))
        λ e. elim (ensure_capacity_lem kmalloc i (offset + length bytes) s small pos_c) [
          | inl (failed, c, no_memory) ↦ inl (rw failed refl, c, no_memory)
          | inr (s1, ready, r) ↦
              inr (_, rw (ready, whole) refl, stored-Written s s1 i offset bytes used r)
        ])

no_bytes : (bytes : List ℕ) → length bytes ≡ 0 → bytes ≡ []
no_bytes [] e = refl
no_bytes (b ∷ bytes) e = absurd (omega arith)

read-Written :
    (i offset : ℕ) (bytes : List ℕ) (s s' : Memfs)
    → Written s i offset bytes s'
    → length bytes < 2 ^ 31
    → memfs_read_at s' (pos i) offset (length bytes) ≡ (pos (length bytes), bytes)
unfolding memfs_read_at
read-Written i offset bytes s s' w short =
    let e = s'.entries i in
    let n = length bytes in
    let available = e.size - offset in
    let whole : (if ltb available n then available else n) ≡ n = ground (arith, w.size_now) in
    rw (InUse-index s' i w.still_used, memfs_read_at)
      (elim (Bool-cases (leb e.size offset)) [
        | inl q ↦
            let none_left : n ≡ 0 = ground (arith, w.size_now) in
            rw (q, none_left) (ap (λ bs. (pos 0, bs)) (sym (no_bytes bytes none_left)))
        | inr q ↦ rw (q, whole) (ap₂ (λ r bs. (r, bs)) (ground arith) w.stored_bytes)
      ])

-- A write that returns the number of its bytes is read back: under the conditions of a write that
-- ends at most 2^31 bytes in, `memfs_read_at` of as many bytes at the same offset of the state
-- it leaves returns the bytes written.
pub round_trip :
    (kmalloc : ℕ → Option (ℕ → ℕ)) (i offset : ℕ) (bytes : List ℕ) (s s' : Memfs)
    → InUse s i
    → 0 < (s.entries i).capacity
    → offset + length bytes ≤ 2 ^ 31
    → length bytes < 2 ^ 31
    → memfs_write_at kmalloc (pos i) offset bytes s ≡ returns (pos (length bytes)) s'
    → memfs_read_at s' (pos i) offset (length bytes) ≡ (pos (length bytes), bytes)
round_trip kmalloc i offset bytes s s' used pos_c small short done =
    elim (write_lem kmalloc i offset bytes s used pos_c small short) [
      | inl (failed, c, no_memory) ↦ absurd (cc (failed, done))
      | inr (s1, e, w) ↦
          let same : s1 ≡ s' = cc (e, done) in
          read-Written i offset bytes s s' (subst (Written s i offset bytes) same w) short
    ]
