-- ===== src/Memfs.antt =====
-- The files in memory of kernel/core/memfs.c. A name is the list of its characters before the NUL.
-- What `kmalloc` gives is an argument: the memory with what it happens to hold, or `none`.
pub mod Names
pub mod Contents
pub mod Overflow
mod Tests
use mini_kernel.Prelude.{
  doubled, store, int_of, str_eq, ℕ, zero, suc, ◌+◌, ◌-◌, ◌*◌, ◌%◌, ◌^◌, ℤ, pos, negsuc, minus_one,
  Bool, true, false, Option, none, some, List, [], ◌∷◌, if◌then◌else◌, ltb, leb, ◌==◌, update,
  length, take, slice,
}

abbrev pub initial_capacity : ℕ
initial_capacity = 4

abbrev pub name_max : ℕ
name_max = 32

abbrev pub initial_buffer_size : ℕ
initial_buffer_size = 256

-- `memfs_entry_t`
pub record MemfsEntry : Type 0 where
  pub name : List ℕ
  pub contents : ℕ → ℕ
  pub size : ℕ
  pub capacity : ℕ
  pub in_use : Bool

-- The table `entries`.
pub record Memfs : Type 0 where
  pub entries : ℕ → MemfsEntry
  pub entry_capacity : ℕ

abbrev pub with_entry : Memfs → ℕ → MemfsEntry → Memfs
with_entry s i e = record s { entries = update s.entries i e }

-- `init_entry_slot`, the null pointer as a buffer of no bytes.
abbrev pub empty_entry : MemfsEntry
empty_entry = record { name = []; contents = λ i. 0; size = 0; capacity = 0; in_use = false }

-- `grow_table`, with the memory for the new table.
unfoldable pub grow_table : Option (ℕ → MemfsEntry) → Memfs → Bool × Memfs
grow_table none s = (false, s)
grow_table (some table) s =
    let capacity = if s.entry_capacity == 0 then initial_capacity else s.entry_capacity * 2 in
    let entries : ℕ → MemfsEntry = λ i.
      if ltb i s.entry_capacity
      then s.entries i
      else if ltb i capacity
      then empty_entry
      else table i in
    (true, record { entries = entries; entry_capacity = capacity })

abbrev pub copy_name : List ℕ → List ℕ
copy_name src = take 31 src

-- The search of `find_slot` with `rounds` slots left from `i` on.
unfoldable pub find_named : (ℕ → MemfsEntry) → List ℕ → ℕ → ℕ → Option ℕ
unfolding str_eq
find_named entries name zero i = none
find_named entries name (suc rounds) i =
    let rest = find_named entries name rounds (i + 1) in
    if (entries i).in_use then if str_eq (entries i).name name then some i else rest else rest

-- `find_slot`: `none` is -1.
unfoldable pub find_slot : Memfs → List ℕ → Option ℕ
unfolding find_named
find_slot s name = find_named s.entries name s.entry_capacity 0

unfoldable pub find_unused : (ℕ → MemfsEntry) → ℕ → ℕ → Option ℕ
find_unused entries zero i = none
find_unused entries (suc rounds) i =
    let rest = find_unused entries rounds (i + 1) in if (entries i).in_use then rest else some i

-- `find_free_slot`
unfoldable pub find_free_slot : Memfs → Option ℕ
unfolding find_unused
find_free_slot s = find_unused s.entries s.entry_capacity 0

-- `memfs_create` once a slot is chosen, with the memory for the file.
pub fill_entry : Option (ℕ → ℕ) → List ℕ → ℕ → Memfs → ℤ × Memfs
fill_entry none name slot s = (minus_one, s)
fill_entry (some buf) name slot s = (
  pos slot,
  with_entry s slot (record {
    name = copy_name name;
    contents = buf;
    size = 0;
    capacity = initial_buffer_size;
    in_use = true;
  }),
)

-- The slot for a new file: a free one, or the first that a larger table brings.
pub new_slot : Option (ℕ → MemfsEntry) → Memfs → Option ℕ × Memfs
unfolding grow_table find_free_slot
new_slot table s = elim (find_free_slot s) [
  | some i ↦ (some i, s)
  | none ↦
      let (grown, s') = grow_table table s in
      if grown then (some s.entry_capacity, s') else (none, s)
]

unfoldable pub memfs_create : Option (ℕ → MemfsEntry) → Option (ℕ → ℕ) → List ℕ → Memfs → ℤ × Memfs
unfolding find_slot new_slot fill_entry
memfs_create table buf name s = elim (find_slot s name) [
  | some i ↦ (minus_one, s)
  | none ↦
      let (slot, s') = new_slot table s in
      elim slot [ none ↦ (minus_one, s') | some i ↦ fill_entry buf name i s' ]
]

pub memfs_find : Memfs → List ℕ → ℤ
unfolding find_slot
memfs_find s name = elim (find_slot s name) [ none ↦ minus_one | some i ↦ pos i ]

pub memfs_delete : List ℕ → Memfs → ℤ × Memfs
unfolding find_slot
memfs_delete name s = elim (find_slot s name) [
  | none ↦ (minus_one, s)
  | some i ↦ (pos 0, with_entry s i empty_entry)
]

-- `handle < 0 || handle >= entry_capacity || !entries[handle].in_use`, refused.
abbrev pub entry_index : Memfs → ℤ → Option ℕ
entry_index s (negsuc n) = none
entry_index s (pos i) =
    if ltb i s.entry_capacity then if (s.entries i).in_use then some i else none else none

pub memfs_size : Memfs → ℤ → ℕ
memfs_size s handle = elim (entry_index s handle) [ none ↦ 0 | some i ↦ (s.entries i).size ]

-- More rounds than it takes to shift every bit out of a 32-bit word.
abbrev pub doubling_rounds : ℕ
doubling_rounds = 64

-- How `ensure_capacity` and `memfs_write_at` go: they return, or the loop does not end.
pub data Write : Type 0 where
  returns : ℤ → Memfs → Write
  never_ends : Write

-- `ensure_capacity`, with what `kmalloc` gives for a size; the bytes of the file are copied.
unfoldable pub ensure_capacity : (ℕ → Option (ℕ → ℕ)) → ℕ → ℕ → Memfs → Write
unfolding doubled
ensure_capacity kmalloc i needed s =
    let e = s.entries i in
    let larger = doubled doubling_rounds (e.capacity * 2 % 2 ^ 32) needed in
    if leb needed e.capacity then returns (pos 0) s else elim larger [
      | none ↦ never_ends
      | some new_capacity ↦ elim (kmalloc new_capacity) [
        | none ↦ returns minus_one s
        | some buf ↦ returns (pos 0) (
            with_entry s i (record e {
              contents = λ k. if ltb k e.size then e.contents k else buf k;
              capacity = new_capacity;
            }))
      ]
    ]

-- The end of `memfs_write_at`, when there is room for the bytes.
abbrev pub stored : ℕ → ℕ → ℕ → List ℕ → Memfs → Write
unfolding store
stored i offset needed bytes s =
    let e = s.entries i in
    returns (int_of (length bytes)) (
      with_entry s i (record e {
        contents = store e.contents offset bytes;
        size = if ltb e.size needed then needed else e.size;
      }))

abbrev pub store_after : ℕ → ℕ → ℕ → List ℕ → Write → Write
store_after i offset needed bytes never_ends = never_ends
store_after i offset needed bytes (returns (negsuc n) s) = returns minus_one s
store_after i offset needed bytes (returns (pos zero) s) = stored i offset needed bytes s
store_after i offset needed bytes (returns (pos (suc n)) s) = returns minus_one s

unfoldable pub memfs_write_at : (ℕ → Option (ℕ → ℕ)) → ℤ → ℕ → List ℕ → Memfs → Write
unfolding ensure_capacity
memfs_write_at kmalloc handle offset bytes s = elim (entry_index s handle) [
  | none ↦ returns minus_one s
  | some i ↦
      let needed = (offset + length bytes) % 2 ^ 32 in
      let ready = ensure_capacity kmalloc i needed s in
      if ltb needed offset then returns minus_one s else store_after i offset needed bytes ready
]

-- `memfs_read_at`: its result, and the bytes stored through `buf`.
unfoldable pub memfs_read_at : Memfs → ℤ → ℕ → ℕ → ℤ × List ℕ
memfs_read_at s handle offset len = elim (entry_index s handle) [
  | none ↦ (minus_one, [])
  | some i ↦
      let e = s.entries i in
      let available = e.size - offset in
      let n = if ltb available len then available else len in
      if leb e.size offset then (pos 0, []) else (int_of n, slice e.contents offset n)
]

unfoldable pub find_used : (ℕ → MemfsEntry) → ℕ → ℕ → Option ℕ
find_used entries zero i = none
find_used entries (suc rounds) i =
    let rest = find_used entries rounds (i + 1) in if (entries i).in_use then some i else rest

-- `memfs_next` of handle `handle`; `memfs_first` is that of -1.
pub memfs_next : Memfs → ℕ → ℤ
unfolding find_used
memfs_next s handle = elim (find_used s.entries (s.entry_capacity - (handle + 1)) (handle + 1)) [
  | none ↦ minus_one
  | some i ↦ pos i
]

pub memfs_first : Memfs → ℤ
unfolding find_used
memfs_first s = elim (find_used s.entries s.entry_capacity 0) [ none ↦ minus_one | some i ↦ pos i ]

pub memfs_name : Memfs → ℤ → List ℕ
memfs_name s handle = elim (entry_index s handle) [ none ↦ [] | some i ↦ (s.entries i).name ]

pub count_used : (ℕ → MemfsEntry) → ℕ → ℕ → ℕ
count_used entries zero i = 0
count_used entries (suc rounds) i =
    (if (entries i).in_use then 1 else 0) + count_used entries rounds (i + 1)

pub memfs_file_count : Memfs → ℕ
unfolding count_used
memfs_file_count s = count_used s.entries s.entry_capacity 0
