-- ===== src/Vm.antt =====
-- kernel/src/vm.rs, the constants of kernel/src/riscv.rs that it uses, and the reference counts of
-- kernel/src/kalloc.rs: page tables. A table owns the tables below it, so the three levels are a tree;
-- an entry that is not valid at level 2 or 1 is `none`. A last-level entry is its number of 64 bits.
pub mod Entry
pub mod Pages
pub mod Supply
pub mod Walk
pub mod MapPages
pub mod Unmap
use octopos.Base.{
  ℕ, zero, suc, ◌+◌, ◌-◌, ◌*◌, ◌/◌, ◌%◌, ◌^◌, Bool, true, false, not, ◌&&◌, ◌||◌, Option, none,
  some, List, [], ◌∷◌, ltb, leb, ◌==◌, if◌then◌else◌, update, Result, ok, err,
}

abbrev pub pgsize : ℕ
pgsize = 4096

abbrev pub maxva : ℕ
maxva = 2 ^ 38

abbrev pub pte_v : ℕ
pte_v = 1

abbrev pub pte_r : ℕ
pte_r = 2

abbrev pub pte_w : ℕ
pte_w = 4

abbrev pub pte_x : ℕ
pte_x = 8

abbrev pub pte_u : ℕ
pte_u = 16

abbrev pub pte_cow : ℕ
pte_cow = 256

-- `pte & mask != 0`, `pte | mask` and `pte & !mask` for a mask of one bit
abbrev pub has : ℕ → ℕ → Bool
has mask pte = not (pte / mask % 2 == 0)

abbrev pub with_bit : ℕ → ℕ → ℕ
with_bit mask pte = if has mask pte then pte else pte + mask

abbrev pub without_bit : ℕ → ℕ → ℕ
without_bit mask pte = if has mask pte then pte - mask else pte

abbrev pub is_leaf : ℕ → Bool
is_leaf pte = has pte_x pte || (has pte_w pte || has pte_r pte)

abbrev pub pa_to_pte : ℕ → ℕ
pa_to_pte pa = pa / 4096 * 1024

abbrev pub pte_to_pa : ℕ → ℕ
pte_to_pa pte = pte / 1024 * 4096

abbrev pub pte_flags : ℕ → ℕ
pte_flags pte = pte % 1024

abbrev pub pg_round_up : ℕ → ℕ
pg_round_up size = (size + pgsize - 1) / pgsize * pgsize

abbrev pub pg_round_down : ℕ → ℕ
pg_round_down addr = addr / pgsize * pgsize

-- `px` at the levels 2, 1 and 0
abbrev pub px2 : ℕ → ℕ
px2 va = va / 2 ^ 30 % 512

abbrev pub px1 : ℕ → ℕ
px1 va = va / 2 ^ 21 % 512

abbrev pub px0 : ℕ → ℕ
px0 va = va / 2 ^ 12 % 512

abbrev pub Leaves : Type 0
Leaves = ℕ → ℕ

abbrev pub Middle : Type 0
Middle = ℕ → Option Leaves

abbrev pub PageTable : Type 0
PageTable = ℕ → Option Middle

pub data VmError : Type 0 where
  alloc invalid_address invalid_page invalid_pte fs : VmError

-- Physical memory: the reference count of each page (an AtomicU8), its bytes, and what the page
-- allocator below `Kmem` will answer, page by page; `none` and the end of the list are its null pointer.
pub record Phys : Type 0 where
  pub refs : ℕ → ℕ
  pub mem : ℕ → ℕ → ℕ
  pub supply : List (Option ℕ)

abbrev pub increment_ref : ℕ → Phys → Phys
increment_ref pa p = record p { refs = update p.refs pa ((p.refs pa + 1) % 256) }

-- `Kmem::dealloc`, up to the call of the allocator's `free`
abbrev pub dealloc_page : ℕ → Phys → Phys
dealloc_page pa p = record p { refs = update p.refs pa ((p.refs pa + 255) % 256) }

-- `Box::try_new_zeroed` of a page, by `Kmem::alloc`
unfoldable pub zalloc : Phys → Option ℕ × Phys
zalloc p = elim p.supply [
  | [] ↦ (none, p)
  | none ∷ s ↦ (none, record p { supply = s })
  | some pa ∷ s ↦
      (some pa, record { refs = update p.refs pa 1; mem = update p.mem pa (λ _. 0); supply = s })
]

-- A table of the next level: the one that is there, or a new and empty one.
unfoldable pub child : {A : Type 0} → Option A → A → Phys → Option A × Phys
child (some x) fresh p = (some x, p)
child none fresh p =
    let (got, p') = zalloc p in (elim got [ none ↦ none | some _ ↦ some fresh ], p')

-- `PageTable::walk`, the last-level entry
unfoldable pub walk : PageTable → ℕ → Result ℕ VmError
walk t va = if leb maxva va then err invalid_address else (elim (t (px2 va)) [
  | none ↦ err invalid_page
  | some m ↦ elim (m (px1 va)) [ none ↦ err invalid_page | some l ↦ ok (l (px0 va)) ]
])

-- `PageTable::walk_mut` with `alloc` set
unfoldable pub walk_alloc : PageTable → ℕ → Phys → Result ℕ VmError × PageTable × Phys
walk_alloc t va p =
    if leb maxva va
    then (err invalid_address, t, p)
    else (let (c₁, p₁) = child (t (px2 va)) (λ _. none) p in
        elim c₁ [
          | none ↦ (err alloc, t, p₁)
          | some m ↦
              (let (c₀, p₂) = child (m (px1 va)) (λ _. 0) p₁ in
                elim c₀ [
                  | none ↦ (err alloc, update t (px2 va) (some m), p₂)
                  | some l ↦
                      (ok (l (px0 va)), update t (px2 va) (some (update m (px1 va) (some l))), p₂)
                ])
        ])

-- `*pte = value` at the entry that a walk to `va` has found
unfoldable pub set_pte : PageTable → ℕ → ℕ → PageTable
set_pte t va value = elim (t (px2 va)) [
  | none ↦ t
  | some m ↦ elim (m (px1 va)) [
    | none ↦ t
    | some l ↦ update t (px2 va) (some (update m (px1 va) (some (update l (px0 va) value))))
  ]
]

-- `PageTable::walk_addr`
unfoldable pub walk_addr : PageTable → ℕ → Result ℕ VmError
walk_addr t va = if ltb maxva va then err invalid_address else (elim (walk t va) [
  | err e ↦ err e
  | ok pte ↦
      if not (has pte_v pte) || not (has pte_u pte) then err invalid_pte else ok (pte_to_pa pte)
])

-- How a call ends: with a value or an error, or by a failed assertion.
pub data Outcome : Type 0 where
  done : Outcome
  fails : VmError → Outcome
  panics : Outcome

-- `pa.as_pte() | perm | PTE_V`
abbrev pub entry : ℕ → ℕ → ℕ
entry pa perm = pa_to_pte pa + with_bit pte_v perm

-- The loop of `PageTable::map_pages`, with `k` pages to go.
unfoldable pub map_from : ℕ → ℕ → ℕ → ℕ → PageTable → Phys → Outcome × PageTable × Phys
map_from zero va pa perm t p = (done, t, p)
map_from (suc k) va pa perm t p =
    let (r, t', p') = walk_alloc t va p in
    elim r [
      | err e ↦ (fails e, t', p')
      | ok pte ↦
          let rest =
            map_from k (va + pgsize) (pa + pgsize) perm (set_pte t' va (entry pa perm)) p' in
          if has pte_v pte then (panics, t', p') else rest
    ]

-- `PageTable::map_pages`
unfoldable pub map_pages : ℕ → ℕ → ℕ → ℕ → PageTable → Phys → Outcome × PageTable × Phys
map_pages va pa size perm t p =
    if not (va % pgsize == 0) || (not (size % pgsize == 0) || (size == 0))
    then (panics, t, p)
    else map_from (size / pgsize) va pa perm t p

-- `Uvm::unmap`, with `k` pages to go; `none` is its panic.
unfoldable pub unmap_from : Bool → ℕ → ℕ → PageTable → Phys → Option (PageTable × Phys)
unmap_from free zero va t p = some (t, p)
unmap_from free (suc k) va t p =
    let skip = unmap_from free k (va + pgsize) t p in
    elim (walk t va) [
      | err _ ↦ skip
      | ok pte ↦
          let rest =
            unmap_from free k (va + pgsize) (set_pte t va 0)
              (if free then dealloc_page (pte_to_pa pte) p else p) in
          if not (has pte_v pte) then skip else if not (is_leaf pte) then none else rest
    ]

unfoldable pub unmap : Bool → ℕ → ℕ → PageTable → Phys → Option (PageTable × Phys)
unmap free va npages t p = if not (va % pgsize == 0) then none else unmap_from free npages va t p
