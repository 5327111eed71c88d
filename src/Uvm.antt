-- ===== src/Uvm.antt =====
-- kernel/src/vm.rs: the user page tables, over Vm: growing and shrinking, the copy for `fork`, page
-- faults, and `copy_to`. `size` is the size of the current process, and a failed assertion is `panics`.
pub mod Faults
pub mod Share
pub mod Fork
pub mod CopyTo
pub mod Isolation
mod Tests
use octopos.Base.{
  ℕ, zero, suc, ◌+◌, ◌-◌, ◌*◌, ◌/◌, ◌%◌, ◌^◌, min, Bool, true, false, not, ◌&&◌, Option, none, some,
  List, [], ◌∷◌, ltb, leb, ◌==◌, if◌then◌else◌, update, Result, ok, err, get_or, length, drop,
}
use octopos.Vm.{
  PageTable, Phys, VmError, alloc, invalid_address, invalid_pte, pgsize, maxva, pte_v, pte_r, pte_w,
  pte_u, pte_cow, has, with_bit, without_bit, pte_to_pa, pa_to_pte, pte_flags, pg_round_up,
  pg_round_down, Outcome, done, fails, panics, increment_ref, dealloc_page, zalloc, walk, set_pte,
  walk_addr, map_pages, unmap,
}

-- `Uvm::dealloc`; `none` is a panic.
pub uvm_dealloc : ℕ → ℕ → PageTable → Phys → Option (ℕ × PageTable × Phys)
uvm_dealloc old_size new_size t p =
    let old = pg_round_up old_size in
    let new = pg_round_up new_size in
    if leb old_size new_size
    then some (old_size, t, p)
    else if ltb new old
    then (elim (unmap true new ((old - new) / pgsize) t p) [
      | none ↦ none
      | some (t', p') ↦ some (new_size, t', p')
    ])
    else some (new_size, t, p)

-- The way out of `Uvm::alloc` at page `i`
abbrev back_out : VmError → ℕ → ℕ → PageTable → Phys → Outcome × PageTable × Phys
back_out e i old t p = elim (uvm_dealloc i old t p) [
  | none ↦ (panics, t, p)
  | some (_, t', p') ↦ (fails e, t', p')
]

-- The loop of `Uvm::alloc`, at page `i` with `k` pages to go.
pub alloc_from : ℕ → ℕ → ℕ → ℕ → PageTable → Phys → Outcome × PageTable × Phys
alloc_from zero i old xperm t p = (done, t, p)
alloc_from (suc k) i old xperm t p =
    let (got, p₁) = zalloc p in
    elim got [
      | none ↦ back_out alloc i old t p₁
      | some pa ↦
          let (r, t₂, p₂) = map_pages i pa pgsize (with_bit pte_r (with_bit pte_u xperm)) t p₁ in
          elim r [
            | done ↦ alloc_from k (i + pgsize) old xperm t₂ p₂
            | fails e ↦ back_out e i old t₂ (dealloc_page pa p₂)
            | panics ↦ (panics, t₂, p₂)
          ]
    ]

-- `Uvm::alloc`; the new size is `old_size` or `new_size`.
pub uvm_alloc : ℕ → ℕ → ℕ → PageTable → Phys → ℕ × Outcome × PageTable × Phys
uvm_alloc old_size new_size xperm t p =
    let old = pg_round_up old_size in
    if ltb new_size old_size
    then (old_size, done, t, p)
    else (let (r, t', p') = alloc_from ((new_size - old + pgsize - 1) / pgsize) old old xperm t p in
        (new_size, r, t', p'))

-- The entry that parent and child share: not writable, and marked if it was.
abbrev pub shared : ℕ → ℕ
shared pte = if has pte_w pte then with_bit pte_cow (without_bit pte_w pte) else pte

-- The two tables and the physical memory, after a step of `Uvm::copy`
pub record Pair : Type 0 where
  pub parent : PageTable
  pub child : PageTable
  pub phys : Phys

-- The loop of `Uvm::copy`, at page `i` with `k` pages to go.
pub copy_from_page : ℕ → ℕ → Pair → Outcome × Pair
copy_from_page zero i s = (done, s)
copy_from_page (suc k) i s =
    let skip = copy_from_page k (i + pgsize) s in
    elim (walk s.parent i) [
      | err _ ↦ skip
      | ok pte ↦
          let pte' = shared pte in
          let parent' = set_pte s.parent i pte' in
          let (r, c, p) = map_pages i (pte_to_pa pte') pgsize (pte_flags pte') s.child s.phys in
          let copied : Outcome × Pair = elim r [
            | done ↦
                copy_from_page k (i + pgsize)
                  (record { parent = parent'; child = c; phys = increment_ref (pte_to_pa pte') p })
            | fails e ↦ elim (unmap true 0 (i / pgsize) c p) [
              | none ↦ (panics, record { parent = parent'; child = c; phys = p })
              | some (c', p') ↦ (fails e, record { parent = parent'; child = c'; phys = p' })
            ]
            | panics ↦ (panics, record { parent = parent'; child = c; phys = p })
          ] in
          if not (has pte_v pte) then skip else copied
    ]

-- `Uvm::copy`
pub copy : ℕ → Pair → Outcome × Pair
copy size s = copy_from_page ((size + pgsize - 1) / pgsize) 0 s

-- `Uvm::clear`
pub clear_user : ℕ → PageTable → Result PageTable VmError
clear_user va t = elim (walk t va) [
  | err e ↦ err e
  | ok pte ↦ ok (set_pte t va (without_bit pte_u pte))
]

-- How `Uvm::vmfault` ends: with the page that is there now, with an error, or by a panic.
pub data Fault : Type 0 where
  resolved : ℕ → Fault
  faults : VmError → Fault
  crashes : Fault

-- The flags of the private copy of a shared page
abbrev pub own_flags : ℕ → ℕ
own_flags pte = with_bit pte_w (without_bit pte_cow (pte_flags pte))

-- `Uvm::vmfault`, the copy of a shared page
pub break_share : ℕ → ℕ → PageTable → Phys → Fault × PageTable × Phys
break_share va pte t p =
    let old = pte_to_pa pte in
    let (got, p₁) = zalloc p in
    elim got [
      | none ↦ (faults alloc, t, p₁)
      | some pa ↦ (
        resolved pa,
        set_pte t va (pa_to_pte pa + own_flags pte),
        dealloc_page old (record p₁ { mem = update p₁.mem pa (p₁.mem old) }),
      )
    ]

-- `Uvm::vmfault`, the new page
pub lazy_page : ℕ → PageTable → Phys → Fault × PageTable × Phys
lazy_page va t p =
    let (got, p₁) = zalloc p in
    elim got [
      | none ↦ (faults alloc, t, p₁)
      | some pa ↦
          let (r, t₂, p₂) = map_pages va pa pgsize (pte_w + pte_u + pte_r) t p₁ in
          elim r [
            | done ↦ (resolved pa, t₂, p₂)
            | fails e ↦ (faults e, t₂, dealloc_page pa p₂)
            | panics ↦ (crashes, t₂, p₂)
          ]
    ]

-- `Uvm::vmfault`
pub vmfault : ℕ → ℕ → PageTable → Phys → Fault × PageTable × Phys
vmfault size va t p =
    let va₀ = pg_round_down va in
    if leb size va then (faults invalid_address, t, p) else (elim (walk t va₀) [
      | err _ ↦ lazy_page va₀ t p
      | ok pte ↦
          if not (has pte_v pte)
          then lazy_page va₀ t p
          else if not (has pte_cow pte)
          then (faults invalid_address, t, p)
          else break_share va₀ pte t p
    ])

-- `n` bytes of `src` written to a page from place `d` on
abbrev pub overwrite : (ℕ → ℕ) → ℕ → ℕ → List ℕ → ℕ → ℕ
overwrite page d n src i = if leb d i && ltb i (d + n) then get_or src (i - d) 0 else page i

-- How many bytes a round of `copy_to` copies
abbrev pub round_bytes : ℕ → List ℕ → ℕ
round_bytes dstva src = min (pgsize - (dstva - pg_round_down dstva)) (length src)

-- A round of the loop of `Uvm::copy_to`; `rest` are the rounds after it.
pub copy_round :
    ℕ
    → List ℕ
    → ℕ
    → PageTable
    → Phys
    → (PageTable → Phys → Outcome × PageTable × Phys)
    → Outcome × PageTable × Phys
copy_round size src dstva t p rest =
    let va₀ = pg_round_down dstva in
    let found : Fault × PageTable × Phys = elim (walk_addr t va₀) [
      | ok pa ↦ (resolved pa, t, p)
      | err _ ↦ vmfault size va₀ t p
    ] in
    let (r, t₁, p₁) = found in
    let n = round_bytes dstva src in
    if ltb maxva va₀ then (fails invalid_address, t, p) else (elim r [
      | faults e ↦ (fails e, t₁, p₁)
      | crashes ↦ (panics, t₁, p₁)
      | resolved pa ↦ elim (walk t₁ va₀) [
        | err e ↦ (fails e, t₁, p₁)
        | ok pte ↦ elim (has pte_w pte) [
          | false ↦ (fails invalid_pte, t₁, p₁)
          | true ↦
              rest t₁
                (record p₁ { mem = update p₁.mem pa (overwrite (p₁.mem pa) (dstva - va₀) n src) })
        ]
      ]
    ])

-- The loop of `Uvm::copy_to`, with at most `k` rounds
pub copy_to_from : ℕ → ℕ → List ℕ → ℕ → PageTable → Phys → Outcome × PageTable × Phys
copy_to_from k size [] dstva t p = (done, t, p)
copy_to_from zero size (c ∷ src) dstva t p = (panics, t, p)
copy_to_from (suc k) size (c ∷ src) dstva t p = copy_round size (c ∷ src) dstva t p (
    copy_to_from k size (drop (round_bytes dstva (c ∷ src)) (c ∷ src))
      (pg_round_down dstva + pgsize))

-- `Uvm::copy_to`: every round copies at least one byte.
pub copy_to : ℕ → List ℕ → ℕ → PageTable → Phys → Outcome × PageTable × Phys
copy_to size src dstva t p = copy_to_from (length src) size src dstva t p
