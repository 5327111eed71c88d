-- ===== src/Log/Recovery.antt =====
-- `recover_from_log` after a stop of the machine, itself stopped at any point.
use octopos.Base.{
  ℕ, zero, suc, ◌+◌, ◌≤◌, ◌<◌, ◌≡◌, refl, ◌≢◌, ◌⊎◌, inl, inr, some, List, arith, length, true,
  ℕ_discrete, ◌∙◌, fun_ext, dec_lt,
}
use octopos.Log.{
  logblocks, Block, word, Bio, bwrite, LogInner, LogHeader, clear, install_trans, recover_from_log,
  read_head,
}
use octopos.Log.Header.{write_head-Heads, read_head-lists}
use octopos.Log.Durable.{
  IsHome, Durable, Installed, Stepped, bwrite-Stepped, install_trans_from-Installed,
}

-- Whether one of the first `k` entries is `x`.
pub listed-cases :
    (blocks : List ℕ) (k x : ℕ)
    → ((i : ℕ) × (i < k) × (word blocks i ≡ x)) ⊎ ((i : ℕ) → i < k → word blocks i ≢ x)
listed-cases blocks zero x = inr (λ i lt. absurd (omega arith))
listed-cases blocks (suc k) x = elim (ℕ_discrete (word blocks k) x) [
  | yes e ↦ inl (k, omega arith, e)
  | no ne ↦ elim (listed-cases blocks k x) [
    | inl (i, lt, e) ↦ inl (i, omega arith, e)
    | inr none_of ↦
        inr
          (λ i lt. elim (ℕ_discrete i k) [ yes e ↦ ground arith | no d ↦ none_of i (omega arith) ])
  ]
]

-- The log with the header that the disk holds.
pub record Loaded (l : LogInner) (d : ℕ → Block) : Type 0 where
  pub len : length l.header.blocks ≡ logblocks
  pub count : l.header.n ≡ word (d l.start) 0
  pub list : (i : ℕ) → i < word (d l.start) 0 → word l.header.blocks i ≡ word (d l.start) (1 + i)

module _ (l : LogInner) (b b₁ : Bio) (D : ℕ → Block) (ld : Loaded l b.disk)
    (dur : Durable l.start b.disk D) (ins : Installed l l.header.n 0 D b b₁) where
  -- The blocks of the log itself are not installed over.
  log_kept : (j : ℕ) → j ≤ logblocks → b₁.disk (l.start + j) ≡ b.disk (l.start + j)
  log_kept j h =
      (ins.other (l.start + j) (λ i lo hi. ground (
        arith,
        ld.count,
        ld.list i (omega (arith, ld.count)),
        dur.home i (omega (arith, ld.count)),
      ))).0

  pub header_mem : b₁.mem l.start ≡ b.mem l.start
  header_mem =
      (ins.other l.start (λ i lo hi. ground (
        arith,
        ld.count,
        ld.list i (omega (arith, ld.count)),
        dur.home i (omega (arith, ld.count)),
      ))).1

  header_kept : b₁.disk l.start ≡ b.disk l.start
  header_kept = ground (arith, log_kept 0 (omega arith))

  unlisted :
      (x : ℕ)
      → IsHome l.start x
      → ((i : ℕ) → i < word (b.disk l.start) 0 → word (b.disk l.start) (1 + i) ≢ x)
      → b₁.disk x ≡ D x
  unlisted x hx ne =
      (ins.other x (λ i lo hi.
        ground
          (arith, ld.count, ld.list i (omega (arith, ld.count)), ne i (omega (arith, ld.count))))).0
      ∙ dur.kept x hx ne

  pub partial-Durable : Durable l.start b₁.disk D
  partial-Durable = record {
    size = rw header_kept dur.size;
    few = rw header_kept dur.few;
    home = rw header_kept dur.home;
    logged =
        rw header_kept
          (λ i lt. ground (arith, log_kept (i + 1) (omega (arith, dur.few)), dur.logged i lt));
    kept = rw header_kept unlisted;
  }

  -- With the power for all of them, every block is in its place.
  pub settled : l.header.n ≤ b.power → (x : ℕ) → IsHome l.start x → b₁.disk x ≡ D x
  settled pw x hx = elim (listed-cases l.header.blocks l.header.n x) [
    | inl (i, lt, e) ↦ ground (arith, ins.done_disk pw i (omega arith) (omega arith))
    | inr ne ↦
        unlisted x hx
          (λ i lt. ground (arith, ld.count, ld.list i lt, ne i (omega (arith, ld.count))))
  ]

-- An empty header over a settled disk.
pub settle :
    (start : ℕ) (d D : ℕ → Block)
    → logblocks < length (d start)
    → word (d start) 0 ≡ 0
    → ((x : ℕ) → IsHome start x → d x ≡ D x)
    → Durable start d D
settle start d D size zeroed h = record {
  size = size;
  few = omega (arith, zeroed);
  home = λ i lt. absurd (omega (arith, zeroed));
  logged = λ i lt. absurd (omega (arith, zeroed));
  kept = λ x hx ne. h x hx;
}

-- The last write: the header becomes empty, if there is power left.
pub erase-Durable :
    (start : ℕ) (b : Bio) (v : Block) (D : ℕ → Block)
    → Durable start b.disk D
    → logblocks < length v
    → word v 0 ≡ 0
    → (0 < b.power → (x : ℕ) → IsHome start x → b.disk x ≡ D x)
    → Durable start (bwrite b start v).disk D
      × (0 < b.power
          → (word ((bwrite b start v).disk start) 0 ≡ 0)
            × ((x : ℕ) → IsHome start x → (bwrite b start v).disk x ≡ D x))
erase-Durable start b v D dur size zeroed h = elim (dec_lt 0 b.power) [
  | yes pw ↦
      let here : (bwrite b start v).disk start ≡ v = ground (arith, s.disk start) in
      let homes : (x : ℕ) → IsHome start x → (bwrite b start v).disk x ≡ D x =
        λ x hx. ground (arith, s.disk x, h pw x hx) in
      (
        settle start (bwrite b start v).disk D (rw here size) (rw here zeroed) homes,
        λ _. (rw here zeroed, homes),
      )
  | no off ↦
      let same : (bwrite b start v).disk ≡ b.disk = fun_ext (λ x. ground (arith, s.disk x)) in
      (rw same dur, λ pw. absurd (off pw))
]
  where
    s : Stepped b start v (bwrite b start v)
    s = bwrite-Stepped b start v

-- `read_head` loads that header.
load :
    (l : LogInner) (b : Bio) (D : ℕ → Block)
    → length l.header.blocks ≡ logblocks
    → ((x : ℕ) → b.mem x ≡ b.disk x)
    → Durable l.start b.disk D
    → (h : LogHeader) × (read_head l b ≡ some (record l { header = h }))
      × Loaded (record l { header = h }) b.disk
load l b D len fresh dur =
    let here = fresh l.start in
    let (r, e, len', list) = read_head-lists l b len (rw here dur.few) in
    (
      record { n = word (b.mem l.start) 0; blocks = r },
      e,
      record {
        len = len';
        count = rw here;
        list = λ i lt. ground (arith, list i (ground (arith, here)), here);
      },
    )

-- Then each listed block is installed, and the header erased.
install :
    (l : LogInner) (b : Bio) (D : ℕ → Block)
    → ((x : ℕ) → b.mem x ≡ b.disk x)
    → Durable l.start b.disk D
    → Loaded l b.disk
    → (b' : Bio) × (install_trans true l b ≡ some b') × Installed l l.header.n 0 D b b'
unfolding install_trans
install l b D fresh dur ld =
    install_trans_from-Installed true l l.header.n 0 D b (omega (arith, dur.few, ld.count)) ld.len
      (λ i lo hi.
        ground (arith, ld.list i (omega (arith, ld.count)), dur.home i (omega (arith, ld.count))))
      (λ i lo hi. ground (
        arith,
        fresh (l.start + i + 1),
        ld.list i (omega (arith, ld.count)),
        dur.logged i (omega (arith, ld.count)),
      ))

-- Started on a disk that stands for `D`, recovery returns with an empty header in memory and a disk
-- that still stands for `D`, at whatever write the power fails; with power for all its writes, every
-- block outside the log is in its place, and the header on the disk is empty.
pub recover_from_log-Durable :
    (l : LogInner) (b : Bio) (D : ℕ → Block)
    → length l.header.blocks ≡ logblocks
    → ((x : ℕ) → b.mem x ≡ b.disk x)
    → Durable l.start b.disk D
    → (l' : LogInner) × (b' : Bio) × (recover_from_log l b ≡ some (l', b'))
      × (l'.start ≡ l.start)
      × (l'.header.n ≡ 0)
      × (length l'.header.blocks ≡ logblocks)
      × Durable l.start b'.disk D
      × (logblocks < b.power
          → (word (b'.disk l.start) 0 ≡ 0) × ((x : ℕ) → IsHome l.start x → b'.disk x ≡ D x))
unfolding recover_from_log
recover_from_log-Durable l b D len fresh dur =
    let (h, e₁, ld) = load l b D len fresh dur in
    let l₁ : LogInner = record l { header = h } in
    let (b₁, e₂, ins) = install l₁ b D fresh dur ld in
    let part = partial-Durable l₁ b b₁ D ld dur ins in
    let start_mem : b₁.mem l.start ≡ b.disk l.start =
      header_mem l₁ b b₁ D ld dur ins ∙ fresh l.start in
    let (v, e₃, hd) = write_head-Heads (clear l₁) b₁ (omega arith) (rw start_mem dur.size) in
    let (dur', full) =
      erase-Durable l.start b₁ v D part (rw hd.size (rw start_mem dur.size)) hd.count
        (λ pw. settled l₁ b b₁ D ld dur ins (omega (arith, ins.power))) in
    (
      clear l₁,
      bwrite b₁ l.start v,
      ground (arith, e₁, e₂, e₃),
      refl,
      refl,
      ld.len,
      dur',
      λ pw. full (omega (arith, ins.power, ld.count, dur.few)),
    )
