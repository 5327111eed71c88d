-- ===== src/Log/Commit.antt =====
-- `commit`: with a stop of the machine at any write, the disk stands for all of the old contents or
-- for all of the new.
use octopos.Base.{
  ℕ, ◌+◌, ◌*◌, ◌≤◌, ◌<◌, ◌≡◌, refl, ◌≢◌, ◌⊎◌, inl, inr, some, arith, length, false, ◌∙◌, sym,
  dec_lt,
}
use octopos.Log.{
  logblocks, Block, word, Bio, bwrite, LogInner, clear, write_log, install_trans, commit_steps,
  commit,
}
use octopos.Log.Header.{Heads, write_head-Heads}
use octopos.Log.Durable.{
  IsHome, Durable, Installed, Stepped, bwrite-Stepped, install_trans_from-Installed,
}
use octopos.Log.WriteLog.{Ready, Written, write_log_from-Written}
use octopos.Log.Recovery.{Loaded, partial-Durable, settled, settle, erase-Durable}

-- Up to the header's write.
module _ (l : LogInner) (b b₁ : Bio) (v : Block) (r : Ready l b) (w : Written l l.header.n 0 b b₁)
    (hd : Heads l (b₁.mem l.start) v) where
  head_step : Stepped b₁ l.start v (bwrite b₁ l.start v)
  head_step = bwrite-Stepped b₁ l.start v

  size₁ : logblocks < length v
  size₁ = rw hd.size (rw (w.other l.start (inl (omega arith))).1 r.cached)

  home₁ : (x : ℕ) → IsHome l.start x → (b₁.disk x ≡ b.disk x) × (b₁.mem x ≡ b.mem x)
  home₁ x hx = w.other x (omega (arith, r.few))

  from_log :
      (i : ℕ)
      → i < l.header.n
      → (bwrite b₁ l.start v).mem (l.start + i + 1) ≡ b.mem (word l.header.blocks i)
  from_log i lt =
      ground (arith, head_step.mem (l.start + i + 1), w.copied i (omega arith) (omega arith))

  -- With the power for it, the header's write commits the new contents.
  module _ (on : l.header.n < b.power) where
    start₂ : (bwrite b₁ l.start v).disk l.start ≡ v
    start₂ = ground (arith, head_step.disk l.start, w.power)

    disk₂ : (x : ℕ) → l.start ≢ x → (bwrite b₁ l.start v).disk x ≡ b₁.disk x
    disk₂ x ne = ground (arith, head_step.disk x)

    loaded₂ : Loaded l (bwrite b₁ l.start v).disk
    loaded₂ = record {
      len = r.len;
      count = rw start₂ (sym hd.count);
      list = rw (start₂, hd.count) (λ i lt. sym (hd.list i lt));
    }

    committed : Durable l.start (bwrite b₁ l.start v).disk b.mem
    committed = record {
      size = rw start₂ size₁;
      few = rw (start₂, hd.count) r.few;
      home = rw (start₂, hd.count) (λ i lt. rw (hd.list i lt) (r.home i lt));
      logged =
          rw (start₂, hd.count)
            (λ i lt. ground (
              arith,
              hd.list i lt,
              disk₂ (l.start + i + 1) (omega arith),
              w.copied_disk (omega arith) i (omega arith) (omega arith),
            ));
      kept =
          rw (start₂, hd.count)
            (λ x hx ne. ground (
              arith,
              disk₂ x (omega arith),
              home₁ x hx,
              r.clean x hx (λ i lt e. ne i lt (hd.list i lt ∙ e)),
            ));
    }

  -- Without it nothing but the log's own blocks has changed.
  module _ (b₃ : Bio) (ins : Installed l l.header.n 0 b.mem (bwrite b₁ l.start v) b₃)
      (off : b.power ≤ l.header.n) where
    unpowered : b₃.power ≡ 0
    unpowered = omega (arith, w.power, head_step.power, ins.power)

    unchanged : (x : ℕ) → IsHome l.start x ⊎ (x ≡ l.start) → b₃.disk x ≡ b.disk x
    unchanged x hx =
        let before = w.other x (ground (arith, r.few)) in
        ground (
          arith,
          ins.off (omega (arith, head_step.power, w.power)) x,
          head_step.disk x,
          w.power,
          before,
        )

    kept_old : Durable l.start b₃.disk b.disk
    kept_old =
        settle l.start b₃.disk b.disk (rw (unchanged l.start (inr refl)) r.size)
          (rw (unchanged l.start (inr refl)) r.empty) (λ x hx. unchanged x (inl hx))

-- What `commit` leaves behind, at whatever write the power fails.
pub record Committed (l : LogInner) (b : Bio) (l' : LogInner) (b' : Bio) : Type 0 where
  pub start : l'.start ≡ l.start
  pub cleared : l'.header.n ≡ 0
  pub len : length l'.header.blocks ≡ logblocks
  pub cached : logblocks < length (b'.mem l.start)
  pub shown : (x : ℕ) → IsHome l.start x → b'.mem x ≡ b.mem x
  pub atomic : Durable l.start b'.disk b.disk ⊎ Durable l.start b'.disk b.mem
  pub complete :
      2 * logblocks + 1 < b.power
      → (word (b'.disk l.start) 0 ≡ 0)
        × (logblocks < length (b'.disk l.start))
        × ((x : ℕ) → IsHome l.start x → b'.disk x ≡ b.mem x)

module _ (l : LogInner) (b b₁ b₃ : Bio) (v : Block) (r : Ready l b)
    (w : Written l l.header.n 0 b b₁) (hd : Heads l (b₁.mem l.start) v)
    (ins : Installed l l.header.n 0 b.mem (bwrite b₁ l.start v) b₃) where
  header₃ : b₃.mem l.start ≡ v
  header₃ = ground (
    arith,
    ins.other l.start (λ i lo hi. ground (arith, r.home i (omega arith))),
    (head_step l b b₁ v r w hd).mem l.start,
  )

module _ (l : LogInner) (b b₁ b₃ : Bio) (v v' : Block) (r : Ready l b)
    (w : Written l l.header.n 0 b b₁) (hd : Heads l (b₁.mem l.start) v)
    (ins : Installed l l.header.n 0 b.mem (bwrite b₁ l.start v) b₃)
    (hd' : Heads (clear l) (b₃.mem l.start) v') where
  size₃ : logblocks < length v'
  size₃ = rw (hd'.size, header₃ l b b₁ b₃ v r w hd ins) (size₁ l b b₁ v r w hd)

  shown₃ : (x : ℕ) → IsHome l.start x → (bwrite b₃ l.start v').mem x ≡ b.mem x
  shown₃ x hx = ground (
    arith,
    (bwrite-Stepped b₃ l.start v').mem x,
    ins.each_mem x,
    (head_step l b b₁ v r w hd).mem x,
    home₁ l b b₁ v r w hd x hx,
  )

  finish : Committed l b (clear l) (bwrite b₃ l.start v')
  finish = record {
    start = refl;
    cleared = refl;
    len = r.len;
    cached = ground (arith, (bwrite-Stepped b₃ l.start v').mem l.start, size₃);
    shown = shown₃;
    atomic = elim (dec_lt l.header.n b.power) [
      | yes on ↦ inr ((last on).0)
      | no off ↦
          inl
            (erase-Durable l.start b₃ v' b.disk (kept_old l b b₁ v r w hd b₃ ins (omega arith))
              size₃ hd'.count
              (λ pw. absurd (omega (arith, unpowered l b b₁ v r w hd b₃ ins (omega arith))))).0
    ];
    complete = λ pw.
        let on : l.header.n < b.power = omega (arith, r.few) in
        let power₃ : 0 < b₃.power =
          omega (arith, r.few, w.power, (head_step l b b₁ v r w hd).power, ins.power) in
        let (zeroed, homes) = (last on).1 power₃ in (zeroed, (last on).0.size, homes);
  }
    where
      last :
          (on : l.header.n < b.power)
          → Durable l.start (bwrite b₃ l.start v').disk b.mem
            × (0 < b₃.power
                → (word ((bwrite b₃ l.start v').disk l.start) 0 ≡ 0)
                  × ((x : ℕ) → IsHome l.start x → (bwrite b₃ l.start v').disk x ≡ b.mem x))
      last on =
          let ld = loaded₂ l b b₁ v r w hd on in
          let dur = committed l b b₁ v r w hd on in
          let b₂ : Bio = bwrite b₁ l.start v in
          erase-Durable l.start b₃ v' b.mem (partial-Durable l b₂ b₃ b.mem ld dur ins) size₃
            hd'.count (λ pw. settled l b₂ b₃ b.mem ld dur ins (omega (arith, ins.power)))

-- `commit` never fails on a log that is ready.
pub commit-Committed :
    (l : LogInner) (b : Bio)
    → Ready l b
    → (l' : LogInner) × (b' : Bio) × (commit l b ≡ some (l', b')) × Committed l b l' b'
unfolding commit commit_steps write_log install_trans
commit-Committed l b r = elim (dec_lt 0 l.header.n) [
  | yes some_left ↦
      let (b₁, e₁, w) =
        write_log_from-Written l l.header.n 0 b (omega (arith, r.few)) r.len
          (λ i lo hi. r.home i (omega arith)) in
      let (v, e₂, hd) =
        write_head-Heads l b₁ r.few (rw (w.other l.start (inl (omega arith))).1 r.cached) in
      let (b₃, e₃, ins) =
        install_trans_from-Installed false l l.header.n 0 b.mem (bwrite b₁ l.start v)
          (omega (arith, r.few)) r.len (λ i lo hi. r.home i (omega arith))
          (λ i lo hi. from_log l b b₁ v r w hd i (omega arith)) in
      let (v', e₄, hd') =
        write_head-Heads (clear l) b₃ (omega arith)
          (rw (header₃ l b b₁ b₃ v r w hd ins) (size₁ l b b₁ v r w hd)) in
      (
        clear l,
        bwrite b₃ l.start v',
        ground (arith, e₁, e₂, e₃, e₄),
        finish l b b₁ b₃ v v' r w hd ins hd',
      )
  | no none_left ↦ (
    l,
    b,
    ground arith,
    record {
      start = refl;
      cleared = omega arith;
      len = r.len;
      cached = r.cached;
      shown = λ x hx. refl;
      atomic = inl (settle l.start b.disk b.disk r.size r.empty (λ x hx. refl));
      complete = λ pw. (r.empty, r.size, λ x hx. r.clean x hx (λ i lt. absurd (omega arith)));
    },
  )
]
