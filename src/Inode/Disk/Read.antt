-- ===== src/Inode/Disk/Read.antt =====
-- `Inode::read` on an inode whose file is in order, and after a write.
use octopos.Base.{
  ℕ, zero, suc, ◌+◌, ◌-◌, ◌*◌, ◌/◌, ◌%◌, ◌^◌, ◌≤◌, ◌<◌, ◌≡◌, refl, sym, ap, ap₂, subst, ◌∙◌, ◌⊎◌,
  inl, inr, Bool, true, some, List, [], ◌∷◌, arith, ltb, if◌then◌else◌, dec_lt, Result, ok, err,
  get_or, length, take,
}
use octopos.Fs.{FsError, read}
use octopos.Blocks.{SuperBlock, Bits}
use octopos.Inode.{bsize, maxfile, read_from}
use octopos.Inode.Slots.{nslots, slot, place, byte_at, Grew, Grew-byte_at}
use octopos.Inode.FileBytes.{file_bytes}
use octopos.Inode.Read.{ReadEnds, whole, short, no_room, ReadOff, read_from_lem}
use octopos.Inode.Disk.{InodeInner, home, read_u32, read_inode, write_inode}
use octopos.Inode.Disk.Home.{IsFile, file_byte, IsHome-Evolves}
use octopos.Inode.Disk.Write.{WroteFile, write_inode_lem}

-- What a read of `n` bytes, all within the file, comes to.
pub record ReadFile (sb : SuperBlock) (inum room n offset : ℕ) (inner : InodeInner) (d : Bits)
    (x : Result (List ℕ) FsError × InodeInner × Bits) : Type 0 where
  pub bytes :
      ((x.0 ≡ ok (file_bytes (slot inner.addrs d) d offset n))) ⊎ ((room < n) × (x.0 ≡ err read))
  pub good : IsFile sb inum x.1 x.2
  pub size : x.1.size ≡ inner.size
  pub same : (off : ℕ) → off / bsize < 268 → file_byte x.1 x.2 off ≡ file_byte inner d off

read_within :
    (sb : SuperBlock) (inum room len offset : ℕ) (inner : InodeInner) (d : Bits)
    → IsFile sb inum inner d
    → (((inner.size < offset) ⊎ (2 ^ 32 ≤ offset + len))
        × (read_u32 sb room len offset inner d ≡ (err read, inner, d)))
      ⊎ ((offset ≤ inner.size)
          × ReadFile sb inum room
              (if ltb inner.size (offset + len) then inner.size - offset else len)
              offset
              inner
              d
              (read_u32 sb room len offset inner d))
unfolding read_u32
read_within sb inum room len offset inner d f = elim (dec_lt inner.size offset) [
  | yes beyond ↦ inl (inl beyond, ground (arith, beyond))
  | no within ↦ elim (dec_lt (offset + len) (2 ^ 32)) [
    | no wide ↦ inl (inr (omega arith), ground (arith, wide))
    | yes fits ↦
        let n : ℕ = if ltb inner.size (offset + len) then inner.size - offset else len in
        let low : offset + n ≤ inner.size = ground (arith, within) in
        inr (
          omega arith,
          go n within fits low refl (
              read_from_lem sb room n offset (omega (arith, f.fits, low)) n 0 inner.addrs d
                (omega arith) (omega arith) f.sound f.owned),
        )
  ]
]
  where
    go :
        (n : ℕ)
        → ¬ (inner.size < offset)
        → offset + len < 2 ^ 32
        → offset + n ≤ inner.size
        → (if ltb inner.size (offset + len) then inner.size - offset else len) ≡ n
        → ReadOff sb room n inner.addrs d
            (offset + 0)
            (offset + n)
            (read_from sb room n n 0 (offset + 0) inner.addrs d)
        → ReadFile sb inum room n offset inner d (read_u32 sb room len offset inner d)
    go n within fits low is_n w₀ =
        let start : offset + 0 ≡ offset = omega arith in
        let w =
          subst
            (λ o.
              ReadOff sb room n inner.addrs d o (offset + n)
                (read_from sb room n n 0 o inner.addrs d))
            start w₀ in
        let x = read_from sb room n n 0 offset inner.addrs d in
        let inner' : InodeInner = record inner { addrs = x.1 } in
        let loop : read_u32 sb room len offset inner d ≡ (x.0, inner', x.2) =
          ground (arith, within, fits, is_n) in
        subst (λ r. ReadFile sb inum room n offset inner d r) (sym loop)
          (record {
            bytes = ends n low x.1 x.2 x.0 w.ends w.grew;
            good = record {
              sound = w.grew.evolves.sound;
              owned = w.grew.evolves.owned;
              lives =
                  IsHome-Evolves sb (home sb inum) (slot inner.addrs d) d (slot x.1 x.2) x.2 f.lives
                    w.grew.evolves;
              fits = f.fits;
              present = λ off lt e.
                  let nz = f.present off lt in
                  let there : place (off / bsize) < nslots = ground (arith, lt, f.fits) in
                  nz (sym (w.grew.evolves.keeps (place (off / bsize)) there nz) ∙ e);
            };
            size = refl;
            same =
                λ off lt. Grew-byte_at sb (slot inner.addrs d) d (slot x.1 x.2) x.2 off w.grew lt;
          })
      where
        ends :
            (n : ℕ)
            → offset + n ≤ inner.size
            → (addrs' : ℕ → ℕ) (d' : Bits) (r : Result (List ℕ) FsError)
            → ReadEnds sb room n (slot inner.addrs d) d offset (offset + n) (slot addrs' d') d' r
            → Grew sb (slot inner.addrs d) d (slot addrs' d') d'
            → (r ≡ ok (file_bytes (slot inner.addrs d) d offset n)) ⊎ ((room < n) × (r ≡ err read))
        ends n low addrs' d' _ whole g =
            let k : offset + n - offset ≡ n = omega arith in
            inl (ap (λ j. ok (file_bytes (slot inner.addrs d) d offset j)) k)
        ends n low addrs' d' _ (short k lt full gone) g =
            let nz = f.present (offset + k) (omega arith) in
            let there : place ((offset + k) / bsize) < nslots = ground (arith, lt, low, f.fits) in
            absurd (nz (sym (g.evolves.keeps (place ((offset + k) / bsize)) there nz) ∙ gone))
        ends n low addrs' d' _ (no_room tight) g = inr (tight, refl)

-- For a file in order, with `len` the length of the buffer as a u32, `read` is refused if the offset is
-- beyond the end of the file or the range beyond a u32, and changes nothing then. Otherwise it returns
-- the bytes of the file from the offset on, as many as were asked for or as there are, unless they
-- cannot all be copied out, which may make it fail. The file is in order afterwards and has the same
-- bytes.
pub read_inode_lem :
    (sb : SuperBlock) (inum room dst_len offset : ℕ) (inner : InodeInner) (d : Bits)
    → IsFile sb inum inner d
    → let len = dst_len % 2 ^ 32 in
      (((inner.size < offset) ⊎ (2 ^ 32 ≤ offset + len))
        × (read_inode sb room dst_len offset inner d ≡ (err read, inner, d)))
      ⊎ ((offset ≤ inner.size)
          × ReadFile sb inum room
              (if ltb inner.size (offset + len) then inner.size - offset else len)
              offset
              inner
              d
              (read_inode sb room dst_len offset inner d))
unfolding read_inode
read_inode_lem sb inum room dst_len offset inner d f =
    read_within sb inum room (dst_len % 2 ^ 32) offset inner d f

file_bytes-take :
    (s : ℕ → ℕ) (d : Bits) (off k : ℕ) (src : List ℕ)
    → k ≤ length src
    → ((i : ℕ) → i < k → byte_at s d (off + i) ≡ get_or src i 0)
    → file_bytes s d off k ≡ take k src
file_bytes-take s d off zero src le h = refl
file_bytes-take s d off (suc k) [] le h = absurd (omega arith)
file_bytes-take s d off (suc k) (x ∷ xs) le h =
    let here : off + 0 ≡ off = omega arith in
    ap₂ (λ a t. a ∷ t) (ap (byte_at s d) (sym here) ∙ h 0 (omega arith))
      (file_bytes-take s d (off + 1) k xs (omega arith) (λ i li.
        let next : off + 1 + i ≡ off + suc i = omega arith in
        ap (byte_at s d) next ∙ h (suc i) (omega arith)))

read_back :
    (sb : SuperBlock) (inum : ℕ) (src : List ℕ) (user : Bool) (avail offset room : ℕ)
    (inner : InodeInner) (d : Bits)
    (w : WroteFile sb inum src user avail offset inner d
      (write_inode sb inum src user avail offset inner d))
    → w.count ≤ room
    → (read_inode sb room w.count offset w.inner' w.blocks).0 ≡ ok (take w.count src)
unfolding read_inode
read_back sb inum src user avail offset room inner d w space =
    let top : offset + w.count ≤ maxfile * bsize = ground (arith, w.size, w.good.fits) in
    let u32 : w.count % 2 ^ 32 ≡ w.count = omega (arith, top) in
    ap (λ n. (read_u32 sb room n offset w.inner' w.blocks).0) u32
    ∙ (elim (read_within sb inum room w.count offset w.inner' w.blocks w.good) [
      | inl (refused, _) ↦ absurd (ground (arith, refused, w.size, top))
      | inr (_, r) ↦
          let n_is : (if ltb w.inner'.size (offset + w.count)
                then w.inner'.size - offset
                else w.count)
              ≡ w.count =
            ground (arith, w.size) in
          let r' =
            subst
              (λ n.
                ReadFile sb inum room n offset w.inner' w.blocks
                  (read_u32 sb room w.count offset w.inner' w.blocks))
              n_is r in
          elim r'.bytes [
            | inr (tight, _) ↦ absurd (omega arith)
            | inl e ↦
                e
                ∙ ap ok (
                    file_bytes-take (slot w.inner'.addrs w.blocks) w.blocks offset w.count src
                      w.bounds
                      (λ i li.
                        let j : offset + i - offset ≡ i = omega arith in
                        w.bytes (offset + i) (omega (arith, top)) (inl (omega arith))
                        ∙ ground (arith, li, j)))
          ]
    ])

-- A write to a file in order, of bytes that do not overrun the block if they are kernel memory, returns a
-- number of bytes; a read of as many at the same offset, with room for them, returns that many of the
-- first bytes of the source.
pub read_inode-write_inode :
    (sb : SuperBlock) (inum : ℕ) (src : List ℕ) (user : Bool) (avail offset room : ℕ)
    (inner : InodeInner) (d : Bits)
    → IsFile sb inum inner d
    → length src < 2 ^ 32
    → ((i : ℕ) → get_or src i 0 < 256)
    → ((user ≡ true) ⊎ (offset % bsize + length src ≤ bsize))
    → (k : ℕ) (inner' : InodeInner) (d' : Bits)
    → write_inode sb inum src user avail offset inner d ≡ some (ok k, inner', d')
    → k ≤ room
    → (read_inode sb room k offset inner' d').0 ≡ ok (take k src)
read_inode-write_inode sb inum src user avail offset room inner d f small bytes fits k inner' d' e
      space =
    elim (write_inode_lem sb inum src user avail offset inner d f small bytes fits) [
      | inl (_, refused) ↦ absurd (cc)
      | inr (_, _, w) ↦
          let returns = w.returns in
          let ek : w.count ≡ k = cc in
          let ei : w.inner' ≡ inner' = cc in
          let ed : w.blocks ≡ d' = cc in
          subst (λ i. (read_inode sb room k offset i d').0 ≡ ok (take k src)) ei
            (subst (λ b. (read_inode sb room k offset w.inner' b).0 ≡ ok (take k src)) ed
              (subst (λ n. (read_inode sb room n offset w.inner' w.blocks).0 ≡ ok (take n src)) ek
                (read_back sb inum src user avail offset room inner d w (omega (arith, ek)))))
    ]
