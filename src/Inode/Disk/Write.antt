-- ===== src/Inode/Disk/Write.antt =====
-- `Inode::write` on an inode whose file is in order.
use octopos.Base.{
  ℕ, ◌+◌, ◌-◌, ◌*◌, ◌/◌, ◌%◌, ◌^◌, ◌≤◌, ◌<◌, ◌≡◌, refl, sym, ap, ◌∙◌, ◌⊎◌, inl, inr, Bool, true,
  ◌&&◌, Option, some, List, arith, ltb, leb, if◌then◌else◌, dec_lt, update, Result, ok, err, get_or,
  length,
}
use octopos.Fs.{FsError, write}
use octopos.Blocks.{SuperBlock, Bits}
use octopos.Inode.{put_bytes, bsize, maxfile, write_from}
use octopos.Inode.Slots.{nslots, slot, place}
use octopos.Inode.Fill.{Full}
use octopos.Inode.Write.{Written, write_from_lem}
use octopos.Inode.Disk.{InodeInner, disk_byte, disk_offset, home, update_inode, write_inode}
use octopos.Inode.Disk.Home.{
  IsFile, file_byte, IsHome-Evolves, home_used, home-IsFile, home-byte_at,
}

-- What a write of `n` bytes at `offset` comes to.
pub record WroteFile (sb : SuperBlock) (inum : ℕ) (src : List ℕ) (user : Bool) (avail offset : ℕ)
    (inner : InodeInner) (d : Bits) (x : Option (Result ℕ FsError × InodeInner × Bits))
    : Type 0 where
  pub count : ℕ
  pub inner' : InodeInner
  pub blocks : Bits
  pub returns : x ≡ some (ok count, inner', blocks)
  pub bounds : count ≤ length src
  pub good : IsFile sb inum inner' blocks
  pub unsaved : Bits
  pub saved : blocks ≡ update_inode sb inum inner' unsaved
  pub size : inner'.size ≡ (if ltb inner.size (offset + count) then offset + count else inner.size)
  -- A copy that fails in the middle may spoil bytes that the write does not count.
  pub bytes :
      (off : ℕ)
      → off / bsize < 268
      → (off < offset + count) ⊎ (offset + length src ≤ off)
      → file_byte inner' blocks off ≡ (
          if leb offset off && ltb off (offset + count)
          then get_or src (off - offset) 0
          else file_byte inner d off)
  pub readable : user ≡ true → count ≤ avail
  pub why : (count ≡ length src) ⊎ Full sb blocks ⊎ ((user ≡ true) × (avail < length src))

-- For a file in order, and a source of bytes which, if it is kernel memory, does not go over the end of the
-- block: `write` is refused exactly if the offset is beyond the end of the file or the last byte beyond
-- the largest file, and changes nothing then. Otherwise it returns how many bytes it has written, which is
-- less than all only if the disk is full or user memory cannot be read. The file is in order again,
-- it has grown as far as it was written, the counted bytes are the source's and those outside of the
-- range that was asked for are as they were.
pub write_inode_lem :
    (sb : SuperBlock) (inum : ℕ) (src : List ℕ) (user : Bool) (avail offset : ℕ)
    (inner : InodeInner) (d : Bits)
    → IsFile sb inum inner d
    → length src < 2 ^ 32
    → ((i : ℕ) → get_or src i 0 < 256)
    → ((user ≡ true) ⊎ (offset % bsize + length src ≤ bsize))
    → (((inner.size < offset) ⊎ (maxfile * bsize < offset + length src))
        × (write_inode sb inum src user avail offset inner d ≡ some (err write, inner, d)))
      ⊎ ((offset ≤ inner.size)
          × (offset + length src ≤ maxfile * bsize)
          × WroteFile sb inum src user avail offset inner d
              (write_inode sb inum src user avail offset inner d))
unfolding write_inode update_inode
write_inode_lem sb inum src user avail offset inner d f small bytes room =
    elim (dec_lt inner.size offset) [
      | yes beyond ↦ inl (inl beyond, ground (arith, beyond))
      | no within ↦ elim (dec_lt (maxfile * bsize) (offset + length src)) [
        | yes long ↦ inl (inr long, ground (arith, small, long, within))
        | no short_enough ↦ inr (
          omega arith,
          omega arith,
          go
              (write_from_lem sb src user avail (length src) offset (omega arith) bytes (length src)
                0 inner.addrs d (omega arith) (omega arith)
                (elim room [ inl u ↦ inl u | inr r ↦ inr (omega arith) ]) f.sound f.owned)
              within short_enough,
        )
      ]
    ]
  where
    go :
        Written sb src user avail
          (length src)
          offset
          0
          inner.addrs
          d
          (write_from sb src user avail (length src) (length src) 0 (offset + 0) inner.addrs d)
        → ¬ (inner.size < offset)
        → ¬ (maxfile * bsize < offset + length src)
        → WroteFile sb inum src user avail offset inner d
            (write_inode sb inum src user avail offset inner d)
    go w within short_enough =
        let n_is : length src % 2 ^ 32 ≡ length src = omega (arith, small) in
        let start : offset + 0 ≡ offset = omega arith in
        let size' : ℕ =
          if ltb inner.size (offset + w.count) then offset + w.count else inner.size in
        let inner' : InodeInner = record inner { size = size'; addrs = w.addrs' } in
        let c = put_bytes (disk_offset inum) 64 (disk_byte inner') (w.blocks (home sb inum)) in
        let d' : Bits = update w.blocks (home sb inum) c in
        let loop : write_from sb src user avail (length src % 2 ^ 32) (length src % 2 ^ 32) 0 offset
              inner.addrs d
            ≡ some (w.count, w.addrs', w.blocks) =
          ap (λ n. write_from sb src user avail n n 0 offset inner.addrs d) n_is
          ∙ ap (λ o. write_from sb src user avail (length src) (length src) 0 o inner.addrs d)
              (sym start)
          ∙ w.returns in
        let before : IsFile sb inum inner' w.blocks = record {
          sound = w.wrote.evolves.sound;
          owned = w.wrote.evolves.owned;
          lives =
              IsHome-Evolves sb (home sb inum) (slot inner.addrs d) d (slot w.addrs' w.blocks)
                w.blocks f.lives w.wrote.evolves;
          fits = ground (arith, f.fits, w.bounds, short_enough);
          present = λ off lt. elim (dec_lt off offset) [
            | yes old ↦
                let nz = f.present off (omega (arith, within)) in
                let low : place (off / bsize) < nslots = ground (arith, old, within, f.fits) in
                λ e. nz (sym (w.wrote.evolves.keeps (place (off / bsize)) low nz) ∙ e)
            | no new ↦ elim (dec_lt off (offset + w.count)) [
              | yes written ↦ w.wrote.present off (omega arith) (omega (arith, w.extent))
              | no behind ↦
                  let lt' : off < inner.size = ground (arith, lt, behind) in
                  let nz = f.present off lt' in
                  let low : place (off / bsize) < nslots = ground (arith, lt', f.fits) in
                  λ e. nz (sym (w.wrote.evolves.keeps (place (off / bsize)) low nz) ∙ e)
            ]
          ];
        } in
        record {
          count = w.count;
          inner' = inner';
          blocks = d';
          returns = ground (arith, loop, within, short_enough, n_is, small);
          bounds = w.bounds.1;
          good = home-IsFile sb inum inner' w.blocks c before;
          unsaved = w.blocks;
          saved = refl;
          size = refl;
          bytes = λ off lt out.
              home-byte_at sb (home sb inum) w.addrs' w.blocks before.sound before.owned
                before.lives c off lt
              ∙ w.wrote.bytes off lt
              ∙ ground (arith, out, w.extent);
          readable = λ u. elim (w.readable u) [ inl e ↦ omega arith | inr le ↦ le ];
          why = elim w.why [
            | inl all ↦ inl all
            | inr (inl full) ↦ inr (
                inl (λ y ly.
                  home_used sb (home sb inum) w.addrs' w.blocks before.sound before.owned
                    before.lives c y ly
                  ∙ full y ly))
            | inr (inr u) ↦ inr (inr u)
          ];
        }
