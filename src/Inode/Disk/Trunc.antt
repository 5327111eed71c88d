-- ===== src/Inode/Disk/Trunc.antt =====
-- `Inode::trunc`: all blocks of the file are given back, and nothing else.
use octopos.Base.{
  ℕ, ◌+◌, ◌-◌, ◌≤◌, ◌<◌, ◌≡◌, ◌≢◌, refl, sym, ap, ◌∙◌, false, Option, some, arith, dec_lt, update,
  update-ne,
}
use octopos.Blocks.{SuperBlock, Bits}
use octopos.Blocks.Scan.{used}
use octopos.Inode.{get_u32, put_bytes, ndirect}
use octopos.Inode.Slots.{nslots, slot, OffMap}
use octopos.Inode.Disk.{InodeInner, home, disk_byte, disk_offset, update_inode, trunc}
use octopos.Inode.Disk.Home.{IsFile, home_used, home-IsFile}
use octopos.Inode.Disk.Free.{free_direct_lem, free_table_lem}

-- What `trunc` leaves: an empty file, with its blocks free and everything else as it was.
pub record Truncated (sb : SuperBlock) (inum : ℕ) (inner : InodeInner) (d : Bits)
    (x : Option (InodeInner × Bits)) : Type 0 where
  pub inner' : InodeInner
  pub blocks : Bits
  pub returns : x ≡ some (inner', blocks)
  pub empty : inner'.size ≡ 0
  pub no_addrs : (n : ℕ) → n ≤ ndirect → inner'.addrs n ≡ 0
  pub good : IsFile sb inum inner' blocks
  pub gone :
      (n : ℕ)
      → n < nslots
      → slot inner.addrs d n ≢ 0
      → used sb blocks (slot inner.addrs d n) ≡ false
  pub kept :
      (y : ℕ)
      → y < sb.size
      → ((n : ℕ) → n < nslots → slot inner.addrs d n ≢ y)
      → used sb blocks y ≡ used sb d y
  pub frame : (b : ℕ) → OffMap sb b → b ≢ home sb inum → blocks b ≡ d b

-- For a file in order, `trunc` does not panic. It gives back every block of the file, the block of addresses
-- among them, and no other; the file is then empty and in order, without addresses, and no block has
-- changed but those of the free map and the one that the inode is in.
pub trunc_lem :
    (sb : SuperBlock) (inum : ℕ) (inner : InodeInner) (d : Bits)
    → IsFile sb inum inner d
    → Truncated sb inum inner d (trunc sb inum inner d)
unfolding trunc update_inode
trunc_lem sb inum inner d f =
    let s = slot inner.addrs d in
    let entry : (i : ℕ)
        → i < 256
        → (s 12 ≢ 0 → get_u32 (d (s 12)) i ≡ s (13 + i)) × (s 12 ≡ 0 → s (13 + i) ≡ 0) =
      λ i lt.
        let back : 13 + i - 13 ≡ i = omega arith in
        (
          (λ nz. ground (arith, nz, ap (get_u32 (d (inner.addrs ndirect))) back)),
          (λ z. ground (arith, z)),
        ) in
    let (addrs₁, d₁, e₁, at, zeros, f₁) =
      free_direct_lem sb s d f.owned 12 0 inner.addrs d (omega arith)
        (λ n lo hi. ground (arith, hi)) (λ n lt. absurd (omega arith))
        (record {
          sound = f.sound;
          gone = λ n ln on nz. absurd (ground (arith, on));
          kept = λ y ly h. refl;
          other = λ b off. refl;
        }) in
    let (addrs₂, d₂, e₂, clear, f₂) = free_table_lem sb s d f.owned addrs₁ d₁ at zeros entry f₁ in
    let inner' : InodeInner = record inner { size = 0; addrs = addrs₂ } in
    let c = put_bytes (disk_offset inum) 64 (disk_byte inner') (d₂ (home sb inum)) in
    let blank : (n : ℕ) → slot addrs₂ d₂ n ≡ 0 = λ n. elim (dec_lt ndirect n) [
      | no direct ↦ ground (arith, direct, clear n (omega arith))
      | yes entry ↦ ground (arith, entry, clear 12 (omega arith))
    ] in
    let before : IsFile sb inum inner' d₂ = record {
      sound = f₂.sound;
      owned = record {
        in_disk = λ n ln nz. absurd (nz (blank n));
        in_use = λ n ln nz. absurd (nz (blank n));
        off_map = λ n ln nz. absurd (nz (blank n));
        distinct = λ m n lm ln nz e. absurd (nz (blank m));
      };
      lives = record {
        real = f.lives.real;
        inside = f.lives.inside;
        in_use =
            f₂.kept (home sb inum) f.lives.inside (λ n ln on. f.lives.apart n ln) ∙ f.lives.in_use;
        off_map = f.lives.off_map;
        apart = λ n ln e. f.lives.real (sym e ∙ blank n);
      };
      fits = omega arith;
      present = λ off lt. absurd (omega arith);
    } in
    let marks = home_used sb (home sb inum) addrs₂ d₂ before.sound before.owned before.lives c in
    record {
      inner' = inner';
      blocks = update d₂ (home sb inum) c;
      returns = ground (arith, e₁, e₂);
      empty = refl;
      no_addrs = clear;
      good = home-IsFile sb inum inner' d₂ c before;
      gone =
          λ n ln nz. marks (s n) (f.owned.in_disk n ln nz) ∙ f₂.gone n ln (ground (arith, ln)) nz;
      kept = λ y ly h. marks y ly ∙ f₂.kept y ly (λ n ln on. h n ln);
      frame = λ b off ne. update-ne d₂ (home sb inum) b c (λ e. ne (sym e)) ∙ f₂.other b off;
    }
