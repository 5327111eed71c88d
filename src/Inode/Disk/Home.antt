-- ===== src/Inode/Disk/Home.antt =====
-- A file in order, its inode in a block of its own, and a write of that block.
use octopos.Base.{
  ℕ, ◌*◌, ◌/◌, ◌≤◌, ◌<◌, ◌≡◌, ◌≢◌, sym, ap, ◌∙◌, true, arith, ℕ_discrete, update, update-ne,
}
use octopos.Blocks.{SuperBlock, Bits}
use octopos.Blocks.Scan.{used}
use octopos.Inode.{Block, bsize, ndirect, maxfile}
use octopos.Inode.Slots.{nslots, slot, place, byte_at, OffMap, Sound, Owned, Evolves}
use octopos.Inode.Contents.{put_slot, put_used, put-Sound, put-Owned}
use octopos.Inode.Round.{byte_at_same}
use octopos.Inode.Disk.{InodeInner, home}

-- The block that an inode is in: in use, none of the free map, and none of its file's.
pub record IsHome (sb : SuperBlock) (b : ℕ) (s : ℕ → ℕ) (d : Bits) : Type 0 where
  pub real : b ≢ 0
  pub inside : b < sb.size
  pub in_use : used sb d b ≡ true
  pub off_map : OffMap sb b
  pub apart : (n : ℕ) → n < nslots → s n ≢ b

-- The file is in order: it has a block, its own, for each of its bytes.
pub record IsFile (sb : SuperBlock) (inum : ℕ) (inner : InodeInner) (d : Bits) : Type 0 where
  pub sound : Sound sb d
  pub owned : Owned sb (slot inner.addrs d) d
  pub lives : IsHome sb (home sb inum) (slot inner.addrs d) d
  pub fits : inner.size ≤ maxfile * bsize
  pub present : (off : ℕ) → off < inner.size → slot inner.addrs d (place (off / bsize)) ≢ 0

abbrev pub file_byte : InodeInner → Bits → ℕ → ℕ
file_byte inner d off = byte_at (slot inner.addrs d) d off

pub IsHome-Evolves :
    (sb : SuperBlock) (b : ℕ) (s : ℕ → ℕ) (d : Bits) (s' : ℕ → ℕ) (d' : Bits)
    → IsHome sb b s d
    → Evolves sb s d s' d'
    → IsHome sb b s' d'
IsHome-Evolves sb b s d s' d' h g = record {
  real = h.real;
  inside = h.inside;
  in_use = g.marks b h.inside h.in_use;
  off_map = h.off_map;
  apart = λ n ln e. elim (ℕ_discrete (s n) 0) [
    | no nz ↦ h.apart n ln (sym (g.keeps n ln nz) ∙ e)
    | yes z ↦ elim (ℕ_discrete (s' n) 0) [
      | yes z' ↦ h.apart n ln (z ∙ sym z' ∙ e)
      | no nz' ↦ ground (arith, g.new n ln z nz', ap (used sb d) e, h.in_use)
    ]
  ];
}

-- The inode's block is written, with the new size and addresses in it.
module _ (sb : SuperBlock) (b : ℕ) (addrs : ℕ → ℕ) (d : Bits) (so : Sound sb d)
    (ow : Owned sb (slot addrs d) d) (h : IsHome sb b (slot addrs d) d) (c : Block) where
  pub home_slot : (n : ℕ) → slot addrs (update d b c) n ≡ slot addrs d n
  home_slot = put_slot sb addrs d so ow b h.inside h.off_map (λ _. h.apart ndirect (omega arith)) c

  pub home_used : (y : ℕ) → y < sb.size → used sb (update d b c) y ≡ used sb d y
  home_used = put_used sb addrs d so ow b h.inside h.off_map (λ _. h.apart ndirect (omega arith)) c

  home-IsHome : IsHome sb b (slot addrs (update d b c)) (update d b c)
  home-IsHome = record {
    real = h.real;
    inside = h.inside;
    in_use = home_used b h.inside ∙ h.in_use;
    off_map = h.off_map;
    apart = λ n ln e. h.apart n ln (sym (home_slot n) ∙ e);
  }

  pub home-byte_at :
      (off : ℕ)
      → off / bsize < 268
      → byte_at (slot addrs (update d b c)) (update d b c) off ≡ byte_at (slot addrs d) d off
  home-byte_at off lt =
      byte_at_same (slot addrs d) (slot addrs (update d b c)) d (update d b c) off
        (home_slot (place (off / bsize)))
        (λ _.
          update-ne d b (slot addrs d (place (off / bsize))) c
            (λ e. h.apart (place (off / bsize)) (ground (arith, lt)) (sym e)))

pub home-IsFile :
    (sb : SuperBlock) (inum : ℕ) (inner : InodeInner) (d : Bits) (c : Block)
    → IsFile sb inum inner d
    → IsFile sb inum inner (update d (home sb inum) c)
home-IsFile sb inum inner d c f =
    let b = home sb inum in
    record {
      sound =
          put-Sound sb inner.addrs d f.sound f.owned b f.lives.inside f.lives.off_map
            (λ _. f.lives.apart ndirect (omega arith)) c;
      owned =
          put-Owned sb inner.addrs d f.sound f.owned b f.lives.inside f.lives.off_map
            (λ _. f.lives.apart ndirect (omega arith)) c;
      lives = home-IsHome sb b inner.addrs d f.sound f.owned f.lives c;
      fits = f.fits;
      present = λ off lt e.
          f.present off lt (
            sym (home_slot sb b inner.addrs d f.sound f.owned f.lives c (place (off / bsize))) ∙ e);
    }
