-- ===== src/Inode/Contents.antt =====
-- Bytes written to one block of an inode, and what the file reads as afterwards.
use octopos.Base.{
  ℕ, ◌+◌, ◌-◌, ◌/◌, ◌%◌, ◌≤◌, ◌<◌, ◌≡◌, ◌≢◌, sym, ap, subst, ◌∙◌, ◌&&◌, arith, ltb, leb,
  if◌then◌else◌, ℕ_discrete, update, update-ne,
}
use octopos.Blocks.{SuperBlock, Bits, bpb}
use octopos.Blocks.Scan.{used}
use octopos.Inode.{Block, get_u32, bsize, ndirect}
use octopos.Inode.Slots.{nslots, slot, place, byte_at, OffMap, Sound, Owned, Evolves}

-- The bytes of the file from `lo` to `hi` are those of `f`, and the others are as they were.
pub record Wrote (sb : SuperBlock) (f : ℕ → ℕ) (lo hi : ℕ) (s : ℕ → ℕ) (d : Bits) (s' : ℕ → ℕ)
    (d' : Bits) : Type 0 where
  pub evolves : Evolves sb s d s' d'
  pub bytes :
      (off : ℕ)
      → off / bsize < 268
      → byte_at s' d' off ≡ (if leb lo off && ltb off hi then f off else byte_at s d off)
  pub present : (off : ℕ) → lo ≤ off → off < hi → s' (place (off / bsize)) ≢ 0

-- A block gets other contents that is none of the free map, nor the block of addresses: the places and the
-- free map stay.
module _ (sb : SuperBlock) (addrs : ℕ → ℕ) (d : Bits) (so : Sound sb d)
    (ow : Owned sb (slot addrs d) d) (b : ℕ) (inside : b < sb.size) (off : OffMap sb b)
    (apart : addrs ndirect ≢ 0 → addrs ndirect ≢ b) (c : Block) where
  pub put_slot : (n : ℕ) → slot addrs (update d b c) n ≡ slot addrs d n
  put_slot n = elim (ℕ_discrete (addrs ndirect) 0) [
    | yes z ↦ ground (arith, z)
    | no nz ↦
        let same : get_u32 (update d b c (addrs ndirect)) (n - 13)
            ≡ get_u32 (d (addrs ndirect)) (n - 13) =
          ap (λ (x : Block). get_u32 x (n - 13))
            (update-ne d b (addrs ndirect) c (λ e. apart nz (sym e))) in
        ground (arith, nz, same)
  ]

  pub put_used : (y : ℕ) → y < sb.size → used sb (update d b c) y ≡ used sb d y
  put_used y ly =
      ap (λ (x : Block). x (y % bpb))
        (update-ne d b (sb.bmapstart + y / bpb) c (λ e. off y ly (sym e)))

  pub put-Sound : Sound sb (update d b c)
  put-Sound = record {
    reserved = record {
      reserved = λ y ly.
          let (low, mark) = so.reserved.reserved y ly in
          (low, put_used (sb.bmapstart + y / bpb) low ∙ mark);
    };
    boot = put_used 0 (omega (arith, inside)) ∙ so.boot;
    small = so.small;
  }

  pub put-Owned : Owned sb (slot addrs (update d b c)) (update d b c)
  put-Owned = record {
    in_disk = λ n ln nz.
        subst (λ i. i < sb.size) (sym (put_slot n)) (ow.in_disk n ln (λ e. nz (put_slot n ∙ e)));
    in_use = λ n ln nz.
        let nz' : slot addrs d n ≢ 0 = λ e. nz (put_slot n ∙ e) in
        ap (used sb (update d b c)) (put_slot n)
        ∙ put_used (slot addrs d n) (ow.in_disk n ln nz')
        ∙ ow.in_use n ln nz';
    off_map = λ n ln nz.
        subst (λ i. OffMap sb i) (sym (put_slot n)) (ow.off_map n ln (λ e. nz (put_slot n ∙ e)));
    distinct = λ m n lm ln nz e.
        ow.distinct m n lm ln (λ f. nz (put_slot m ∙ f)) (sym (put_slot m) ∙ e ∙ put_slot n);
  }

-- A block of the file gets other contents.
module _ (sb : SuperBlock) (addrs : ℕ → ℕ) (d : Bits) (so : Sound sb d)
    (ow : Owned sb (slot addrs d) d) (k : ℕ) (lk : k < nslots) (nk : k ≢ ndirect)
    (there : slot addrs d k ≢ 0) (c : Block) where
  pub same_block : (b : ℕ) → b ≢ slot addrs d k → update d (slot addrs d k) c b ≡ d b
  same_block b ne = update-ne d (slot addrs d k) b c (λ e. ne (sym e))

  no_table : addrs ndirect ≢ 0 → addrs ndirect ≢ slot addrs d k
  no_table nz e = nk (sym (ow.distinct ndirect k (omega arith) lk nz e))

  pub same_slot : (n : ℕ) → n < nslots → slot addrs (update d (slot addrs d k) c) n ≡ slot addrs d n
  same_slot n ln =
      put_slot sb addrs d so ow (slot addrs d k) (ow.in_disk k lk there) (ow.off_map k lk there)
        no_table c n

  pub write_block-Evolves :
      Evolves sb
        (slot addrs d)
        d
        (slot addrs (update d (slot addrs d k) c))
        (update d (slot addrs d k) c)
  write_block-Evolves = record {
    sound =
        put-Sound sb addrs d so ow (slot addrs d k) (ow.in_disk k lk there) (ow.off_map k lk there)
          no_table c;
    owned =
        put-Owned sb addrs d so ow (slot addrs d k) (ow.in_disk k lk there) (ow.off_map k lk there)
          no_table c;
    keeps = λ n ln nz. same_slot n ln;
    new = λ n ln z nz. absurd (nz (same_slot n ln ∙ z));
    marks = λ b lb u.
        put_used sb addrs d so ow (slot addrs d k) (ow.in_disk k lk there) (ow.off_map k lk there)
          no_table c b lb
        ∙ u;
    frame = λ b lb u off no_slot. same_block b (λ e. no_slot k lk (sym e));
  }
