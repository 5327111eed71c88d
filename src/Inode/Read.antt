-- ===== src/Inode/Read.antt =====
-- The loop of `read`: the bytes that it returns are the file's.
use octopos.Base.{
  ℕ, zero, suc, ◌+◌, ◌-◌, ◌*◌, ◌/◌, ◌%◌, ◌≤◌, ◌<◌, ◌≡◌, min, refl, sym, ap, ap₂, subst, ◌∙◌, List,
  [], ◌++◌, arith, dec_lt, Result, ok, err,
}
use octopos.Fs.{FsError, read}
use octopos.Blocks.{SuperBlock, Bits}
use octopos.Inode.{byte, bsize, maxfile, map, bytes_of, read_from}
use octopos.Inode.Slots.{slot, place, Sound, Owned, Grew, Grew-self, Grew-trans, Grew-byte_at}
use octopos.Inode.Fill.{Full}
use octopos.Inode.Map.{MapEnds, mapped, disk_full, too_far, map_lem}
use octopos.Inode.Round.{byte_at_there}
use octopos.Inode.FileBytes.{file_bytes, file_bytes-ext, file_bytes-append, bytes_of-file_bytes}

-- How a read of the bytes from `lo` to `hi` ends.
pub data ReadEnds (sb : SuperBlock) (room n : ℕ) (s : ℕ → ℕ) (d : Bits) (lo hi : ℕ) (s' : ℕ → ℕ)
    (d' : Bits) : Result (List ℕ) FsError → Type 0 where
  whole : ReadEnds sb room n s d lo hi s' d' (ok (file_bytes s d lo (hi - lo)))
  -- No block is left for a part of the file that has none.
  short :
      (k : ℕ)
      → lo + k < hi
      → Full sb d'
      → s' (place ((lo + k) / bsize)) ≡ 0
      → ReadEnds sb room n s d lo hi s' d' (ok (file_bytes s d lo k))
  no_room : room < n → ReadEnds sb room n s d lo hi s' d' (err read)

pub record ReadOff (sb : SuperBlock) (room n : ℕ) (addrs : ℕ → ℕ) (d : Bits) (lo hi : ℕ)
    (x : Result (List ℕ) FsError × (ℕ → ℕ) × Bits) : Type 0 where
  pub grew : Grew sb (slot addrs d) d (slot x.1 x.2) x.2
  pub ends : ReadEnds sb room n (slot addrs d) d lo hi (slot x.1 x.2) x.2 x.0

-- The bytes of a round, and those of the rounds after it
joined :
    (sb : SuperBlock) (room n : ℕ) (s : ℕ → ℕ) (d : Bits) (s₁ : ℕ → ℕ) (d₁ : Bits) (lo m hi : ℕ)
    (s' : ℕ → ℕ) (d' : Bits) (first : List ℕ) (r : Result (List ℕ) FsError)
    → lo + m ≤ hi
    → hi ≤ maxfile * bsize
    → Grew sb s d s₁ d₁
    → first ≡ file_bytes s d lo m
    → ReadEnds sb room n s₁ d₁ (lo + m) hi s' d' r
    → ReadEnds sb room n s d lo hi s' d' (elim r [ err e ↦ err e | ok bytes ↦ ok (first ++ bytes) ])
joined sb room n s d s₁ d₁ lo m hi s' d' first r le top g e (no_room h) = no_room h
joined sb room n s d s₁ d₁ lo m hi s' d' first r le top g e whole =
    let same =
      file_bytes-ext s s₁ d d₁ (lo + m) (hi - (lo + m))
        (λ i a b. Grew-byte_at sb s d s₁ d₁ i g (omega arith)) in
    let k : m + (hi - (lo + m)) ≡ hi - lo = omega arith in
    let is : file_bytes s d lo (hi - lo) ≡ first ++ file_bytes s₁ d₁ (lo + m) (hi - (lo + m)) =
      ap (file_bytes s d lo) (sym k)
      ∙ file_bytes-append s d lo m (hi - (lo + m))
      ∙ ap₂ (λ x y. x ++ y) (sym e) (sym same) in
    subst (λ l. ReadEnds sb room n s d lo hi s' d' (ok l)) is whole
joined sb room n s d s₁ d₁ lo m hi s' d' first r le top g e (short k lt f z) =
    let same =
      file_bytes-ext s s₁ d d₁ (lo + m) k (λ i a b. Grew-byte_at sb s d s₁ d₁ i g (omega arith)) in
    let off : lo + m + k ≡ lo + (m + k) = omega arith in
    let is : file_bytes s d lo (m + k) ≡ first ++ file_bytes s₁ d₁ (lo + m) k =
      file_bytes-append s d lo m k ∙ ap₂ (λ x y. x ++ y) (sym e) (sym same) in
    subst (λ l. ReadEnds sb room n s d lo hi s' d' (ok l)) is
      (short (m + k) (omega arith) f (ap (λ i. s' (place (i / bsize))) (sym off) ∙ z))

module _ (sb : SuperBlock) (room n base : ℕ) (top : base + n ≤ maxfile * bsize) where
  pub read_from_lem :
      (k total : ℕ) (addrs : ℕ → ℕ) (d : Bits)
      → total ≤ n
      → n ≤ total + k
      → Sound sb d
      → Owned sb (slot addrs d) d
      → ReadOff sb room n addrs d
          (base + total)
          (base + n)
          (read_from sb room n k total (base + total) addrs d)
  unfolding read_from
  read_from_lem zero total addrs d le enough so ow = record {
    grew = Grew-self sb (slot addrs d) d so ow;
    ends = nothing total addrs d (omega arith);
  }
    where
      nothing :
          (total : ℕ) (addrs : ℕ → ℕ) (d : Bits)
          → n ≤ total
          → ReadEnds sb room n (slot addrs d) d (base + total) (base + n) (slot addrs d) d (ok [])
      nothing total addrs d le =
          let e : base + n - (base + total) ≡ 0 = omega arith in
          subst
            (λ j.
              ReadEnds sb room n (slot addrs d) d (base + total) (base + n) (slot addrs d) d
                (ok (file_bytes (slot addrs d) d (base + total) j)))
            e whole
  read_from_lem (suc k) total addrs d le enough so ow = elim (dec_lt total n) [
    | no done ↦
        let is : read_from sb room n (suc k) total (base + total) addrs d ≡ (ok [], addrs, d) =
          ground (arith, done) in
        let e : base + n - (base + total) ≡ 0 = omega arith in
        subst (λ x. ReadOff sb room n addrs d (base + total) (base + n) x) (sym is)
          (record {
            grew = Grew-self sb (slot addrs d) d so ow;
            ends =
                subst
                  (λ j.
                    ReadEnds sb room n (slot addrs d) d (base + total) (base + n) (slot addrs d) d
                      (ok (file_bytes (slot addrs d) d (base + total) j)))
                  e whole;
          })
    | yes more ↦
        let x = map sb ((base + total) / bsize) addrs d in
        let m = map_lem sb ((base + total) / bsize) addrs d so ow in
        go more (λ m₁ addrs₂ d₂ le' pos. read_from_lem k (total + m₁) addrs₂ d₂ le' (omega arith))
          x.1 x.2 x.0 refl m.grew m.ends
  ]
    where
      go :
          total < n
          → ((m : ℕ) (addrs₂ : ℕ → ℕ) (d₂ : Bits)
              → total + m ≤ n
              → 0 < m
              → Sound sb d₂
              → Owned sb (slot addrs₂ d₂) d₂
              → ReadOff sb room n addrs₂ d₂
                  (base + (total + m))
                  (base + n)
                  (read_from sb room n k (total + m) (base + (total + m)) addrs₂ d₂))
          → (addrs₁ : ℕ → ℕ) (d₁ : Bits) (r : Result ℕ FsError)
          → map sb ((base + total) / bsize) addrs d ≡ (r, addrs₁, d₁)
          → Grew sb (slot addrs d) d (slot addrs₁ d₁) d₁
          → MapEnds sb ((base + total) / bsize) (slot addrs₁ d₁) d₁ r
          → ReadOff sb room n addrs d
              (base + total)
              (base + n)
              (read_from sb room n (suc k) total (base + total) addrs d)
      go more again addrs₁ d₁ _ e g (too_far far) = absurd (omega arith)
      go more again addrs₁ d₁ _ e g (disk_full _ gone full) =
          let is : read_from sb room n (suc k) total (base + total) addrs d ≡ (ok [], addrs₁, d₁) =
            ground (arith, more, e) in
          let here : base + total + 0 ≡ base + total = omega arith in
          subst (λ x. ReadOff sb room n addrs d (base + total) (base + n) x) (sym is)
            (record {
              grew = g;
              ends =
                  short 0 (omega arith) full
                    (ap (λ i. slot addrs₁ d₁ (place (i / bsize))) here ∙ gone);
            })
      go more again addrs₁ d₁ _ e g (mapped _ there) =
          let o = (base + total) % bsize in
          let m = min (n - total) (bsize - o) in
          elim (dec_lt room (total + m)) [
            | yes tight ↦
                let is : read_from sb room n (suc k) total (base + total) addrs d
                    ≡ (err read, addrs₁, d₁) =
                  ground (arith, more, e, tight) in
                subst (λ x. ReadOff sb room n addrs d (base + total) (base + n) x) (sym is)
                  (record { grew = g; ends = no_room (omega arith) })
            | no fits ↦
                let a = slot addrs₁ d₁ (place ((base + total) / bsize)) in
                let rest = read_from sb room n k (total + m) (base + (total + m)) addrs₁ d₁ in
                let off : base + total + m ≡ base + (total + m) = omega arith in
                let bytes = bytes_of (d₁ a) o m in
                let is : read_from sb room n (suc k) total (base + total) addrs d
                    ≡ (elim rest.0 [ err x ↦ err x | ok t ↦ ok (bytes ++ t) ], rest.1, rest.2) =
                  ground (arith, more, e, fits, off) in
                let first : bytes ≡ file_bytes (slot addrs d) d (base + total) m =
                  bytes_of-file_bytes (slot addrs d) d (d₁ a) o (base + total) m (λ i li.
                    let row : (base + total + i) / bsize ≡ (base + total) / bsize = omega arith in
                    let col : o + i ≡ (base + total + i) % bsize = omega arith in
                    ap (byte (d₁ a)) col
                    ∙ sym (
                        byte_at_there (slot addrs₁ d₁) d₁ (base + total + i) a
                          (ap (λ q. slot addrs₁ d₁ (place q)) row) there)
                    ∙ Grew-byte_at sb (slot addrs d) d (slot addrs₁ d₁) d₁ (base + total + i) g
                        (omega arith)) in
                let w =
                  again m addrs₁ d₁ (omega arith) (omega arith) g.evolves.sound g.evolves.owned in
                let ends' =
                  subst
                    (λ lo.
                      ReadEnds sb room n (slot addrs₁ d₁) d₁ lo (base + n) (slot rest.1 rest.2)
                        rest.2 rest.0)
                    (sym off) w.ends in
                subst (λ x. ReadOff sb room n addrs d (base + total) (base + n) x) (sym is)
                  (record {
                    grew =
                        Grew-trans sb (slot addrs d) d (slot addrs₁ d₁) d₁ (slot rest.1 rest.2)
                          rest.2 g w.grew;
                    ends =
                        joined sb room n (slot addrs d) d (slot addrs₁ d₁) d₁ (base + total) m
                          (base + n) (slot rest.1 rest.2) rest.2 bytes rest.0 (omega arith) top g
                          first ends';
                  })
          ]
