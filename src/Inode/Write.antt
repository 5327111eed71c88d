-- ===== src/Inode/Write.antt =====
-- The loop of `write`: the bytes of the file from the offset on are those that were written.
use octopos.Base.{
  ℕ, zero, suc, ◌+◌, ◌-◌, ◌*◌, ◌/◌, ◌%◌, ◌≤◌, ◌<◌, ◌≡◌, ◌≢◌, min, refl, sym, ap, ap₂, subst, ◌∙◌,
  ◌⊎◌, inl, inr, Bool, true, false, not, ◌&&◌, Option, some, List, arith, ltb, if◌then◌else◌,
  Bool-cases, dec_lt, update, Result, get_or,
}
use octopos.Fs.{FsError}
use octopos.Blocks.{SuperBlock, Bits}
use octopos.Inode.{put_bytes, bsize, maxfile, map, write_from}
use octopos.Inode.Slots.{slot, place, Sound, Owned, Grew, Grew-self}
use octopos.Inode.Fill.{Full}
use octopos.Inode.Map.{MapEnds, mapped, disk_full, too_far, map_lem}
use octopos.Inode.Contents.{Wrote}
use octopos.Inode.Round.{Grew-Wrote, Wrote-trans, round_lem}

-- The byte of the source that belongs at an offset of the file
abbrev pub from : List ℕ → ℕ → ℕ → ℕ
from src base off = get_or src (off - base) 0

pub record Written (sb : SuperBlock) (src : List ℕ) (user : Bool) (avail n base total : ℕ)
    (addrs : ℕ → ℕ) (d : Bits) (x : Option (ℕ × (ℕ → ℕ) × Bits)) : Type 0 where
  pub count : ℕ
  pub addrs' : ℕ → ℕ
  pub blocks : Bits
  pub returns : x ≡ some (count, addrs', blocks)
  pub bounds : (total ≤ count) × (count ≤ n)
  -- Beyond the bytes that are counted, a copy that failed in the middle may have written some.
  pub upto : ℕ
  pub extent : (base + count ≤ upto) × (upto ≤ base + n)
  pub wrote :
      Wrote sb (from src base) (base + total) upto (slot addrs d) d (slot addrs' blocks) blocks
  pub readable : user ≡ true → (count ≡ total) ⊎ (count ≤ avail)
  pub why : (count ≡ n) ⊎ Full sb blocks ⊎ ((user ≡ true) × (avail < n))

module _ (sb : SuperBlock) (src : List ℕ) (user : Bool) (avail n base : ℕ)
    (top : base + n ≤ maxfile * bsize) (bytes : (i : ℕ) → get_or src i 0 < 256) where
  -- The loop stops here, with nothing written.
  stops :
      (total : ℕ) (addrs : ℕ → ℕ) (d : Bits) (addrs' : ℕ → ℕ) (d' : Bits)
      → total ≤ n
      → Grew sb (slot addrs d) d (slot addrs' d') d'
      → (total ≡ n) ⊎ Full sb d' ⊎ ((user ≡ true) × (avail < n))
      → Written sb src user avail n base total addrs d (some (total, addrs', d'))
  stops total addrs d addrs' d' le g why = record {
    count = total;
    addrs' = addrs';
    blocks = d';
    returns = refl;
    bounds = (omega arith, le);
    upto = base + total;
    extent = (omega arith, omega arith);
    wrote = Grew-Wrote sb (from src base) (base + total) (slot addrs d) d (slot addrs' d') d' g;
    readable = λ _. inl refl;
    why = why;
  }

  module _ (total : ℕ) (addrs : ℕ → ℕ) (d : Bits) (more : total < n) (addrs₁ : ℕ → ℕ) (d₁ : Bits)
      (g : Grew sb (slot addrs d) d (slot addrs₁ d₁) d₁)
      (there : slot addrs₁ d₁ (place ((base + total) / bsize)) ≢ 0) (copied : ℕ)
      (fits : (base + total) % bsize + copied ≤ bsize) (low : total + copied ≤ n) where
    abbrev after : Bits
    after = update d₁ (slot addrs₁ d₁ (place ((base + total) / bsize))) (
        put_bytes ((base + total) % bsize) copied (λ i. get_or src (total + i) 0)
          (d₁ (slot addrs₁ d₁ (place ((base + total) / bsize)))))

    round :
        Wrote sb
          (from src base)
          (base + total)
          (base + total + copied)
          (slot addrs d)
          d
          (slot addrs₁ after)
          after
    round =
        let start : (base + total) / bsize * bsize + (base + total) % bsize ≡ base + total =
          omega arith in
        subst
          (λ lo.
            Wrote sb (from src base) lo (lo + copied) (slot addrs d) d (slot addrs₁ after) after)
          start
          (round_lem sb (from src base) (slot addrs d) d addrs₁ d₁ g ((base + total) / bsize)
            (omega arith) there ((base + total) % bsize) copied fits (λ i. get_or src (total + i) 0)
            (λ i li.
              let same : total + i
                  ≡ (base + total) / bsize * bsize + (base + total) % bsize + i - base =
                omega arith in
              (ap (λ j. get_or src j 0) same, bytes (total + i))))

    -- A round that is followed by others
    goes_on :
        (user ≡ true → total + copied ≤ avail)
        → (x : Option (ℕ × (ℕ → ℕ) × Bits))
        → Written sb src user avail n base (total + copied) addrs₁ after x
        → Written sb src user avail n base total addrs d x
    goes_on reads x w =
        let from_there : base + (total + copied) ≡ base + total + copied = omega arith in
        let later =
          subst
            (λ lo.
              Wrote sb (from src base) lo w.upto (slot addrs₁ after) after (slot w.addrs' w.blocks)
                w.blocks)
            from_there w.wrote in
        record {
          count = w.count;
          addrs' = w.addrs';
          blocks = w.blocks;
          returns = w.returns;
          bounds = (omega (arith, w.bounds), w.bounds.1);
          upto = w.upto;
          extent = w.extent;
          wrote =
              Wrote-trans sb (from src base) (base + total) (base + total + copied) w.upto
                (slot addrs d) d (slot addrs₁ after) after (slot w.addrs' w.blocks) w.blocks
                (omega arith) (omega (arith, w.extent, w.bounds)) (omega (arith, w.extent)) round
                later;
          readable = λ u. inr (elim (w.readable u) [
            | inl e ↦ subst (λ i. i ≤ avail) (sym e) (reads u)
            | inr le ↦ le
          ]);
          why = w.why;
        }

    -- A round whose copy fails
    breaks :
        (user ≡ true)
        → avail < n
        → Written sb src user avail n base total addrs d (some (total, addrs₁, after))
    breaks u short = record {
      count = total;
      addrs' = addrs₁;
      blocks = after;
      returns = refl;
      bounds = (omega arith, omega arith);
      upto = base + total + copied;
      extent = (omega arith, omega arith);
      wrote = round;
      readable = λ _. inl refl;
      why = inr (inr (u, short));
    }

  pub write_from_lem :
      (k total : ℕ) (addrs : ℕ → ℕ) (d : Bits)
      → total ≤ n
      → n ≤ total + k
      → ((user ≡ true) ⊎ ((base + total) % bsize + (n - total) ≤ bsize))
      → Sound sb d
      → Owned sb (slot addrs d) d
      → Written sb src user avail n base total addrs d
          (write_from sb src user avail n k total (base + total) addrs d)
  unfolding write_from
  write_from_lem zero total addrs d le enough fits so ow =
      stops total addrs d addrs d le (Grew-self sb (slot addrs d) d so ow) (inl (omega arith))
  write_from_lem (suc k) total addrs d le enough fits so ow = elim (dec_lt total n) [
    | no done ↦
        let is : write_from sb src user avail n (suc k) total (base + total) addrs d
            ≡ some (total, addrs, d) =
          ground (arith, done) in
        subst (λ x. Written sb src user avail n base total addrs d x) (sym is)
          (stops total addrs d addrs d le (Grew-self sb (slot addrs d) d so ow) (inl (omega arith)))
    | yes more ↦
        let x = map sb ((base + total) / bsize) addrs d in
        let m = map_lem sb ((base + total) / bsize) addrs d so ow in
        go more (λ m₁ addrs₂ d₂ le' pos. write_from_lem k (total + m₁) addrs₂ d₂ le' (omega arith))
          x.1 x.2 x.0 refl m.grew m.ends
  ]
    where
      go :
          total < n
          → ((m : ℕ) (addrs₂ : ℕ → ℕ) (d₂ : Bits)
              → total + m ≤ n
              → 0 < m
              → ((user ≡ true) ⊎ ((base + (total + m)) % bsize + (n - (total + m)) ≤ bsize))
              → Sound sb d₂
              → Owned sb (slot addrs₂ d₂) d₂
              → Written sb src user avail n base
                  (total + m)
                  addrs₂
                  d₂
                  (write_from sb src user avail n k (total + m) (base + (total + m)) addrs₂ d₂))
          → (addrs₁ : ℕ → ℕ) (d₁ : Bits) (r : Result ℕ FsError)
          → map sb ((base + total) / bsize) addrs d ≡ (r, addrs₁, d₁)
          → Grew sb (slot addrs d) d (slot addrs₁ d₁) d₁
          → MapEnds sb ((base + total) / bsize) (slot addrs₁ d₁) d₁ r
          → Written sb src user avail n base total addrs d
              (write_from sb src user avail n (suc k) total (base + total) addrs d)
      go more again addrs₁ d₁ _ e g (too_far far) = absurd (omega arith)
      go more again addrs₁ d₁ _ e g (disk_full _ _ full) =
          let is : write_from sb src user avail n (suc k) total (base + total) addrs d
              ≡ some (total, addrs₁, d₁) =
            ground (arith, more, e) in
          subst (λ x. Written sb src user avail n base total addrs d x) (sym is)
            (stops total addrs d addrs₁ d₁ le g (inr (inl full)))
      go more again addrs₁ d₁ _ e g (mapped _ there) =
          let o = (base + total) % bsize in
          let m = min (n - total) (bsize - o) in
          let copied : ℕ = if user then min m (avail - total) else m in
          let small : copied ≤ m = ground arith in
          let d₂ = after total addrs d more addrs₁ d₁ g there copied (omega arith) (omega arith) in
          elim (Bool-cases (user && ltb avail (total + m))) [
            | inl fails ↦
                let u : user ≡ true = ground (arith, fails) in
                let short : avail < total + m = ground (arith, fails) in
                let is : write_from sb src user avail n (suc k) total (base + total) addrs d
                    ≡ some (total, addrs₁, d₂) =
                  ground (arith, more, e, u, short) in
                subst (λ x. Written sb src user avail n base total addrs d x) (sym is)
                  (breaks total addrs d more addrs₁ d₁ g there copied (omega arith) (omega arith) u
                    (omega arith))
            | inr works ↦
                let whole : copied ≡ m = elim (Bool-cases user) [
                  | inl u ↦ ground (arith, works, u)
                  | inr ker ↦ ground (arith, ker)
                ] in
                let no_overrun : (not user && ltb bsize (o + (n - total))) ≡ false =
                  ground (arith, fits) in
                let w =
                  round total addrs d more addrs₁ d₁ g there copied (omega arith) (omega arith) in
                let next =
                  write_from sb src user avail n k (total + copied) (base + (total + copied)) addrs₁
                    d₂ in
                let is : write_from sb src user avail n (suc k) total (base + total) addrs d
                    ≡ next =
                  let first : write_from sb src user avail n (suc k) total (base + total) addrs d
                      ≡ write_from sb src user avail n k (total + m) (base + total + m) addrs₁ d₂ =
                    ground (arith, more, e, works, no_overrun) in
                  let t : total + m ≡ total + copied = omega (arith, whole) in
                  let off : base + total + m ≡ base + (total + copied) = omega (arith, whole) in
                  first ∙ ap₂ (λ x y. write_from sb src user avail n k x y addrs₁ d₂) t off in
                subst (λ x. Written sb src user avail n base total addrs d x) (sym is)
                  (goes_on total addrs d more addrs₁ d₁ g there copied (omega arith) (omega arith)
                    (λ u. ground (arith, works, u, whole)) next
                    (again copied addrs₁ d₂ (omega arith) (omega arith)
                      (elim fits [ inl u ↦ inl u | inr room ↦ inr (omega arith) ]) w.evolves.sound
                      w.evolves.owned))
          ]
