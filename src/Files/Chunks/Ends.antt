-- ===== src/Files/Chunks/Ends.antt =====
-- How `File::write` on an inode ends, and that it does not end at an address that cannot be read.
use octopos.Base.{
  ℕ, zero, suc, ◌+◌, ◌-◌, ◌*◌, ◌/◌, ◌^◌, ◌≤◌, ◌<◌, ◌≡◌, min, refl, sym, ap, ap₂, subst, ◌∙◌, ◌⊎◌,
  inl, inr, true, ◌&&◌, some, List, [], ◌∷◌, arith, ltb, leb, if◌then◌else◌, dec_lt, ok, err,
  get_or, length, take, drop, length-take, length-drop,
}
use octopos.Fs.{write}
use octopos.Blocks.{SuperBlock, Bits}
use octopos.Inode.{bsize, maxfile}
use octopos.Inode.Fill.{Full}
use octopos.Inode.Disk.{InodeInner, write_inode}
use octopos.Inode.Disk.Home.{IsFile, file_byte}
use octopos.Inode.Disk.Write.{WroteFile, write_inode_lem}
use octopos.Files.Chunks.{Chunks, more, wrote, io_error, max_chunk, write_chunks}

get_or-take : (m j : ℕ) (xs : List ℕ) → j < m → get_or (take m xs) j 0 ≡ get_or xs j 0
get_or-take zero j xs lt = absurd (omega arith)
get_or-take (suc m) j [] lt = refl
get_or-take (suc m) zero (x ∷ xs) lt = refl
get_or-take (suc m) (suc j) (x ∷ xs) lt = get_or-take m j xs (omega arith)

get_or-drop : (i j : ℕ) (xs : List ℕ) → get_or (drop i xs) j 0 ≡ get_or xs (i + j) 0
get_or-drop zero j xs = let e : zero + j ≡ j = omega arith in ap (λ n. get_or xs n 0) (sym e)
get_or-drop (suc i) j [] = refl
get_or-drop (suc i) j (x ∷ xs) =
    let e : suc i + j ≡ suc (i + j) = omega arith in
    get_or-drop i j xs ∙ ap (λ n. get_or (x ∷ xs) n 0) (sym e)

take-Small :
    (m j : ℕ) (xs : List ℕ) → ((n : ℕ) → get_or xs n 0 < 256) → get_or (take m xs) j 0 < 256
take-Small zero j xs h = omega arith
take-Small (suc m) j [] h = omega arith
take-Small (suc m) zero (x ∷ xs) h = h 0
take-Small (suc m) (suc j) (x ∷ xs) h = take-Small m j xs (λ n. h (suc n))

-- The bytes of the next transaction
abbrev chunk : List ℕ → ℕ → List ℕ
chunk src i = take (min (length src - i) max_chunk) (drop i src)

length-chunk : (src : List ℕ) (i : ℕ) → length (chunk src i) ≡ min (length src - i) max_chunk
length-chunk src i =
    omega (arith, length-take (min (length src - i) max_chunk) (drop i src), length-drop i src)

-- From byte `i` on, rounds of the loop lead to byte `i'`.
pub data Rounds (sb : SuperBlock) (inum : ℕ) (src : List ℕ) (avail i' offset' : ℕ)
    (inner' : InodeInner) (d' : Bits) : ℕ → ℕ → InodeInner → Bits → Type 0 where
  here : Rounds sb inum src avail i' offset' inner' d' i' offset' inner' d'
  round :
      (i offset : ℕ) (inner : InodeInner) (d : Bits) (w : ℕ) (inner₁ : InodeInner) (d₁ : Bits)
      → i < length src
      → write_inode sb inum
          (take (min (length src - i) max_chunk) (drop i src))
          true
          (avail - i)
          offset
          inner
          d
        ≡ some (ok w, inner₁, d₁)
      → Rounds sb inum src avail i' offset' inner' d' (i + w) (offset + w) inner₁ d₁
      → Rounds sb inum src avail i' offset' inner' d' i offset inner d

-- How the loop ends that writes the bytes from the `i`th on at an offset.
pub data ChunkEnds (sb : SuperBlock) (inum : ℕ) (src : List ℕ) (avail i offset : ℕ)
    (inner : InodeInner) (d : Bits) : Chunks → Type 0 where
  all_written :
      (inner' : InodeInner) (d' : Bits)
      → IsFile sb inum inner' d'
      → inner'.size ≡ (
          if ltb inner.size (offset + (length src - i))
          then offset + (length src - i)
          else inner.size)
      → ((off : ℕ)
          → off / bsize < 268
          → file_byte inner' d' off ≡ (
              if leb offset off && ltb off (offset + (length src - i))
              then get_or src (i + (off - offset)) 0
              else file_byte inner d off))
      → ChunkEnds sb inum src avail i offset inner d (wrote (offset + (length src - i)) inner' d')
  too_long :
      (offset' : ℕ) (inner' : InodeInner) (d' : Bits)
      → maxfile * bsize < offset + (length src - i)
      → IsFile sb inum inner' d'
      → ChunkEnds sb inum src avail i offset inner d (io_error offset' inner' d')
  disk_full :
      (i' offset' : ℕ) (inner' : InodeInner) (d' : Bits) (c : Chunks)
      → Rounds sb inum src avail i' offset' inner' d' i offset inner d
      → Full sb d'
      → ChunkEnds sb inum src avail i offset inner d c

module _ (sb : SuperBlock) (inum : ℕ) (src : List ℕ) (avail : ℕ) (small : length src < 2 ^ 32)
    (bytes : (i : ℕ) → get_or src i 0 < 256) where
  next :
      (i offset : ℕ) (inner : InodeInner) (d : Bits)
      → IsFile sb inum inner d
      → (((inner.size < offset) ⊎ (maxfile * bsize < offset + length (chunk src i)))
          × (write_inode sb inum (chunk src i) true (avail - i) offset inner d
              ≡ some (err write, inner, d)))
        ⊎ ((offset ≤ inner.size)
            × (offset + length (chunk src i) ≤ maxfile * bsize)
            × WroteFile sb inum
                (chunk src i)
                true
                (avail - i)
                offset
                inner
                d
                (write_inode sb inum (chunk src i) true (avail - i) offset inner d))
  next i offset inner d f =
      write_inode_lem sb inum (chunk src i) true (avail - i) offset inner d f
        (omega (arith, length-chunk src i))
        (λ j.
          take-Small (min (length src - i) max_chunk) j (drop i src)
            (λ n. subst (λ v. v < 256) (sym (get_or-drop i n src)) (bytes (i + n))))
        (inl refl)

  -- For a file in order, with an offset within it, and a source of which no byte from the `i`th on can be
  -- read, where the next transaction stays below the largest file: however many rounds the loop of
  -- `File::write` is given, it has not ended.
  pub write_chunks-stuck :
      (k i offset : ℕ) (inner : InodeInner) (d : Bits)
      → avail ≤ i
      → i < length src
      → IsFile sb inum inner d
      → offset ≤ inner.size
      → offset + min (length src - i) max_chunk ≤ maxfile * bsize
      → write_chunks sb inum src avail k i offset inner d ≡ more
  unfolding write_chunks
  write_chunks-stuck zero i offset inner d bad lt f within top = ground (arith, lt)
  write_chunks-stuck (suc k) i offset inner d bad lt f within top = elim (next i offset inner d f) [
    | inl (refused, _) ↦ absurd (ground (arith, refused, length-chunk src i))
    | inr (_, _, w) ↦
        let nothing : w.count ≡ 0 = omega (arith, w.readable refl) in
        let is : write_chunks sb inum src avail (suc k) i offset inner d
            ≡ write_chunks sb inum src avail k (i + w.count) (offset + w.count) w.inner' w.blocks =
          ground (arith, lt, w.returns) in
        let i_is : i + w.count ≡ i = omega (arith, nothing) in
        let offset_is : offset + w.count ≡ offset = omega (arith, nothing) in
        is
        ∙ ap₂ (λ x y. write_chunks sb inum src avail k x y w.inner' w.blocks) i_is offset_is
        ∙ write_chunks-stuck k i offset w.inner' w.blocks bad lt w.good
            (ground (arith, w.size, nothing)) top
  ]

  -- A round that writes its whole chunk, and the rounds after it
  joins :
      (i offset : ℕ) (inner : InodeInner) (d : Bits) (lt : i < length src)
      (w : WroteFile sb inum
        (chunk src i)
        true
        (avail - i)
        offset
        inner
        d
        (write_inode sb inum (chunk src i) true (avail - i) offset inner d))
      → w.count ≡ min (length src - i) max_chunk
      → (c : Chunks)
      → ChunkEnds sb inum src avail (i + w.count) (offset + w.count) w.inner' w.blocks c
      → ChunkEnds sb inum src avail i offset inner d c
  joins i offset inner d lt w whole c (disk_full i' offset' inner' d' _ rounds full) =
      disk_full i' offset' inner' d' c
        (round i offset inner d w.count w.inner' w.blocks lt w.returns rounds) full
  joins i offset inner d lt w whole c (too_long offset' inner' d' far good) =
      too_long offset' inner' d' (omega (arith, whole)) good
  joins i offset inner d lt w whole c (all_written inner' d' good size same) =
      let n = length src - i in
      let end : offset + w.count + (length src - (i + w.count)) ≡ offset + n =
        omega (arith, whole) in
      subst (λ o. ChunkEnds sb inum src avail i offset inner d (wrote o inner' d')) (sym end)
        (all_written inner' d' good (ground (arith, size, w.size, end, whole)) (λ off low.
          elim (dec_lt off (offset + w.count)) [
            | yes before ↦
                same off low
                ∙ ground (arith, before)
                ∙ w.bytes off low (inl before)
                ∙ (elim (dec_lt off offset) [
                  | yes out ↦ ground (arith, out)
                  | no within ↦ ground (
                    arith,
                    before,
                    within,
                    whole,
                    get_or-take (min (length src - i) max_chunk) (off - offset) (drop i src)
                        (omega (arith, whole)),
                    get_or-drop i (off - offset) src,
                  )
                ])
            | no behind ↦
                let old : file_byte w.inner' w.blocks off ≡ file_byte inner d off =
                  w.bytes off low (inr (omega (arith, whole, length-chunk src i)))
                  ∙ ground (arith, behind) in
                let at : i + w.count + (off - (offset + w.count)) ≡ i + (off - offset) =
                  omega arith in
                same off low ∙ ground (arith, behind, old, at, end, whole)
          ]))

  -- Nothing is left to write.
  ended :
      (i offset : ℕ) (inner : InodeInner) (d : Bits)
      → IsFile sb inum inner d
      → i ≡ length src
      → offset ≤ inner.size
      → (c : Chunks) → c ≡ wrote offset inner d
      → ChunkEnds sb inum src avail i offset inner d c
  ended i offset inner d f e within c is =
      let end : offset + (length src - i) ≡ offset = omega (arith, e) in
      subst (λ c'. ChunkEnds sb inum src avail i offset inner d c') (sym is)
        (subst (λ o. ChunkEnds sb inum src avail i offset inner d (wrote o inner d)) end
          (all_written inner d f (ground (arith, end, within)) (λ off low. ground (arith, end))))

  -- For a file in order, with an offset within it, and a source that can be read, as many rounds as there
  -- are bytes to write are enough, unless a round leaves the disk full: the loop of `File::write` then
  -- ends, with all bytes written from the offset on, those outside as they were, the offset moved
  -- behind them and the file as much longer as that takes; or it fails because the last byte would be
  -- beyond the largest file. The file is in order.
  pub write_chunks_lem :
      (k i offset : ℕ) (inner : InodeInner) (d : Bits)
      → length src ≤ avail
      → i ≤ length src
      → length src ≤ i + k
      → IsFile sb inum inner d
      → offset ≤ inner.size
      → ChunkEnds sb inum src avail i offset inner d
          (write_chunks sb inum src avail k i offset inner d)
  unfolding write_chunks
  write_chunks_lem zero i offset inner d reads le enough f within =
      ended i offset inner d f (omega (arith, le)) within
        (write_chunks sb inum src avail zero i offset inner d) (ground (arith, le, enough))
  write_chunks_lem (suc k) i offset inner d reads le enough f within =
      elim (dec_lt i (length src)) [
        | no done ↦
            ended i offset inner d f (omega (arith, le)) within
              (write_chunks sb inum src avail (suc k) i offset inner d) (ground (arith, le, done))
        | yes lt ↦ elim (next i offset inner d f) [
          | inl (refused, e) ↦
              let is : write_chunks sb inum src avail (suc k) i offset inner d
                  ≡ io_error offset inner d =
                ground (arith, lt, e) in
              subst (λ c. ChunkEnds sb inum src avail i offset inner d c) (sym is)
                (too_long offset inner d (ground (arith, refused, within, length-chunk src i)) f)
          | inr (_, _, w) ↦
              let rest =
                write_chunks sb inum src avail k (i + w.count) (offset + w.count) w.inner'
                  w.blocks in
              let is : write_chunks sb inum src avail (suc k) i offset inner d ≡ rest =
                ground (arith, lt, w.returns) in
              subst (λ c. ChunkEnds sb inum src avail i offset inner d c) (sym is)
                (elim w.why [
                  | inl all ↦
                      let whole : w.count ≡ min (length src - i) max_chunk =
                        all ∙ length-chunk src i in
                      joins i offset inner d lt w whole rest (
                        write_chunks_lem k (i + w.count) (offset + w.count) w.inner' w.blocks reads
                          (omega (arith, whole)) (omega (arith, whole, lt)) w.good
                          (ground (arith, w.size)))
                  | inr (inl full) ↦
                      disk_full (i + w.count) (offset + w.count) w.inner' w.blocks rest
                        (round i offset inner d w.count w.inner' w.blocks lt w.returns here) full
                  | inr (inr (_, short)) ↦ absurd (omega (arith, short, length-chunk src i))
                ])
        ]
      ]
