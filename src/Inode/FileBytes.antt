-- ===== src/Inode/FileBytes.antt =====
-- The bytes of a file as a list.
use octopos.Base.{
  ℕ, zero, suc, ◌+◌, ◌≤◌, ◌<◌, ◌≡◌, refl, sym, ap, ap₂, ◌∙◌, List, [], ◌∷◌, ◌++◌, arith,
}
use octopos.Blocks.{Bits}
use octopos.Inode.{Block, byte, bytes_of}
use octopos.Inode.Slots.{byte_at}

-- The `k` bytes of the file from an offset on
abbrev pub file_bytes : (ℕ → ℕ) → Bits → ℕ → ℕ → List ℕ
file_bytes s d off zero = []
file_bytes s d off (suc k) = byte_at s d off ∷ file_bytes s d (off + 1) k

pub file_bytes-append :
    (s : ℕ → ℕ) (d : Bits) (off j k : ℕ)
    → file_bytes s d off (j + k) ≡ file_bytes s d off j ++ file_bytes s d (off + j) k
file_bytes-append s d off zero k =
    let e : zero + k ≡ k = omega arith in
    let f : off + zero ≡ off = omega arith in
    ap (file_bytes s d off) e ∙ ap (λ o. file_bytes s d o k) (sym f)
file_bytes-append s d off (suc j) k =
    let e : suc j + k ≡ suc (j + k) = omega arith in
    let f : off + 1 + j ≡ off + suc j = omega arith in
    ap (file_bytes s d off) e
    ∙ ap (λ t. byte_at s d off ∷ t)
        (file_bytes-append s d (off + 1) j k
          ∙ ap (λ o. file_bytes s d (off + 1) j ++ file_bytes s d o k) f)

pub file_bytes-ext :
    (s s' : ℕ → ℕ) (d d' : Bits) (off k : ℕ)
    → ((i : ℕ) → off ≤ i → i < off + k → byte_at s' d' i ≡ byte_at s d i)
    → file_bytes s' d' off k ≡ file_bytes s d off k
file_bytes-ext s s' d d' off zero h = refl
file_bytes-ext s s' d d' off (suc k) h =
    ap₂ (λ x t. x ∷ t) (h off (omega arith) (omega arith))
      (file_bytes-ext s s' d d' (off + 1) k (λ i lo hi. h i (omega arith) (omega arith)))

pub bytes_of-file_bytes :
    (s : ℕ → ℕ) (d : Bits) (c : Block) (o off m : ℕ)
    → ((i : ℕ) → i < m → byte c (o + i) ≡ byte_at s d (off + i))
    → bytes_of c o m ≡ file_bytes s d off m
bytes_of-file_bytes s d c o off zero h = refl
bytes_of-file_bytes s d c o off (suc m) h =
    let e : o + 0 ≡ o = omega arith in
    let f : off + 0 ≡ off = omega arith in
    ap₂ (λ x t. x ∷ t) (ap (byte c) (sym e) ∙ h 0 (omega arith) ∙ ap (byte_at s d) f)
      (bytes_of-file_bytes s d c (o + 1) (off + 1) m (λ i li.
        let e' : o + 1 + i ≡ o + suc i = omega arith in
        let f' : off + 1 + i ≡ off + suc i = omega arith in
        ap (byte c) e' ∙ h (suc i) (omega arith) ∙ ap (byte_at s d) (sym f')))
