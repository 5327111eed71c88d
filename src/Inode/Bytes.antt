-- ===== src/Inode/Bytes.antt =====
-- Bytes and addresses written to a block, and read back.
use octopos.Base.{
  ℕ, ◌+◌, ◌-◌, ◌*◌, ◌/◌, ◌%◌, ◌^◌, ◌≤◌, ◌<◌, ◌≡◌, ◌≢◌, ap, ap₂, ◌∙◌, ◌⊎◌, false, ◌&&◌, arith, ltb,
  leb, ◌==◌, if◌then◌else◌,
}
use octopos.Inode.{Block, bit_value, byte, put_bytes, get_u32, put_u32, byte_of}

-- Bit `k` of byte `j` after a write
bit_of_byte :
    (o n : ℕ) (f : ℕ → ℕ) (c : Block) (j k : ℕ)
    → k < 8
    → put_bytes o n f c (8 * j + k)
      ≡ (if leb o j && ltb j (o + n) then f (j - o) / 2 ^ k % 2 == 1 else c (8 * j + k))
unfolding put_bytes
bit_of_byte o n f c j k lt =
    let row : (8 * j + k) / 8 ≡ j = omega arith in
    let place : (8 * j + k) % 8 ≡ k = omega arith in
    ap₂ (λ x y. if leb o x && ltb x (o + n) then f (x - o) / 2 ^ y % 2 == 1 else c (8 * j + k)) row
      place

bit_value-test : (v : ℕ) → bit_value (v % 2 == 1) ≡ v % 2
bit_value-test v = ground arith

-- A byte read back, in the stretch that was written and out of it
pub byte-put_bytes :
    (o n : ℕ) (f : ℕ → ℕ) (c : Block) (j : ℕ)
    → o ≤ j
    → j < o + n
    → f (j - o) < 256
    → byte (put_bytes o n f c) j ≡ f (j - o)
unfolding byte
byte-put_bytes o n f c j lo hi small =
    let v = f (j - o) in
    let at : (k : ℕ) → k < 8 → bit_value (put_bytes o n f c (8 * j + k)) ≡ v / 2 ^ k % 2 = λ k lt.
      ap bit_value (bit_of_byte o n f c j k lt ∙ ground (arith, lo, hi))
      ∙ bit_value-test (v / 2 ^ k) in
    omega (
      arith,
      small,
      at 0 (omega arith),
      at 1 (omega arith),
      at 2 (omega arith),
      at 3 (omega arith),
      at 4 (omega arith),
      at 5 (omega arith),
      at 6 (omega arith),
      at 7 (omega arith),
    )

pub byte-put_bytes_out :
    (o n : ℕ) (f : ℕ → ℕ) (c : Block) (j : ℕ)
    → (j < o) ⊎ (o + n ≤ j)
    → byte (put_bytes o n f c) j ≡ byte c j
unfolding byte
byte-put_bytes_out o n f c j out =
    let at : (k : ℕ) → k < 8 → put_bytes o n f c (8 * j + k) ≡ c (8 * j + k) =
      λ k lt. bit_of_byte o n f c j k lt ∙ ground (arith, out) in
    omega (
      arith,
      ap bit_value (at 0 (omega arith)),
      ap bit_value (at 1 (omega arith)),
      ap bit_value (at 2 (omega arith)),
      ap bit_value (at 3 (omega arith)),
      ap bit_value (at 4 (omega arith)),
      ap bit_value (at 5 (omega arith)),
      ap bit_value (at 6 (omega arith)),
      ap bit_value (at 7 (omega arith)),
    )

-- An address read back, and the other addresses of the block
pub get_u32-put_u32 : (i v : ℕ) (c : Block) → v < 2 ^ 32 → get_u32 (put_u32 i v c) i ≡ v
unfolding get_u32 put_u32
get_u32-put_u32 i v c small =
    let at : (k : ℕ) → k < 4 → byte (put_bytes (4 * i) 4 (byte_of v) c) (4 * i + k) ≡ byte_of v k =
      λ k lt.
        let off : 4 * i + k - 4 * i ≡ k = omega arith in
        byte-put_bytes (4 * i) 4 (byte_of v) c (4 * i + k) (omega arith) (omega arith) (omega arith)
        ∙ ap (byte_of v) off in
    omega
      (arith, small, at 0 (omega arith), at 1 (omega arith), at 2 (omega arith), at 3 (omega arith))

pub get_u32-put_u32_other :
    (i j v : ℕ) (c : Block) → i ≢ j → get_u32 (put_u32 i v c) j ≡ get_u32 c j
unfolding get_u32 put_u32
get_u32-put_u32_other i j v c ne =
    let at : (k : ℕ)
        → k < 4
        → byte (put_bytes (4 * i) 4 (byte_of v) c) (4 * j + k) ≡ byte c (4 * j + k) =
      λ k lt. byte-put_bytes_out (4 * i) 4 (byte_of v) c (4 * j + k) (ground (arith, ne)) in
    omega (arith, at 0 (omega arith), at 1 (omega arith), at 2 (omega arith), at 3 (omega arith))

-- A block of zeros holds no address and no byte but zero.
pub byte-zeros : (c : Block) (j : ℕ) → ((i : ℕ) → c i ≡ false) → byte c j ≡ 0
unfolding byte
byte-zeros c j z = omega (
  arith,
  ap bit_value (z (8 * j + 0)),
  ap bit_value (z (8 * j + 1)),
  ap bit_value (z (8 * j + 2)),
  ap bit_value (z (8 * j + 3)),
  ap bit_value (z (8 * j + 4)),
  ap bit_value (z (8 * j + 5)),
  ap bit_value (z (8 * j + 6)),
  ap bit_value (z (8 * j + 7)),
)

pub get_u32-zeros : (c : Block) (j : ℕ) → ((i : ℕ) → c i ≡ false) → get_u32 c j ≡ 0
unfolding get_u32
get_u32-zeros c j z = omega (
  arith,
  byte-zeros c (4 * j + 0) z,
  byte-zeros c (4 * j + 1) z,
  byte-zeros c (4 * j + 2) z,
  byte-zeros c (4 * j + 3) z,
)
