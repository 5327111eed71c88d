-- ===== src/Line/Shift.antt =====
-- The copying loops of the line editor, byte by byte.
use octopos.Base.{
  ℕ, zero, suc, ◌+◌, ◌-◌, ◌≤◌, ◌<◌, ◌≡◌, ◌≢◌, refl, ap, ◌∙◌, none, some, List, arith, length,
  get_or, set, length-set, get_or-set_self, get_or-set_ne, ℕ_discrete,
}
use octopos.Line.{line_max, copy_byte, shift_right, shift_left}

copy_byte_lem :
    (d s : ℕ) (buf : List ℕ)
    → d < line_max
    → s < line_max
    → copy_byte d s buf ≡ some (set buf d (get_or buf s 0))
unfolding copy_byte
copy_byte_lem d s buf hd hs = ground arith

-- The bytes from `s` on move up by one; `k` of them.
pub record MovedUp (s k : ℕ) (buf buf' : List ℕ) : Type 0 where
  pub size : length buf' ≡ line_max
  pub moved : (j : ℕ) → s < j → j ≤ s + k → get_or buf' j 0 ≡ get_or buf (j - 1) 0
  pub below : (j : ℕ) → j ≤ s → get_or buf' j 0 ≡ get_or buf j 0
  pub above : (j : ℕ) → s + k < j → get_or buf' j 0 ≡ get_or buf j 0

pub shift_right_lem :
    (s k : ℕ) (buf : List ℕ)
    → length buf ≡ line_max
    → s + k < line_max
    → (buf' : List ℕ) × (shift_right s k buf ≡ some buf') × MovedUp s k buf buf'
unfolding shift_right
shift_right_lem s zero buf len fits = (
  buf,
  refl,
  record {
    size = len;
    moved = λ j lo hi. absurd (omega arith);
    below = λ j h. refl;
    above = λ j h. refl;
  },
)
shift_right_lem s (suc k) buf len fits =
    let mid = set buf (s + k + 1) (get_or buf (s + k) 0) in
    let (buf', e, m) =
      shift_right_lem s k mid (length-set buf (s + k + 1) (get_or buf (s + k) 0) ∙ len)
        (omega arith) in
    let step = copy_byte_lem (s + k + 1) (s + k) buf (omega arith) (omega arith) in
    let same : (j : ℕ) → s + k + 1 ≢ j → get_or mid j 0 ≡ get_or buf j 0 =
      λ j ne. get_or-set_ne buf (s + k + 1) j (get_or buf (s + k) 0) 0 ne in
    (
      buf',
      ground (arith, step, e),
      record {
        size = m.size;
        moved = λ j lo hi. elim (ℕ_discrete j (s + k + 1)) [
          | yes top ↦ rw top (
              m.above (s + k + 1) (omega arith)
              ∙ (get_or-set_self buf (s + k + 1) (get_or buf (s + k) 0) 0 (omega arith)
                  ∙ ap (λ i. get_or buf i 0) (omega arith)))
          | no other ↦ m.moved j lo (omega arith) ∙ same (j - 1) (omega arith)
        ];
        below = λ j h. m.below j h ∙ same j (omega arith);
        above = λ j h. m.above j (omega arith) ∙ same j (omega arith);
      },
    )

-- `k` bytes from `s` on move down by `d`.
pub record MovedDown (d s k : ℕ) (buf buf' : List ℕ) : Type 0 where
  pub size : length buf' ≡ line_max
  pub moved : (j : ℕ) → s ≤ j + d → j + d < s + k → get_or buf' j 0 ≡ get_or buf (j + d) 0
  pub below : (j : ℕ) → j + d < s → get_or buf' j 0 ≡ get_or buf j 0

pub shift_left_lem :
    (d s k : ℕ) (buf : List ℕ)
    → length buf ≡ line_max
    → d ≤ s
    → s + k ≤ line_max
    → (buf' : List ℕ) × (shift_left d s k buf ≡ some buf') × MovedDown d s k buf buf'
unfolding shift_left
shift_left_lem d s zero buf len le fits =
    (buf, refl, record { size = len; moved = λ j lo hi. absurd (omega arith); below = λ j h. refl })
shift_left_lem d s (suc k) buf len le fits =
    let mid = set buf (s - d) (get_or buf s 0) in
    let (buf', e, m) =
      shift_left_lem d (s + 1) k mid (length-set buf (s - d) (get_or buf s 0) ∙ len) (omega arith)
        (omega arith) in
    let step = copy_byte_lem (s - d) s buf (omega arith) (omega arith) in
    let same : (j : ℕ) → s - d ≢ j → get_or mid j 0 ≡ get_or buf j 0 =
      λ j ne. get_or-set_ne buf (s - d) j (get_or buf s 0) 0 ne in
    (
      buf',
      ground (arith, step, e),
      record {
        size = m.size;
        moved = λ j lo hi. elim (ℕ_discrete j (s - d)) [
          | yes first ↦
              m.below j (omega arith)
              ∙ (ap (λ i. get_or mid i 0) first
                  ∙ (get_or-set_self buf (s - d) (get_or buf s 0) 0 (omega arith)
                      ∙ ap (λ i. get_or buf i 0) (omega arith)))
          | no other ↦ m.moved j (omega arith) (omega arith) ∙ same (j + d) (omega arith)
        ];
        below = λ j h. m.below j (omega arith) ∙ same j (omega arith);
      },
    )

-- A byte that would go past the end of the buffer.
pub shift_right_full :
    (s n : ℕ) (buf : List ℕ) → 0 < n → line_max ≤ s + n → shift_right s n buf ≡ none
unfolding shift_right copy_byte
shift_right_full s zero buf pos full = absurd (omega arith)
shift_right_full s (suc k) buf pos full = ground arith
