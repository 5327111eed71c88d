-- ===== src/Line/Edit.antt =====
-- The editing operations of the line editor: where each byte of the line goes.
use octopos.Base.{
  ℕ, zero, suc, ◌+◌, ◌-◌, ◌≤◌, ◌<◌, ◌≡◌, refl, ap, sym, subst, ◌∙◌, ◌⊎◌, inl, inr, Bool, true,
  false, not, none, some, List, arith, length, get_or, set, length-set, get_or-set_self,
  get_or-set_ne, ◌==◌, if◌then◌else◌, dec_lt, Bool-cases, ℕ_discrete,
}
use octopos.Line.{
  LineEditor, line_max, space, insert, remove_left, backspace, kill_line, kill_word, skip,
}
use octopos.Line.Shift.{shift_right_lem, shift_right_full, shift_left_lem}

pub record IsValid (e : LineEditor) : Type 0 where
  pub size : length e.buf ≡ line_max
  pub within : e.cursor ≤ e.len
  pub fits : e.len ≤ line_max

-- The byte `c` put before the cursor.
pub record Inserted (c : ℕ) (e e' : LineEditor) : Type 0 where
  pub valid : IsValid e'
  pub longer : (e'.len ≡ e.len + 1) × (e'.cursor ≡ e.cursor + 1)
  pub before : (j : ℕ) → j < e.cursor → get_or e'.buf j 0 ≡ get_or e.buf j 0
  pub here : get_or e'.buf e.cursor 0 ≡ c
  pub after : (j : ℕ) → e.cursor ≤ j → j < e.len → get_or e'.buf (j + 1) 0 ≡ get_or e.buf j 0

-- On a valid line, `insert` of a byte puts it before the cursor if there is room, and every other byte
-- of the line keeps its place or moves up by one. With 256 bytes in the line it does nothing when the
-- cursor is at the end, and panics anywhere else.
pub insert_lem :
    (c : ℕ) (e : LineEditor)
    → IsValid e
    → ((e.len < line_max) × (e' : LineEditor) × (insert c e ≡ some e') × Inserted c e e')
      ⊎ ((e.len ≡ line_max) × (e.cursor ≡ line_max) × (insert c e ≡ some e))
      ⊎ ((e.len ≡ line_max) × (e.cursor < line_max) × (insert c e ≡ none))
unfolding insert
insert_lem c e v = elim (dec_lt e.cursor line_max) [
  | no full ↦
      let bound : e.len ≤ line_max = v.fits in
      inr (inl (omega (arith, v.within), omega (arith, v.within), ground arith))
  | yes inside ↦ elim (dec_lt e.len line_max) [
    | no full ↦ inr (
        inr (
          omega (arith, v.fits),
          inside,
          ground (
            arith,
            shift_right_full e.cursor (e.len - e.cursor) e.buf (omega (arith, v.fits))
                (omega (arith, v.fits)),
          ),
        ))
    | yes room ↦
        let (buf, eq, m) =
          shift_right_lem e.cursor (e.len - e.cursor) e.buf v.size (omega (arith, v.within)) in
        inl (
          room,
          record e { buf = set buf e.cursor c; cursor = e.cursor + 1; len = e.len + 1 },
          ground (arith, eq),
          record {
            valid = record {
              size = length-set buf e.cursor c ∙ m.size;
              within = omega (arith, v.within);
              fits = omega arith;
            };
            longer = (refl, refl);
            before =
                λ j h. get_or-set_ne buf e.cursor j c 0 (omega arith) ∙ m.below j (omega arith);
            here = get_or-set_self buf e.cursor c 0 (omega (arith, m.size));
            after = λ j lo hi.
                get_or-set_ne buf e.cursor (j + 1) c 0 (omega arith)
                ∙ (m.moved (j + 1) (omega arith) (omega arith)
                    ∙ ap (λ i. get_or e.buf i 0) (omega arith));
          },
        )
  ]
]

-- The `d` bytes before the cursor taken out.
pub record Removed (d : ℕ) (e e' : LineEditor) : Type 0 where
  pub valid : IsValid e'
  pub shorter : (e'.len + d ≡ e.len) × (e'.cursor + d ≡ e.cursor)
  pub before : (j : ℕ) → j < e'.cursor → get_or e'.buf j 0 ≡ get_or e.buf j 0
  pub after : (j : ℕ) → e'.cursor ≤ j → j < e'.len → get_or e'.buf j 0 ≡ get_or e.buf (j + d) 0

pub remove_left_lem :
    (d : ℕ) (e : LineEditor)
    → IsValid e
    → d ≤ e.cursor
    → (e' : LineEditor) × (remove_left d e ≡ some e') × Removed d e e'
unfolding remove_left
remove_left_lem d e v le =
    let (buf, eq, m) =
      shift_left_lem d e.cursor (e.len - e.cursor) e.buf v.size le
        (omega (arith, v.within, v.fits)) in
    (
      record e { buf = buf; cursor = e.cursor - d; len = e.len - d },
      ground (arith, eq),
      record {
        valid = record {
          size = m.size;
          within = omega (arith, v.within);
          fits = omega (arith, v.fits);
        };
        shorter = (omega (arith, v.within), omega arith);
        before = λ j h. m.below j (omega arith);
        after = λ j lo hi. m.moved j (omega arith) (omega (arith, v.within));
      },
    )

-- `skip` stops after the nearest byte, on the left, of the other kind, or at the start.
pub record Skipped (spaces : Bool) (buf : List ℕ) (i i' : ℕ) : Type 0 where
  pub left : i' ≤ i
  pub alike : (j : ℕ) → i' ≤ j → j < i → (get_or buf j 0 == space) ≡ spaces
  pub ends : (i' ≡ 0) ⊎ ((get_or buf (i' - 1) 0 == space) ≡ not spaces)

skip_lem : (spaces : Bool) (buf : List ℕ) (i : ℕ) → Skipped spaces buf i (skip spaces buf i)
unfolding skip
skip_lem spaces buf zero = record {
  left = omega arith;
  alike = λ j lo hi. absurd (omega arith);
  ends = inl refl;
}
skip_lem spaces buf (suc i) = elim (Bool-cases (if spaces then is else not is)) [
  | inl same ↦
      let kind : is ≡ spaces = ground (arith, same) in
      let go = skip_lem spaces buf i in
      subst (λ r. Skipped spaces buf (suc i) r) (sym (ground (arith, same)))
        (record {
          left = omega (arith, go.left);
          alike = λ j lo hi. elim (ℕ_discrete j i) [
            | yes top ↦ ap (λ m. get_or buf m 0 == space) top ∙ kind
            | no other ↦ go.alike j lo (omega arith)
          ];
          ends = go.ends;
        })
  | inr differs ↦
      let stop : Skipped spaces buf (suc i) (suc i) = record {
        left = omega arith;
        alike = λ j lo hi. absurd (omega arith);
        ends = inr (ground (arith, differs));
      } in
      subst (λ r. Skipped spaces buf (suc i) r) (sym (ground (arith, differs))) stop
]
  where
    is : Bool
    is = get_or buf i 0 == space

-- On a valid line, `backspace` takes out the byte before the cursor, if there is one, and never panics.
pub backspace_lem :
    (e : LineEditor)
    → IsValid e
    → ((e.cursor ≡ 0) × (backspace e ≡ some e))
      ⊎ ((e' : LineEditor) × (backspace e ≡ some e') × Removed 1 e e')
unfolding backspace
backspace_lem e v = elim (ℕ_discrete e.cursor 0) [
  | yes start ↦ inl (start, ground (arith, start))
  | no inside ↦
      let (e', eq, r) = remove_left_lem 1 e v (omega arith) in inr (e', ground (arith, eq), r)
]

-- On a valid line, `kill_line` takes out all bytes before the cursor and never panics.
pub kill_line_lem :
    (e : LineEditor)
    → IsValid e
    → (e' : LineEditor) × (kill_line e ≡ some e') × Removed e.cursor e e' × (e'.cursor ≡ 0)
unfolding kill_line
kill_line_lem e v =
    let (e', eq, r) = remove_left_lem e.cursor e v (omega arith) in
    (e', eq, r, omega (arith, r.shorter))

-- On a valid line, `kill_word` never panics: it takes out the spaces before the cursor and, before
-- them, the bytes that are not spaces, back to a space or to the start of the line.
pub kill_word_lem :
    (e : LineEditor)
    → IsValid e
    → (m i : ℕ) × Skipped true e.buf e.cursor m
      × Skipped false e.buf m i
      × (e' : LineEditor) × (kill_word e ≡ some e')
      × Removed (e.cursor - i) e e'
      × (e'.cursor ≡ i)
unfolding kill_word
kill_word_lem e v =
    let m = skip true e.buf e.cursor in
    let i = skip false e.buf m in
    let sm = skip_lem true e.buf e.cursor in
    let si = skip_lem false e.buf m in
    let (e', eq, r) = remove_left_lem (e.cursor - i) e v (omega arith) in
    (m, i, sm, si, e', eq, r, omega (arith, r.shorter, sm.left, si.left))
