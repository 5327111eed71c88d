-- ===== src/Console/Input.antt =====
-- The console's interrupt handler: the order of the three counters, and the bytes that are committed.
use octopos.Base.{
  ℕ, zero, suc, ◌+◌, ◌-◌, ◌%◌, ◌≤◌, ◌<◌, ◌≡◌, ◌≢◌, refl, ap, ap₂, sym, subst, ◌∙◌, ◌⊎◌, inl, inr,
  Bool, true, false, not, ◌&&◌, ◌||◌, none, some, List, [], ◌∷◌, arith, length, get_or, length-set,
  get_or-set_ne, ◌==◌, if◌then◌else◌, Bool-cases,
}
use octopos.Console.{
  Console, Effect, wakes, dumps, kills, input_buf_size, usize_mod, newline, ctrl, store, publish,
  rub_out, has_room, erase_line, typed, handle_interrupt, Command, set_raw, set_fg_pid, other,
  ioctl,
}

-- The bytes between `r` and `w`, which `read` may take, and those between `r` and `e`.
abbrev pub ready : Console → ℕ
ready con = (con.w + usize_mod - con.r) % usize_mod

abbrev pub entered : Console → ℕ
entered con = (con.e + usize_mod - con.r) % usize_mod

abbrev pub byte : Console → ℕ → ℕ
byte con j = get_or con.buf ((con.r + j) % input_buf_size) 0

-- `r <= w <= e <= r + 128`, by the wrapping counters
pub record IsValid (con : Console) : Type 0 where
  pub size : length con.buf ≡ input_buf_size
  pub words : (con.r < usize_mod) × (con.w < usize_mod) × (con.e < usize_mod)
  pub order : ready con ≤ entered con
  pub bounded : entered con ≤ input_buf_size

-- The committed bytes stay, and there may be more.
pub record Keeps (con con' : Console) : Type 0 where
  pub valid : IsValid con'
  pub same : con'.r ≡ con.r
  pub grows : ready con ≤ ready con'
  pub kept : (j : ℕ) → j < ready con → byte con' j ≡ byte con j

Keeps-self : (con : Console) → IsValid con → Keeps con con
Keeps-self con v = record { valid = v; same = refl; grows = omega arith; kept = λ j h. refl }

Keeps-trans : (a b c : Console) → Keeps a b → Keeps b c → Keeps a c
Keeps-trans a b c k l = record {
  valid = l.valid;
  same = l.same ∙ k.same;
  grows = omega (arith, k.grows, l.grows);
  kept = λ j h. l.kept j (omega (arith, k.grows)) ∙ k.kept j h;
}

store-Keeps :
    (c : ℕ) (con : Console)
    → IsValid con
    → has_room con ≡ true
    → Keeps con (store c con) × (entered (store c con) ≡ suc (entered con))
unfolding store
store-Keeps c con v room =
    let free : entered con < input_buf_size = ground (arith, room) in
    (
      record {
        valid = record {
          size = length-set con.buf (con.e % input_buf_size) c ∙ v.size;
          words = omega (arith, v.words);
          order = omega (arith, v.words, v.order);
          bounded = omega (arith, v.words);
        };
        same = refl;
        grows = omega arith;
        kept = λ j h.
            get_or-set_ne con.buf (con.e % input_buf_size) ((con.r + j) % input_buf_size) c 0
              (omega (arith, v.words, v.order));
      },
      omega (arith, v.words),
    )

publish-Keeps : (con : Console) → IsValid con → Keeps con (publish con)
unfolding publish
publish-Keeps con v = record {
  valid = record {
    size = v.size;
    words = (v.words.0, v.words.2, v.words.2);
    order = omega arith;
    bounded = v.bounded;
  };
  same = refl;
  grows = v.order;
  kept = λ j h. refl;
}

rub_out-Keeps : (con : Console) → IsValid con → (con.e == con.w) ≡ false → Keeps con (rub_out con)
unfolding rub_out
rub_out-Keeps con v ne =
    let apart : con.e ≢ con.w = ground (arith, ne) in
    record {
      valid = record {
        size = v.size;
        words = omega (arith, v.words);
        order = omega (arith, v.words, v.order, v.bounded);
        bounded = omega (arith, v.words, v.order, v.bounded);
      };
      same = refl;
      grows = omega arith;
      kept = λ j h. refl;
    }

-- With enough rounds, the erasure stops at the committed bytes or behind a newline.
abbrev pub Erased : Console → Type 0
Erased con =
    (con.e ≡ con.w)
    ⊎ (get_or con.buf ((con.e + usize_mod - 1) % usize_mod % input_buf_size) 0 ≡ newline)

abbrev in_flight : Console → ℕ
in_flight con = (con.e + usize_mod - con.w) % usize_mod

erase_line_lem :
    (k : ℕ) (con : Console)
    → IsValid con
    → in_flight con ≤ k
    → Keeps con (erase_line k con) × Erased (erase_line k con) × ((erase_line k con).w ≡ con.w)
unfolding erase_line rub_out
erase_line_lem zero con v few = (Keeps-self con v, inl (omega (arith, v.words)), refl)
erase_line_lem (suc k) con v few = elim (Bool-cases stops) [
  | inl stop ↦
      subst Good (sym (ground (arith, stop))) (Keeps-self con v, ground (arith, stop), refl)
  | inr more ↦
      let apart : (con.e == con.w) ≡ false = ground (arith, more) in
      let step = rub_out-Keeps con v apart in
      let (keeps, done, w) =
        erase_line_lem k (rub_out con) step.valid (ground (arith, apart, v.words)) in
      subst Good (sym (ground (arith, more)))
        (Keeps-trans con (rub_out con) (erase_line k (rub_out con)) step keeps, done, w)
]
  where
    stops : Bool
    stops =
        con.e == con.w
        || (get_or con.buf ((con.e + usize_mod - 1) % usize_mod % input_buf_size) 0 == newline)

    Good : Console → Type 0
    Good c = Keeps con c × Erased c × (c.w ≡ con.w)

-- What an interrupt has done: it commits nothing, or everything that was entered, and then it wakes up
-- the readers.
pub record Handled (con : Console) (x : Console × List Effect) : Type 0 where
  pub keeps : Keeps con x.0
  pub commits :
      (ready x.0 ≡ ready con)
      ⊎ ((x.1 ≡ wakes ∷ []) × (ready x.0 ≡ entered x.0) × (ready con < ready x.0))

unchanged : (con : Console) (fx : List Effect) → IsValid con → Handled con (con, fx)
unchanged con fx v = record { keeps = Keeps-self con v; commits = inl refl }

store-publish :
    (c : ℕ) (con : Console)
    → IsValid con
    → has_room con ≡ true
    → Handled con (publish (store c con), wakes ∷ [])
unfolding publish
store-publish c con v room =
    let (k, grown) = store-Keeps c con v room in
    record {
      keeps =
          Keeps-trans con (store c con) (publish (store c con)) k
            (publish-Keeps (store c con) k.valid);
      commits = inr (refl, refl, omega (arith, grown, v.order));
    }

store_only :
    (c : ℕ) (con : Console) → IsValid con → has_room con ≡ true → Handled con (store c con, [])
unfolding store
store_only c con v room = record { keeps = (store-Keeps c con v room).0; commits = inl refl }

typed_lem : (c : ℕ) (con : Console) → IsValid con → Handled con (typed c con)
unfolding typed
typed_lem c con v = elim (Bool-cases (not (c == 0) && has_room con)) [
  | inr drop ↦ subst (λ x. Handled con x) (sym (ground (arith, drop))) (unchanged con [] v)
  | inl take ↦
      let room : has_room con ≡ true = ground (arith, take) in
      elim (Bool-cases ends) [
        | inl end ↦
            subst (λ x. Handled con x) (sym (ground (arith, take, end)))
              (store-publish c' con v room)
        | inr go ↦
            subst (λ x. Handled con x) (sym (ground (arith, take, go))) (store_only c' con v room)
      ]
]
  where
    c' : ℕ
    c' = if c == 13 then newline else c

    ends : Bool
    ends =
        c' == newline
        || (c' == ctrl 68)
        || (((store c' con).e + usize_mod - (store c' con).r) % usize_mod == input_buf_size)

rubbed : (con : Console) → IsValid con → (con.e == con.w) ≡ false → Handled con (rub_out con, [])
unfolding rub_out
rubbed con v ne = record { keeps = rub_out-Keeps con v ne; commits = inl refl }

erased : (con : Console) → IsValid con → Handled con (erase_line (in_flight con) con, [])
erased con v =
    let (k, _, w) = erase_line_lem (in_flight con) con v (omega arith) in
    record { keeps = k; commits = inl (omega (arith, w, k.same)) }

-- From a valid console, an interrupt keeps the counters in order, `r <= w <= e <= r + 128`, and keeps
-- every committed byte in its place. It commits nothing more, or it commits everything that has been
-- entered, at least one byte, and wakes up the readers.
pub handle_interrupt_lem :
    (c : ℕ) (con : Console) → IsValid con → Handled con (handle_interrupt c con)
unfolding handle_interrupt
handle_interrupt_lem c con v =
    let is : (x : Console × List Effect)
        → Handled con x
        → handle_interrupt c con ≡ x
        → Handled con (handle_interrupt c con) =
      λ x h e. subst (λ y. Handled con y) (sym e) h in
    elim (Bool-cases (con.raw && not (c == 0) && has_room con)) [
      | inl raw ↦
          is (publish (store c con), wakes ∷ []) (store-publish c con v (ground (arith, raw)))
            (ground (arith, raw))
      | inr cooked ↦ elim (Bool-cases (c == ctrl 72 || c == 127)) [
        | inl back ↦ elim (Bool-cases (con.e == con.w)) [
          | inl none_left ↦
              is (con, []) (unchanged con [] v) (ground (arith, cooked, back, none_left))
          | inr some_left ↦
              is (rub_out con, []) (rubbed con v some_left)
                (ground (arith, cooked, back, some_left))
        ]
        | inr not_back ↦ elim (Bool-cases (c == ctrl 80)) [
          | inl list ↦
              is (con, dumps ∷ []) (unchanged con (dumps ∷ []) v)
                (ground (arith, cooked, not_back, list))
          | inr not_list ↦ elim (Bool-cases (c == ctrl 85)) [
            | inl line ↦
                is (erase_line (in_flight con) con, []) (erased con v)
                  (ground (arith, cooked, not_back, not_list, line))
            | inr not_line ↦ elim (Bool-cases (c == ctrl 67)) [
              | inl kill ↦
                  let fx : List Effect = elim con.foreground_pid [
                    | none ↦ []
                    | some pid ↦ kills pid ∷ []
                  ] in
                  is (con, fx) (unchanged con fx v)
                    (ground (arith, cooked, not_back, not_list, not_line, kill))
              | inr normal ↦
                  is (typed c con) (typed_lem c con v)
                    (ground (arith, cooked, not_back, not_list, not_line, normal))
            ]
          ]
        ]
      ]
    ]

-- A change of the flags, or an edit that goes back to the committed bytes.
settled :
    (con con' : Console)
    → IsValid con
    → con'.buf ≡ con.buf
    → con'.r ≡ con.r
    → con'.w ≡ con.w
    → (con'.e ≡ con.e) ⊎ (con'.e ≡ con.w)
    → Keeps con con' × (ready con' ≡ ready con)
settled con con' v eb er ew ee = (
  record {
    valid = record {
      size = ap (λ b. length b) eb ∙ v.size;
      words = omega (arith, v.words);
      order = omega (arith, v.words, v.order);
      bounded = omega (arith, v.words, v.order, v.bounded);
    };
    same = er;
    grows = omega arith;
    kept = λ j h. ap₂ (λ b (r : ℕ). get_or b ((r + j) % input_buf_size) 0) eb er;
  },
  omega arith,
)

-- From a valid console, `ioctl` keeps the counters in order and every committed byte in its place, and
-- commits none.
pub ioctl_lem :
    (cmd : Command) (arg : ℕ) (con : Console)
    → IsValid con
    → Keeps con (ioctl cmd arg con).0 × (ready (ioctl cmd arg con).0 ≡ ready con)
unfolding ioctl
ioctl_lem set_raw arg con v = elim (Bool-cases (arg == 1)) [
  | inl on ↦
      subst (λ x. Keeps con x × (ready x ≡ ready con)) (sym (ground (arith, on)))
        (settled con (record con { raw = true; e = con.w }) v refl refl refl (inr refl))
  | inr off ↦
      subst (λ x. Keeps con x × (ready x ≡ ready con)) (sym (ground (arith, off)))
        (settled con (record con { raw = false }) v refl refl refl (inl refl))
]
ioctl_lem set_fg_pid arg con v =
    settled con (ioctl set_fg_pid arg con).0 v refl refl refl (inl refl)
ioctl_lem other arg con v = (Keeps-self con v, refl)
