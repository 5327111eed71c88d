-- ===== src/Message/RoundTrip.antt =====
-- A message that was left is the one that is read.
use octopos.Base.{
  ℕ, zero, suc, ◌≤◌, ◌<◌, ◌≡◌, refl, ap, ◌⊎◌, inl, inr, List, [], ◌∷◌, ◌++◌, arith, dec_lt, take,
  drop, length, ok, err,
}
use octopos.Message.{MessageBuffer, bufsize, out_of_range, set_msg, get_msg}

take-take_append :
    (k n : ℕ) (xs ys : List ℕ) → k ≤ n → n ≤ length xs → take k (take n xs ++ ys) ≡ take k xs
take-take_append zero n xs ys h l = refl
take-take_append (suc k) zero xs ys h l = absurd (omega arith)
take-take_append (suc k) (suc n) [] ys h l = absurd (omega arith)
take-take_append (suc k) (suc n) (x ∷ xs) ys h l =
    ap (λ t. x ∷ t) (take-take_append k n xs ys (omega arith) (omega arith))

-- A message that is too long for the box, or longer than its buffer, is refused and changes nothing.
-- After any other, a read of `k` bytes into a buffer with room for them gives the first `k` bytes of
-- the message and leaves the rest of the buffer, if `k` is at most its length, and fails and leaves
-- the whole buffer else.
pub get_msg-set_msg :
    (buf out : List ℕ) (len k : ℕ) (m : MessageBuffer)
    → k ≤ length out
    → (((bufsize < len) ⊎ (length buf < len)) × (set_msg buf len m ≡ (err out_of_range, m)))
      ⊎ ((m' : MessageBuffer) × (set_msg buf len m ≡ (ok len, m'))
          × (((k ≤ len) × (get_msg out k m' ≡ (ok k, take k buf ++ drop k out)))
              ⊎ ((len < k) × (get_msg out k m' ≡ (err out_of_range, out)))))
unfolding set_msg get_msg
get_msg-set_msg buf out len k m room = elim (dec_lt bufsize len) [
  | yes big ↦ inl (inl big, ground arith)
  | no fits ↦ elim (dec_lt (length buf) len) [
    | yes short ↦ inl (inr short, ground arith)
    | no enough ↦
        let m' : MessageBuffer = record {
          bytes = take len buf ++ drop len m.bytes;
          valid_len = len;
        } in
        inr (
          m',
          ground arith,
          elim (dec_lt len k) [
            | yes more ↦ inr (more, ground arith)
            | no within ↦ inl (
              omega arith,
              ground (
                arith,
                take-take_append k len buf (drop len m.bytes) (omega arith) (omega arith),
              ),
            )
          ],
        )
  ]
]
