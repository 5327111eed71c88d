-- ===== src/Message/Tests.antt =====
-- The theorem on messages, applied to a short one.
use octopos.Base.{
  ℕ, ◌≤◌, ◌<◌, ◌≡◌, ◌⊎◌, List, [], ◌∷◌, ◌++◌, arith, take, drop, length, replicate, ok, err,
}
use octopos.Message.{MessageBuffer, bufsize, out_of_range, set_msg, get_msg}
use octopos.Message.RoundTrip.{get_msg-set_msg}

abbrev hello : List ℕ
hello = 104 ∷ 105 ∷ []

abbrev target : List ℕ
target = 0 ∷ 0 ∷ 0 ∷ []

abbrev box : MessageBuffer
box = record { bytes = replicate 4 0; valid_len = 0 }

get_msg-set_msg_example :
    (((bufsize < 2) ⊎ (length hello < 2)) × (set_msg hello 2 box ≡ (err out_of_range, box)))
    ⊎ ((m' : MessageBuffer) × (set_msg hello 2 box ≡ (ok 2, m'))
        × (((1 ≤ 2) × (get_msg target 1 m' ≡ (ok 1, take 1 hello ++ drop 1 target)))
            ⊎ ((2 < 1) × (get_msg target 1 m' ≡ (err out_of_range, target)))))
get_msg-set_msg_example = get_msg-set_msg hello target 2 1 box (omega arith)
