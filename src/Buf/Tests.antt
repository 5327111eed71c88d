-- ===== src/Buf/Tests.antt =====
-- Runs of the buffer cache from its start, and the theorems applied there.
use octopos.Base.{ℕ, ◌-◌, ◌≡◌, refl, inl, Option, none, some, arith}
use octopos.Buf.{
  BCacheInner, new_meta, nbuf, init, link_from, get, find_cached, recycle, add_user, at_meta,
  release,
}
use octopos.Buf.Release.{Cache, Cache-relabel, Released, release_lem}
use octopos.Buf.Get.{Once, Gets, get-Gets}
use octopos.Buf.Init.{places, init_lem}

abbrev unused_cache : BCacheInner
unused_cache = record { meta = λ _. new_meta; head = 0 }

abbrev started : BCacheInner
started = init unused_cache

no_device : (j : ℕ) → (unused_cache.meta j).dev ≡ 0
unfolding new_meta
no_device j = refl

init_lem_example : Cache (init unused_cache) (places (nbuf - 1) 1) × Once (init unused_cache).meta
init_lem_example = init_lem unused_cache no_device

started-Cache : Cache started (places (nbuf - 1) 1)
started-Cache = (init_lem unused_cache no_device).0

get-Gets_example : Gets 1 7 (places (nbuf - 1) 1) started (get 1 7 started)
get-Gets_example =
    get-Gets 1 7 (places (nbuf - 1) 1) started (init_lem unused_cache no_device).0
      (init_lem unused_cache no_device).1 (λ c. cc)

abbrev place_of : Option (ℕ × BCacheInner) → Option ℕ
place_of none = none
place_of (some (i, _)) = some i

-- The first block goes to the last buffer of the ring.
first_place : place_of (get 1 7 started) ≡ some 29
unfolding get init link_from find_cached recycle new_meta
first_place = refl

abbrev one_user : BCacheInner
one_user = at_meta 1 add_user started

one_user-count : (one_user.meta 1).ref_count ≡ 1
unfolding init link_from new_meta
one_user-count = refl

one_user-Cache : Cache one_user (places (nbuf - 1) 1)
one_user-Cache =
    Cache-relabel started (places (nbuf - 1) 1) 1 (add_user (started.meta 1)) started-Cache refl
      refl

release_lem_example : Released 1 (places (nbuf - 1) 1) one_user (release 1 one_user)
release_lem_example =
    release_lem 1 (places (nbuf - 1) 1) one_user one_user-Cache (inl refl)
      (omega (arith, one_user-count)) (omega (arith, one_user-count))
