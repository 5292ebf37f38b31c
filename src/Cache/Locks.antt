-- ===== src/Cache/Locks.antt =====
-- The lock of a product: one holder at a time, and only its holder releases it.
use stockstack.Common.{ℕ, ◌≡◌, ◌≢◌, none, some, arith, Option-cases, Bool-cases, inl, inr}
use stockstack.Common.Text.{Text, text_eq, text_eq_refl, text_eq→≡}
use stockstack.Cache.{Redis, CacheSettings, lock_key, acquire_lock, release_lock}

module _ (r : Redis) (c : CacheSettings) (id : ℕ) where
  pub acquired :
      (a : Text) (s : r.State)
      → r.get (lock_key id) s ≡ none
      → acquire_lock r c id a s ≡ (some a, r.set (lock_key id) a c.lock_ttl_ms s)
  unfolding acquire_lock
  acquired a s free = rw (r.set_nx-free (lock_key id) a c.lock_ttl_ms s free)

  refused :
      (a w : Text) (s : r.State)
      → r.get (lock_key id) s ≡ some w
      → acquire_lock r c id a s ≡ (none, s)
  unfolding acquire_lock
  refused a w s held = rw (r.set_nx-held (lock_key id) a w c.lock_ttl_ms s held)

  -- Whoever gets a lock holds it, and got it only because it was free; and while it is held,
  -- whoever holds it, nobody else gets it, and trying changes nothing.
  pub acquire_lock-excludes :
      (a b : Text) (s : r.State)
      → (acquire_lock r c id a s).0 ≡ some a
      → (r.get (lock_key id) s ≡ none)
        × (r.get (lock_key id) (acquire_lock r c id a s).1 ≡ some a)
        × (acquire_lock r c id b (acquire_lock r c id a s).1 ≡ (none, (acquire_lock r c id a s).1))
  acquire_lock-excludes a b s h = elim (Option-cases (r.get (lock_key id) s)) [
    | inr (w, held) ↦ absurd (ground (arith, refused a w s held))
    | inl free ↦
        let got : r.get (lock_key id) (r.set (lock_key id) a c.lock_ttl_ms s) ≡ some a =
          rw (r.get-set, text_eq_refl) in
        rw (acquired a s free) (free, got, refused b a _ got)
  ]

  -- A release by the holder frees the lock, and a release with another token, as after the lock
  -- has expired and gone to someone else, changes nothing.
  pub release_lock-own :
      (a b : Text) (s : r.State)
      → r.get (lock_key id) s ≡ some a
      → (r.get (lock_key id) (release_lock r id a s) ≡ none) × (a ≢ b → release_lock r id b s ≡ s)
  unfolding release_lock
  release_lock-own a b s held = (
    rw (held, text_eq_refl a, r.get-del, text_eq_refl),
    λ other. elim (Bool-cases (text_eq a b)) [
      | inl same ↦ absurd (other (text_eq→≡ a b same))
      | inr differs ↦ rw (held, differs)
    ],
  )
