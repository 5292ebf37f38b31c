-- ===== src/Lifespan/Ends.antt =====
-- The tasks of invalidation end: backend/app/main.py and backend/app/catalog/service.py.
use stockstack.Common.{
  ℕ, zero, suc, ◌+◌, ◌≡◌, ◌≤◌, refl, sym, ◌∙◌, Bool, true, ◌&&◌, ◌||◌, List, [], ◌∷◌, any, all, leb,
  arith,
}
use stockstack.Service.{Cache, World}
use stockstack.Lifespan.{Task, pick, attempt, gather, rounds_of}

-- A turn takes one task out, and keeps the others.
pub pick-any :
    (p : Task → Bool) (i : ℕ) (t : Task) (ts : List Task)
    → any p (t ∷ ts) ≡ (p (pick i t ts).0 || any p (pick i t ts).1)
unfolding pick
pick-any p zero t ts = refl
pick-any p (suc i) t [] = refl
pick-any p (suc i) t (u ∷ ts) = ground (arith, pick-any p i u ts)

pub pick-all :
    (p : Task → Bool) (i : ℕ) (t : Task) (ts : List Task)
    → all p (t ∷ ts) ≡ (p (pick i t ts).0 && all p (pick i t ts).1)
unfolding pick
pick-all p zero t ts = refl
pick-all p (suc i) t [] = refl
pick-all p (suc i) t (u ∷ ts) = ground (arith, pick-all p i u ts)

pub pick-rounds :
    (i : ℕ) (t : Task) (ts : List Task)
    → rounds_of (t ∷ ts) ≡ (pick i t ts).0.1 + rounds_of (pick i t ts).1
unfolding pick rounds_of
pick-rounds zero t ts = refl
pick-rounds (suc i) t [] = refl
pick-rounds (suc i) t (u ∷ ts) = omega (arith, pick-rounds i u ts)

abbrev pub is_started : Task → Bool
is_started t = leb 1 t.1

module _ (c : Cache) where
  attempt-rounds :
      (id n : ℕ) (others : List Task) (w : World c)
      → all is_started others ≡ true
      → (rounds_of (attempt c (id, suc n) others w).0 ≤ n + rounds_of others)
        × (all is_started (attempt c (id, suc n) others w).0 ≡ true)
  unfolding attempt rounds_of
  attempt-rounds id zero others w h = (ground arith, ground arith)
  attempt-rounds id (suc n) others w h = (ground arith, ground arith)

  attempt-less :
      (t : Task) (others : List Task) (w : World c)
      → (is_started t && all is_started others) ≡ true
      → (suc (rounds_of (attempt c t others w).0) ≤ t.1 + rounds_of others)
        × (all is_started (attempt c t others w).0 ≡ true)
  attempt-less (id, zero) others w h = absurd (ground arith)
  attempt-less (id, suc n) others w h =
      let (less, started) = attempt-rounds id n others w (ground arith) in
      (omega (arith, less), started)

  -- As many rounds as the tasks have left are enough for them to end, whoever's turn it is.
  pub gather-ends :
      (rounds : ℕ) (turn : ℕ → ℕ) (tasks : List Task) (w : World c)
      → all is_started tasks ≡ true
      → rounds_of tasks ≤ rounds
      → (gather c rounds turn tasks w).0 ≡ []
  unfolding gather rounds_of
  gather-ends zero turn [] w h enough = refl
  gather-ends zero turn (t ∷ ts) w h enough = absurd (ground arith)
  gather-ends (suc rounds) turn [] w h enough = refl
  gather-ends (suc rounds) turn (t ∷ ts) w h enough =
      let next = pick (turn rounds) t ts in
      let (less, started) =
        attempt-less next.0 next.1 w (sym (pick-all is_started (turn rounds) t ts) ∙ h) in
      gather-ends rounds turn (attempt c next.0 next.1 w).0 (attempt c next.0 next.1 w).1 started
        (omega (arith, less, pick-rounds (turn rounds) t ts))
