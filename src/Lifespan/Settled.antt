-- ===== src/Lifespan/Settled.antt =====
-- What the tasks of invalidation come to: backend/app/main.py and backend/app/catalog/service.py.
use stockstack.Common.{
  ℕ, zero, suc, ◌+◌, ◌≡◌, ◌≤◌, ◌⊎◌, refl, sym, ap, subst, ◌∙◌, Bool, true, false, ◌&&◌, ◌||◌,
  Option, none, some, List, [], ◌∷◌, any, all, length, length-append, leb, ◌==◌, ==_iff, Bool-cases,
  inl, inr, arith,
}
use stockstack.Service.{Cache, World}
use stockstack.Service.Actions.{delete_cached}
use stockstack.Lifespan.Ends.{pick-any, pick-all}
use stockstack.Lifespan.{Task, pick, failed, again, tried, attempt, gather}

-- What a task has failed was counted.
abbrev pub is_counted : ℕ → ℕ → Task → Bool
is_counted count errors t = leb (count + 2) (errors + t.1)

-- `gone` says that a cache does not hold a product: so it is after a deletion that succeeds, and
-- no deletion brings a product back.
module _ (c : Cache) (gone : ℕ → c.State → Type 0)
    (deleted : (id : ℕ) (s : c.State) → (c.delete id s).0 ≡ true → gone id (c.delete id s).1)
    (stays : (id j : ℕ) (s : c.State) → gone j s → gone j (c.delete id s).1) where
  abbrev pub Gone : ℕ → Option c.State → Type 0
  Gone id none = Unit
  Gone id (some s) = gone id s

  -- `delete_cached`, of the cache that there is.
  abbrev after_cache : ℕ → World c → Option c.State → Bool × World c
  after_cache id w none = (true, w)
  after_cache id w (some s) = ((c.delete id s).0, record w { cache = some (c.delete id s).1 })

  pub delete_cached-Gone :
      (id : ℕ) (w : World c)
      → (delete_cached c id w).0 ≡ true
      → Gone id (delete_cached c id w).1.cache
  unfolding delete_cached
  delete_cached-Gone id w h = by_cache w.cache refl h
    where
      by_cache :
          (o : Option c.State)
          → w.cache ≡ o
          → (after_cache id w o).0 ≡ true
          → Gone id (after_cache id w o).1.cache
      by_cache none e h = subst (Gone id) (sym e) tt
      by_cache (some s) e h = deleted id s h

  pub Gone-delete_cached :
      (id j : ℕ) (w : World c) → Gone j w.cache → Gone j (delete_cached c id w).1.cache
  unfolding delete_cached
  Gone-delete_cached id j w h = by_cache w.cache refl h
    where
      by_cache : (o : Option c.State) → w.cache ≡ o → Gone j o → Gone j (after_cache id w o).1.cache
      by_cache none e h = subst (Gone j) (sym e) h
      by_cache (some s) e h = stays id j s h

  pub errors-delete_cached : (id : ℕ) (w : World c) → (delete_cached c id w).1.errors ≡ w.errors
  unfolding delete_cached
  errors-delete_cached id w = ground arith

  -- The tasks, and a product that one of them was for: the task is there, the product is gone, or
  -- as many more failures as a task can have were counted.
  abbrev Reached : ℕ → ℕ → List Task → World c → Type 0
  Reached count id tasks w =
      (any (λ t. t.0 == id) tasks ≡ true) ⊎ (Gone id w.cache ⊎ (count + 2 ≤ length w.errors))

  counted_more :
      (count e f : ℕ) (ts : List Task)
      → e ≤ f
      → all (is_counted count e) ts ≡ true
      → all (is_counted count f) ts ≡ true
  counted_more count e f [] le h = refl
  counted_more count e f (t ∷ ts) le h = ground (arith, counted_more count e f ts)

  module _ (count id k : ℕ) (others : List Task) (w : World c)
      (counted : all (is_counted count (length w.errors)) others ≡ true)
      (reached : (((k == id) || any (λ u. u.0 == id) others) ≡ true)
        ⊎ (Gone id w.cache ⊎ (count + 2 ≤ length w.errors))) where
    abbrev deletion : Bool × World c
    deletion = delete_cached c k w

    same_errors : length deletion.1.errors ≡ length w.errors
    same_errors = ap length (errors-delete_cached k w)

    succeeded :
        deletion.0 ≡ true
        → Reached count id others deletion.1
          × (all (is_counted count (length deletion.1.errors)) others ≡ true)
    succeeded h = (
      elim reached [
        | inl e ↦ elim (Bool-cases (k == id)) [
          | inl same ↦ inr (
              inl (
                subst (λ j. Gone j deletion.1.cache) ((==_iff k id).0 same)
                  (delete_cached-Gone k w h)))
          | inr other ↦ inl (ground arith)
        ]
        | inr (inl g) ↦ inr (inl (Gone-delete_cached k id w g))
        | inr (inr e) ↦ inr (inr (omega (arith, same_errors)))
      ],
      counted_more count (length w.errors) (length deletion.1.errors) others
          (omega (arith, same_errors)) counted,
    )

    more_errors : length (failed c deletion.1).errors ≡ suc (length w.errors)
    more_errors =
        length-append deletion.1.errors ("cache_invalidate_retry" ∷ []) ∙ omega (arith, same_errors)

    others_counted : all (is_counted count (length (failed c deletion.1).errors)) others ≡ true
    others_counted =
        counted_more count (length w.errors) (length (failed c deletion.1).errors) others
          (omega (arith, more_errors)) counted

    failed_once :
        (n : ℕ)
        → is_counted count (length w.errors) (k, suc n) ≡ true
        → let r = again c k n others (failed c deletion.1) in
          Reached count id r.0 r.1 × (all (is_counted count (length r.1.errors)) r.0 ≡ true)
    failed_once zero mine = (
      elim reached [
        | inl e ↦ elim (Bool-cases (k == id)) [
          | inl same ↦ inr (inr (enough (length w.errors) mine more_errors))
          | inr other ↦ inl (ground arith)
        ]
        | inr (inl g) ↦ inr (inl (Gone-delete_cached k id w g))
        | inr (inr e) ↦ inr (inr (omega (arith, more_errors)))
      ],
      others_counted,
    )
      where
        enough : (e : ℕ) {f : ℕ} → leb (count + 2) (e + 1) ≡ true → f ≡ suc e → count + 2 ≤ f
        enough e h k = ground arith
    failed_once (suc n) mine = (
      elim reached [
        | inl e ↦ inl e
        | inr (inl g) ↦ inr (inl (Gone-delete_cached k id w g))
        | inr (inr e) ↦ inr (inr (omega (arith, more_errors)))
      ],
      ground (arith, others_counted, more_errors),
    )

  tried-Reached :
      (count id k n : ℕ) (others : List Task) (w : World c)
      → is_counted count (length w.errors) (k, suc n) ≡ true
      → all (is_counted count (length w.errors)) others ≡ true
      → (((k == id) || any (λ u. u.0 == id) others) ≡ true)
        ⊎ (Gone id w.cache ⊎ (count + 2 ≤ length w.errors))
      → (b : Bool) → (delete_cached c k w).0 ≡ b
      → let r = tried c k n others (b, (delete_cached c k w).1) in
        Reached count id r.0 r.1 × (all (is_counted count (length r.1.errors)) r.0 ≡ true)
  tried-Reached count id k n others w mine counted reached true h =
      succeeded count id k others w counted reached h
  tried-Reached count id k n others w mine counted reached false h =
      failed_once count id k others w counted reached n mine

  attempt-Reached :
      (count id : ℕ) (t : Task) (others : List Task) (w : World c)
      → (is_counted count (length w.errors) t && all (is_counted count (length w.errors)) others)
        ≡ true
      → (((t.0 == id) || any (λ u. u.0 == id) others) ≡ true)
        ⊎ (Gone id w.cache ⊎ (count + 2 ≤ length w.errors))
      → let r = attempt c t others w in
        Reached count id r.0 r.1 × (all (is_counted count (length r.1.errors)) r.0 ≡ true)
  unfolding attempt
  attempt-Reached count id (k, zero) others w counted reached = (
    elim reached [
      | inl e ↦ elim (Bool-cases (k == id)) [
        | inl same ↦ inr (inr (ended (length w.errors) (ground arith)))
        | inr other ↦ inl (ground arith)
      ]
      | inr settled ↦ inr settled
    ],
    ground arith,
  )
    where
      ended : (e : ℕ) → leb (count + 2) (e + 0) ≡ true → count + 2 ≤ e
      ended e h = ground arith
  attempt-Reached count id (k, suc n) others w counted reached =
      tried-Reached count id k n others w (ground arith) (ground arith) reached
        (delete_cached c k w).0 refl

  pub gather-Reached :
      (count id rounds : ℕ) (turn : ℕ → ℕ) (tasks : List Task) (w : World c)
      → all (is_counted count (length w.errors)) tasks ≡ true
      → Reached count id tasks w
      → Reached count id (gather c rounds turn tasks w).0 (gather c rounds turn tasks w).1
  unfolding gather
  gather-Reached count id zero turn tasks w counted reached = reached
  gather-Reached count id (suc rounds) turn [] w counted reached = reached
  gather-Reached count id (suc rounds) turn (t ∷ ts) w counted reached =
      let next = pick (turn rounds) t ts in
      let (reaches, counts) =
        attempt-Reached count id next.0 next.1 w
          (sym (pick-all (is_counted count (length w.errors)) (turn rounds) t ts) ∙ counted)
          (elim reached [
            | inl e ↦ inl (sym (pick-any (λ u. u.0 == id) (turn rounds) t ts) ∙ e)
            | inr settled ↦ inr settled
          ]) in
      gather-Reached count id rounds turn (attempt c next.0 next.1 w).0
        (attempt c next.0 next.1 w).1 counts reaches
