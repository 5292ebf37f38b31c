-- ===== src/PublicService/Answers.antt =====
-- What a request for a public product can be answered, whatever Redis and the database do.
use mathlib.Core.Option.{some-injective}
use stockstack.Common.{
  ℕ, zero, suc, ◌+◌, ◌-◌, ◌≤◌, ◌<◌, ◌≡◌, refl, ◌∙◌, sym, String, Bool, true, false, ◌&&◌, ◌++◌,
  Option, none, some, List, [], ◌∷◌, ◌==◌, if◌then◌else◌, Bool-cases, ap, ==_iff, inl, inr, arith,
  ltb,
}
use stockstack.Common.Exec.{ok}
use stockstack.Schemas.{ProductView}
use stockstack.Json.{Json, Fields}
use stockstack.Cache.{get_cached, delete, Redis, CacheSettings, Cached, absent, invalid, value}
use stockstack.PublicService.{
  Act, Event, Fault, works, lost, late, Public, Codec, CachedValue, missing, product, call, call_in,
  after_call, carried, count_failure, cache_results, checked_view, checked_product,
  checked_envelope, best_effort, discard_invalid_cache, checked_cache, envelope_view, is_missing,
  cache_get,
}
use stockstack.PublicService.Load.{
  pause, pop_delay, resume, Draws, Waited, hit, timed_out, out_of_fuel, wait,
}

-- What calls of Redis leave alone.
pub record Kept {r : Redis} (w t : Public r) : Type 0 where
  pub slots : t.slots ≡ w.slots
  pub queries : t.queries ≡ w.queries

-- What the cache gives, if it is used: a view of the product that was asked for.
unfoldable pub Sound : Codec → ℕ → Option CachedValue → Type 0
Sound j id none = Unit
Sound j id (some missing) = Unit
Sound j id (some (product p)) = (v : ProductView) × (j.validate p ≡ some v) × (v.id ≡ id)

-- The ends of a wait that had fuel enough.
unfoldable pub Ended : Codec → ℕ → Waited → Type 0
unfolding Sound
Ended j id (hit v) = Sound j id (some v)
Ended j id timed_out = Unit
Ended j id out_of_fuel = ⊥

both : (a b : Bool) → a && b ≡ true → (a ≡ true) × (b ≡ true)
both true true h = (refl, refl)
both true false h = ground arith
both false b h = ground arith

pub if-some :
    {A : Type 0} (b : Bool) {o : Option A} {a : A}
    → (if b then o else none) ≡ some a
    → (b ≡ true) × (o ≡ some a)
if-some true h = (refl, h)
if-some false h = ground arith

module _ (r : Redis) where
  Kept-trans : (s t u : Public r) → Kept s t → Kept t u → Kept s u
  Kept-trans s t u h k = record { slots = k.slots ∙ h.slots; queries = k.queries ∙ h.queries }

  after_call-Kept :
      {A : Type 0} (f : Fault) (a : A × r.State) (s : r.State) (w : Public r)
      → (x : Option A) × ((after_call r w (carried r f a s)).0 ≡ ok x)
        × Kept w (after_call r w (carried r f a s)).1
  after_call-Kept works a s w = (some a.0, refl, record { slots = refl; queries = refl })
  after_call-Kept lost a s w = (none, refl, record { slots = refl; queries = refl })
  after_call-Kept late a s w = (none, refl, record { slots = refl; queries = refl })

  call_in-Kept :
      {A : Type 0} (events : List (Event r)) (op : r.State → A × r.State) (w : Public r)
      → (a : Option A) × ((call_in r events op w).0 ≡ ok a) × Kept w (call_in r events op w).1
  call_in-Kept [] op w = after_call-Kept works (op w.redis) w.redis w
  call_in-Kept (e ∷ events) op w =
      let (x, answered, kept) =
        after_call-Kept e.fault (op (e.meanwhile w.redis)) (e.meanwhile w.redis)
          (record w { events = events }) in
      (x, answered, record { slots = kept.slots; queries = kept.queries })

  pub call-Kept :
      {A : Type 0} (op : r.State → A × r.State) (w : Public r)
      → (a : Option A) × ((call r op w).0 ≡ ok a) × Kept w (call r op w).1
  unfolding call
  call-Kept op w = call_in-Kept w.events op w

  count_failure-Kept :
      (operation : String) (x : Option (Unit {0})) (w : Public r)
      → ((count_failure r operation x w).0 ≡ ok tt) × Kept w (count_failure r operation x w).1
  count_failure-Kept operation none w = (refl, record { slots = refl; queries = refl })
  count_failure-Kept operation (some u) w = (refl, record { slots = refl; queries = refl })

  pub best_effort-Kept :
      (operation : String) (op : r.State → r.State) (w : Public r)
      → ((best_effort r operation op w).0 ≡ ok tt) × Kept w (best_effort r operation op w).1
  unfolding best_effort
  best_effort-Kept operation op w =
      let (x, answered, kept) = call-Kept (λ s. (tt, op s)) w in
      let t = (call r (λ s. (tt, op s)) w).1 in
      let (done, kept') = count_failure-Kept operation x t in
      rw answered (done, Kept-trans w t _ kept kept')

  discard_invalid_cache-Kept :
      (id : ℕ) (w : Public r)
      → ((discard_invalid_cache r id w).0 ≡ ok none) × Kept w (discard_invalid_cache r id w).1
  unfolding discard_invalid_cache
  discard_invalid_cache-Kept id w =
      let t = record w { metrics = w.metrics ++ cache_results "invalid" ∷ [] } in
      let (done, kept) = best_effort-Kept "cache_delete_invalid" (delete r id) t in
      rw done (refl, record { slots = kept.slots; queries = kept.queries })

  module _ (j : Codec) (id : ℕ)
      (round_trip : (p : Json) (v : ProductView)
        → j.validate p ≡ some v
        → j.validate (j.dump v) ≡ some v) where
    -- A view from an envelope: one of the product that was read from JSON.
    abbrev Validated : ProductView → Type 0
    Validated v = (v.id ≡ id) × (p : Json) × (j.validate p ≡ some v)

    checked_view-Validated :
        (version : ℕ) (p : Json) (o : Option ProductView) {v : ProductView}
        → j.validate p ≡ o
        → checked_view j.validate id version o ≡ some v
        → Validated v
    checked_view-Validated version p none valid h = ground arith
    checked_view-Validated version p (some u) {v} valid h =
        let (good, same) = if-some (u.id == id && u.version == version) h in
        let e = some-injective u v same in
        (ap (λ x. x.id) (sym e) ∙ (==_iff u.id id).0 (both _ _ good).0, p, valid ∙ same)

    checked_product-Validated :
        (version : Option ℕ) (p : Option Json) {v : ProductView}
        → checked_product j.validate id version p ≡ some v
        → Validated v
    checked_product-Validated (some version) (some p) h =
        checked_view-Validated version p (j.validate p) refl h
    checked_product-Validated none (some p) h = ground arith
    checked_product-Validated none none h = ground arith
    checked_product-Validated (some version) none h = ground arith

    envelope_view-Validated :
        (fields : Fields) {v : ProductView}
        → envelope_view j.validate id fields ≡ some v
        → Validated v
    unfolding envelope_view
    envelope_view-Validated fields {v} h = checked_product-Validated _ _ (if-some _ h).1

    checked_envelope-Sound :
        (o : Option ProductView) (w : Public r)
        → ((v : ProductView) → o ≡ some v → Validated v)
        → (a : Option CachedValue) × ((checked_envelope r j id o w).0 ≡ ok a)
          × Sound j id a
          × Kept w (checked_envelope r j id o w).1
    unfolding Sound
    checked_envelope-Sound none w h =
        let (done, kept) = discard_invalid_cache-Kept id w in (none, done, tt, kept)
    checked_envelope-Sound (some v) w h =
        let (same, p, valid) = h v refl in
        (
          some (product (j.dump v)),
          refl,
          (v, round_trip p v valid, same),
          record { slots = refl; queries = refl },
        )

    checked_cache-Sound :
        (found : Option Cached) (w : Public r)
        → (a : Option CachedValue) × ((checked_cache r j id found w).0 ≡ ok a)
          × Sound j id a
          × Kept w (checked_cache r j id found w).1
    unfolding checked_cache Sound
    checked_cache-Sound none w = (none, refl, tt, record { slots = refl; queries = refl })
    checked_cache-Sound (some absent) w = (none, refl, tt, record { slots = refl; queries = refl })
    checked_cache-Sound (some invalid) w =
        let (done, kept) = discard_invalid_cache-Kept id w in (none, done, tt, kept)
    checked_cache-Sound (some (value fields)) w = elim (Bool-cases (is_missing fields)) [
      | inl marked ↦ rw marked (some missing, refl, tt, record { slots = refl; queries = refl })
      | inr unmarked ↦ rw unmarked (
          checked_envelope-Sound (envelope_view j.validate id fields) w
            (λ v h. envelope_view-Validated fields h))
    ]

    pub cache_get-Sound :
        (w : Public r)
        → (a : Option CachedValue) × ((cache_get r j id w).0 ≡ ok a)
          × Sound j id a
          × Kept w (cache_get r j id w).1
    unfolding cache_get
    cache_get-Sound w =
        let (x, answered, kept) = call-Kept (λ s. (get_cached r j.text id s, s)) w in
        let t = (call r (λ s. (get_cached r j.text id s, s)) w).1 in
        let (a, checked, sound, kept') = checked_cache-Sound x t in
        rw answered (a, checked, sound, Kept-trans w t _ kept kept')

    module _ (c : CacheSettings) (drawn : Draws) where
      abbrev Ends : Act r Waited → Public r → Type 0
      Ends m w = (a : Waited) × ((m w).0 ≡ ok a) × Ended j id a × Kept w (m w).1

      resume-Ends :
          (again : ℕ → Act r Waited) (left : ℕ) (found : Option CachedValue) (w t : Public r)
          → Sound j id found
          → Kept w t
          → Ends (again left) t
          → (a : Waited) × ((resume r c j id drawn again left found t).0 ≡ ok a)
            × Ended j id a
            × Kept w (resume r c j id drawn again left found t).1
      unfolding Ended
      resume-Ends again left none w t sound kept (a, answered, ended, kept') =
          (a, answered, ended, Kept-trans w t _ kept kept')
      resume-Ends again left (some v) w t sound kept ends = (hit v, refl, sound, kept)

      -- With more fuel than milliseconds left, and no more of these than the budget, the wait ends
      -- by itself: with a view of the product that was asked for, with the entry for a missing
      -- one, or without. It takes no slot and no query. A view that was read is taken to be read
      -- again as it was, when it is written.
      pub wait-ends :
          (budget fuel left : ℕ) (w : Public r)
          → left ≤ budget
          → left < fuel
          → (a : Waited) × ((wait r c j id drawn budget fuel left w).0 ≡ ok a)
            × Ended j id a
            × Kept w (wait r c j id drawn budget fuel left w).1
      unfolding wait Ended
      wait-ends budget zero left w fits enough = absurd (omega arith)
      wait-ends budget (suc fuel) left w fits enough = elim (Bool-cases (ltb 0 left)) [
        | inr over ↦ rw over (timed_out, refl, tt, record { slots = refl; queries = refl })
        | inl time ↦
            let d = pop_delay r w.delays in
            let u = record w { delays = d.1 } in
            let (a, got, sound, kept) = cache_get-Sound u in
            let t = (cache_get r j id u).1 in
            let rest = left - (pause budget + d.0) in
            rw (time, got)
              (resume-Ends (wait r c j id drawn budget fuel) rest a w t sound
                (record { slots = kept.slots; queries = kept.queries })
                (wait-ends budget fuel rest t (ground arith) (ground arith)))
      ]
