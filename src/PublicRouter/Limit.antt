-- ===== src/PublicRouter/Limit.antt =====
-- Who is let through to the public product.
use stockstack.Common.{
  ℕ, ◌*◌, ◌+◌, ◌≡◌, refl, Bool, true, false, List, ◌∷◌, length, leb, if◌then◌else◌,
}
use stockstack.Common.Exec.{Result, ok, raise}
use stockstack.Common.Text.{Text}
use stockstack.Service.{Failure}
use stockstack.Cache.{Redis, rate_key, rate_limit}
use stockstack.Cache.RateLimit.{recent, rate_limit_lem, is_new}
use stockstack.PublicService.{Fault, works, lost, late, Event, Public, call, carried}
use stockstack.PublicRouter.{RateSettings, rate_limited, decided, enforce_rate_limit}

-- A request is refused only if Redis answers that the window is full.
abbrev pub verdict : RateSettings → Fault → Bool → Result Failure (Unit {0})
verdict c works full = if full then raise (rate_limited c) else ok tt
verdict c lost full = ok tt
verdict c late full = ok tt

judged :
    {r : Redis} (c : RateSettings) (f : Fault) (a : (Bool × ℕ) × r.State) (s : r.State)
    (full : Bool) (n : ℕ)
    → a.0 ≡ (if full then (false, n) else (true, n + 1))
    → (w : Public r) → (decided r c (carried r f a s).0 w).0 ≡ verdict c f full
judged c works a s true n h w = rw h refl
judged c works a s false n h w = rw h refl
judged c lost a s full n h w = refl
judged c late a s full n h w = refl

module _ (r : Redis) (c : RateSettings) (ip : Text) (now : ℕ) (member : Text) where
  abbrev window : ℕ
  window = c.rate_limit_window_seconds * 1000

  -- If Redis answers, a request is refused with 429 `RATE_LIMITED` exactly if as many requests of
  -- the client as the limit allows were let through in the window that ends now; if Redis does not
  -- answer, it is let through. Its member is taken to be new.
  pub enforce_rate_limit_lem :
      (e : Event r) (events : List (Event r)) (w : Public r)
      → let seen = r.members (rate_key ip) (e.meanwhile w.redis) in
        is_new member seen ≡ true
        → (enforce_rate_limit r c ip now member (record w { events = e ∷ events })).0
          ≡ verdict c e.fault (
              leb c.rate_limit_requests
                (length (recent now (c.rate_limit_window_seconds * 1000) seen)))
  unfolding enforce_rate_limit call
  enforce_rate_limit_lem e events w new =
      let s = e.meanwhile w.redis in
      let (answer, members) = rate_limit_lem r ip c.rate_limit_requests window now member s new in
      judged c e.fault (rate_limit r ip c.rate_limit_requests window now member s) s _ _ answer _
