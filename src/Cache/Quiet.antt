-- ===== src/Cache/Quiet.antt =====
-- A client that waits is let through again: the sliding window of backend/app/catalog/cache.py.
use stockstack.Common.{
  ℕ, ◌+◌, ◌≤◌, ◌<◌, ◌≡◌, refl, ◌∙◌, Bool, true, false, List, [], ◌∷◌, if◌then◌else◌, All, arith,
}
use stockstack.Common.Text.{Text, text_eq}
use stockstack.Cache.{Redis, rate_key, rate_limit}
use stockstack.Cache.RateLimit.{
  recent, is_new, is_new-filter, rate_limit_lem, recent-recent, admitted, IsTimely, last_time,
  All-is_new, All-new,
}

-- The state that a client's requests lead to.
unfoldable pub reached : (r : Redis) → Text → ℕ → ℕ → List (ℕ × Text) → r.State → r.State
reached r ip limit window [] s = s
reached r ip limit window ((now, member) ∷ requests) s =
    reached r ip limit window requests (rate_limit r ip limit window now member s).1

-- What was let through until a time is no longer counted a window after it.
recent_past :
    (t now window : ℕ) (through : List (ℕ × Text))
    → All (λ e. e.0 ≤ t) through
    → t + window ≤ now
    → recent now window through ≡ []
recent_past t now window [] h past = refl
recent_past t now window (e ∷ through) (early, rest) past =
    ground (arith, recent_past t now window through rest past)

All-later :
    (t u : ℕ) (through : List (ℕ × Text))
    → t ≤ u
    → All (λ e. e.0 ≤ t) through
    → All (λ e. e.0 ≤ u) through
All-later t u [] le h = tt
All-later t u (e ∷ through) le (early, rest) = (omega arith, All-later t u through le rest)

module _ (r : Redis) (ip : Text) (limit window : ℕ) (positive : 0 < window) where
  -- One request: what is kept is what was let through and still counts.
  step-members :
      (now : ℕ) (member : Text) (through : List (ℕ × Text)) (t : ℕ) (s : r.State)
      → r.members (rate_key ip) s ≡ recent t window through
      → t ≤ now
      → is_new member through ≡ true
      → let a = rate_limit r ip limit window now member s in
        r.members (rate_key ip) a.1
        ≡ recent now window (if a.0.0 then (now, member) ∷ through else through)
  step-members now member through t s same le new =
      let fresh : is_new member (r.members (rate_key ip) s) ≡ true =
        rw (same, is_new-filter member t window through new) in
      let (answer, members) = rate_limit_lem r ip limit window now member s fresh in
      let counted : recent now window (r.members (rate_key ip) s) ≡ recent now window through =
        rw same (recent-recent now t window through le) in
      ground (arith, answer, members, counted)

  abbrev grown : Bool → ℕ × Text → List (ℕ × Text) → List (ℕ × Text)
  grown b q through = if b then q ∷ through else through

  grown-early :
      (b : Bool) (q : ℕ × Text) (through : List (ℕ × Text))
      → All (λ e. e.0 ≤ q.0) through
      → All (λ e. e.0 ≤ q.0) (grown b q through)
  grown-early true q through h = (omega arith, h)
  grown-early false q through h = h

  grown-new :
      (b : Bool) (q : ℕ × Text) (through requests : List (ℕ × Text))
      → All (λ p. text_eq q.1 p.1 ≡ false) requests
      → All (λ p. is_new p.1 through ≡ true) requests
      → All (λ p. is_new p.1 (grown b q through) ≡ true) requests
  grown-new true q through requests h new = All-is_new q through requests h new
  grown-new false q through requests h new = new

  grown-unlike :
      (b : Bool) (q : ℕ × Text) (through : List (ℕ × Text)) (m : Text)
      → text_eq q.1 m ≡ false
      → is_new m through ≡ true
      → is_new m (grown b q through) ≡ true
  grown-unlike true q through m h new = ground arith
  grown-unlike false q through m h new = new

  -- After any requests: what is kept, none of it later than the last of them or with a member that
  -- they do not have.
  reached-recent :
      (requests through : List (ℕ × Text)) (t : ℕ) (s : r.State) (m : Text)
      → r.members (rate_key ip) s ≡ recent t window through
      → All (λ e. e.0 ≤ t) through
      → All (λ p. is_new p.1 through ≡ true) requests
      → IsTimely t requests
      → is_new m through ≡ true
      → All (λ p. text_eq p.1 m ≡ false) requests
      → let a = admitted r ip limit window through requests s in
        (r.members (rate_key ip) (reached r ip limit window requests s)
          ≡ recent (last_time t requests) window a)
        × All (λ e. e.0 ≤ last_time t requests) a
        × (is_new m a ≡ true)
  unfolding admitted reached
  reached-recent [] through t s m same early new timely unlike others = (same, early, unlike)
  reached-recent ((now, member) ∷ requests) through t s m same early new timely unlike others =
      let a = rate_limit r ip limit window now member s in
      let q : ℕ × Text = (now, member) in
      reached-recent requests (grown a.0.0 q through) now a.1 m
        (step-members now member through t s same timely.0 new.0)
        (grown-early a.0.0 q through (All-later t now through timely.0 early))
        (grown-new a.0.0 q through requests timely.1 new.1) timely.2
        (grown-unlike a.0.0 q through m others.0 unlike) others.1

  -- For a client without requests, a positive limit and window, times that do not fall and members
  -- drawn once: whatever the client asked for, a request that comes a window or more after the last
  -- one is let through, as the first of its window.
  pub rate_limit-reached :
      (requests : List (ℕ × Text)) (t now : ℕ) (member : Text) (s : r.State)
      → 0 < limit
      → r.members (rate_key ip) s ≡ []
      → IsTimely t requests
      → All (λ p. text_eq p.1 member ≡ false) requests
      → last_time t requests + window ≤ now
      → (rate_limit r ip limit window now member (reached r ip limit window requests s)).0
        ≡ (true, 1)
  rate_limit-reached requests t now member s some_allowed none_yet timely others quiet =
      let u = reached r ip limit window requests s in
      let a = admitted r ip limit window [] requests s in
      let (kept, early, new) =
        reached-recent requests [] t s member none_yet tt (All-new requests) timely refl others in
      let last = last_time t requests in
      let fresh : is_new member (r.members (rate_key ip) u) ≡ true =
        rw (kept, is_new-filter member last window a new) in
      let gone : recent now window (r.members (rate_key ip) u) ≡ [] = rw kept (
        recent-recent now last window a (omega arith)
        ∙ recent_past last now window a early quiet) in
      let (answer, members) = rate_limit_lem r ip limit window now member u fresh in
      ground (arith, answer, gone)
