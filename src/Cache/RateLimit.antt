-- ===== src/Cache/RateLimit.antt =====
-- The sliding window: how many requests of a client are let through in any window of time.
use stockstack.Common.{
  ℕ, ◌+◌, ◌≤◌, ◌<◌, ◌≡◌, refl, ◌∙◌, Bool, true, false, not, List, [], ◌∷◌, filter, any, length,
  length-filter-le, leb, ltb, if◌then◌else◌, Bool-cases, All, inl, inr, arith,
}
use stockstack.Common.Int.{sub_ℕ, le_int, le_int-sub}
use stockstack.Common.Text.{Text, text_eq}
use stockstack.Cache.{Redis, rate_key, rate_limit}

-- The members that a request at `now` still counts.
abbrev pub recent : ℕ → ℕ → List (ℕ × Text) → List (ℕ × Text)
recent now window entries = filter (λ e. ltb now (e.0 + window)) entries

abbrev pub is_new : Text → List (ℕ × Text) → Bool
is_new m entries = not (any (λ e. text_eq e.1 m) entries)

recent_removed :
    (now window : ℕ) (entries : List (ℕ × Text))
    → filter (λ e. not (le_int e.0 (sub_ℕ now window))) entries ≡ recent now window entries
recent_removed now window [] = refl
recent_removed now window (e ∷ entries) =
    ground (arith, le_int-sub e.0 now window, recent_removed now window entries)

-- What a filter keeps was there.
pub is_new-filter :
    (m : Text) (now window : ℕ) (entries : List (ℕ × Text))
    → is_new m entries ≡ true
    → any (λ e. text_eq e.1 m) (recent now window entries) ≡ false
is_new-filter m now window [] h = refl
is_new-filter m now window (e ∷ entries) h = ground (arith, is_new-filter m now window entries)

module _ (r : Redis) (ip : Text) (limit window now : ℕ) (member : Text) (s : r.State) where
  abbrev old : List (ℕ × Text)
  old = r.members (rate_key ip) s

  abbrev after : (Bool × ℕ) × r.State
  after = rate_limit r ip limit window now member s

  -- If the member is new, a request is let through exactly when fewer than `limit` requests of the
  -- client were let through in the window that ends now; it is then the newest of those, and they
  -- alone are kept. The number that is answered is that of those kept.
  pub rate_limit_lem :
      is_new member (r.members (rate_key ip) s) ≡ true
      → let k = length (recent now window old) in
        (after.0 ≡ (if leb limit k then (false, k) else (true, k + 1)))
        × (r.members (rate_key ip) after.1 ≡ (
            if leb limit k then recent now window old else (now, member) ∷ recent now window old))
  unfolding rate_limit
  rate_limit_lem new =
      let k = rate_key ip in
      let s1 = r.zremrangebyscore k (sub_ℕ now window) s in
      let kept : r.members k s1 ≡ recent now window (r.members k s) =
        r.members-zremrangebyscore k (sub_ℕ now window) s ∙ recent_removed now window _ in
      let added : r.members k (r.zadd k now member s1) ≡ (now, member) ∷ r.members k s1 =
        r.members-zadd k now member s1 (rw kept (is_new-filter member now window _ new)) in
      ground
        (arith, kept, added, r.zcard_lem k s1, r.members-pexpire k window (r.zadd k now member s1))

-- What is counted at a time is counted among what was counted before.
pub recent-recent :
    (now then_ window : ℕ) (entries : List (ℕ × Text))
    → then_ ≤ now
    → recent now window (recent then_ window entries) ≡ recent now window entries
recent-recent now then_ window [] h = refl
recent-recent now then_ window (e ∷ entries) h =
    ground (arith, recent-recent now then_ window entries h)

-- A client's requests, by the times at which they come and the members drawn for them, and those
-- of them that are let through, newest first.
unfoldable pub admitted :
    (r : Redis) → Text → ℕ → ℕ → List (ℕ × Text) → List (ℕ × Text) → r.State → List (ℕ × Text)
admitted r ip limit window through [] s = through
admitted r ip limit window through ((now, member) ∷ requests) s =
    let a = rate_limit r ip limit window now member s in
    admitted r ip limit window (if a.0.0 then (now, member) ∷ through else through) requests a.1

-- The times do not fall, from a time on, and every member is drawn once.
abbrev pub IsTimely : ℕ → List (ℕ × Text) → Type 0
IsTimely t [] = Unit
IsTimely t (q ∷ requests) =
    (t ≤ q.0) × All (λ p. text_eq q.1 p.1 ≡ false) requests × IsTimely q.0 requests

-- The time of the last request.
abbrev pub last_time : ℕ → List (ℕ × Text) → ℕ
last_time t [] = t
last_time t (q ∷ requests) = last_time q.0 requests

pub All-is_new :
    (q : ℕ × Text) (through requests : List (ℕ × Text))
    → All (λ p. text_eq q.1 p.1 ≡ false) requests
    → All (λ p. is_new p.1 through ≡ true) requests
    → All (λ p. is_new p.1 (q ∷ through) ≡ true) requests
All-is_new q through [] h a = tt
All-is_new q through (p ∷ requests) h a = (ground arith, All-is_new q through requests h.1 a.1)

pub All-new : (requests : List (ℕ × Text)) → All (λ p. is_new p.1 [] ≡ true) requests
All-new [] = tt
All-new (p ∷ requests) = (refl, All-new requests)

module _ (r : Redis) (ip : Text) (limit window : ℕ) (positive : 0 < window) where
  bounded_from :
      (requests through : List (ℕ × Text)) (t : ℕ) (s : r.State)
      → r.members (rate_key ip) s ≡ recent t window through
      → length (recent t window through) ≤ limit
      → All (λ p. is_new p.1 through ≡ true) requests
      → IsTimely t requests
      → length
          (recent (last_time t requests) window (admitted r ip limit window through requests s))
        ≤ limit
  unfolding admitted
  bounded_from [] through t s same bound new timely = bound
  bounded_from ((now, member) ∷ requests) through t s same bound new timely =
      let k = rate_key ip in
      let fresh : is_new member (r.members k s) ≡ true =
        rw (same, is_new-filter member t window through new.0) in
      let (answer, members) = rate_limit_lem r ip limit window now member s fresh in
      let counted : recent now window (r.members k s) ≡ recent now window through =
        rw same (recent-recent now t window through timely.0) in
      let fewer : length (recent now window through) ≤ length (recent t window through) =
        rw (← recent-recent now t window through timely.0)
          (length-filter-le (λ e. ltb now (e.0 + window)) (recent t window through)) in
      elim (Bool-cases (leb limit (length (recent now window through)))) [
        | inl full ↦
            let shut : (rate_limit r ip limit window now member s).0.0 ≡ false =
              ground (arith, answer, counted) in
            rw shut (
              bounded_from requests through now _ (ground (arith, members, counted)) (omega arith)
                new.1 timely.2)
        | inr room ↦
            let through_it : (rate_limit r ip limit window now member s).0.0 ≡ true =
              ground (arith, answer, counted) in
            rw through_it (
              bounded_from requests ((now, member) ∷ through) now _
                (ground (arith, members, counted)) (ground arith)
                (All-is_new (now, member) through requests timely.1 new.1) timely.2)
      ]

  -- For a client without requests, a window of some time, times that do not fall and members drawn
  -- once: however the requests come, at the time of the last no more than `limit` of them were let
  -- through in the window that ends then.
  pub admitted-le-limit :
      (requests : List (ℕ × Text)) (t : ℕ) (s : r.State)
      → r.members (rate_key ip) s ≡ []
      → IsTimely t requests
      → length (recent (last_time t requests) window (admitted r ip limit window [] requests s))
        ≤ limit
  admitted-le-limit requests t s none_yet timely =
      bounded_from requests [] t s none_yet (omega arith) (All-new requests) timely
