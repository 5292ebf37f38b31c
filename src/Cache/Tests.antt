-- ===== src/Cache/Tests.antt =====
-- The locks and the limit of requests, run on a Redis in memory.
use stockstack.Common.{ℕ, ◌≡◌, ◌≤◌, refl, arith, length, true, none, some, List, [], ◌∷◌}
use stockstack.Common.Text.{Text, codes, uuid_text}
use stockstack.Cache.{CacheSettings, lock_key, acquire_lock, rate_limit}
use stockstack.Cache.Locks.{acquire_lock-excludes}
use stockstack.Cache.Memory.{Memory, memory, empty_memory}
use stockstack.Cache.Quiet.{reached, rate_limit-reached}
use stockstack.Cache.RateLimit.{admitted, recent, admitted-le-limit}

abbrev settings : CacheSettings
settings = record {
  base_ttl_seconds = 300;
  jitter_seconds = 60;
  negative_ttl_seconds = 30;
  lock_ttl_ms = 5000;
}

abbrev mine : Text
mine = codes "a1"

abbrev other : Text
other = codes "b2"

abbrev held : Memory
held = (acquire_lock memory settings 7 mine empty_memory).1

taken : (acquire_lock memory settings 7 mine empty_memory).0 ≡ some mine
unfolding acquire_lock
taken = refl

is_held : memory.get (lock_key 7) held ≡ some mine
unfolding acquire_lock lock_key uuid_text
is_held = refl

acquire_lock-excludes_example :
    (memory.get (lock_key 7) empty_memory ≡ none)
    × (memory.get (lock_key 7) held ≡ some mine)
    × (acquire_lock memory settings 7 other held ≡ (none, held))
acquire_lock-excludes_example =
    acquire_lock-excludes memory settings 7 mine other empty_memory taken

abbrev client : Text
client = codes "203.0.113.9"

-- Three requests within a second, of which two are let through, and one after it.
abbrev requests : List (ℕ × Text)
requests = (5, mine) ∷ (6, other) ∷ (7, codes "c3") ∷ (1006, codes "d4") ∷ []

admitted-le-limit_example :
    length (recent 1006 1000 (admitted memory client 2 1000 [] requests empty_memory)) ≤ 2
admitted-le-limit_example =
    admitted-le-limit memory client 2 1000 (omega arith) requests 0 empty_memory refl (
      omega arith,
      (refl, (refl, (refl, tt))),
      (omega arith, (refl, (refl, tt)), (omega arith, (refl, tt), (omega arith, tt, tt))),
    )

rate_limit-reached_example :
    (rate_limit memory client 2 1000 2006
      (codes "e5")
      (reached memory client 2 1000 requests empty_memory)).0
    ≡ (true, 1)
rate_limit-reached_example =
    rate_limit-reached memory client 2 1000 (omega arith) requests 0 2006 (codes "e5") empty_memory
      (omega arith) refl
      (
        omega arith,
        (refl, (refl, (refl, tt))),
        (omega arith, (refl, (refl, tt)), (omega arith, (refl, tt), (omega arith, tt, tt))),
      )
      (refl, (refl, (refl, (refl, tt)))) (omega arith)
