-- ===== src/Cache.antt =====
-- The cache of products, its locks and the limit of requests: backend/app/catalog/cache.py.
-- Redis is an interface: its commands, and what their documentation says of them. The two Lua
-- scripts, which Redis runs as one step each, are functions here.
pub mod Locks
pub mod RateLimit
pub mod Quiet
pub mod Memory
mod Tests
use stockstack.Common.{
  ℕ, ◌+◌, ◌*◌, ◌%◌, ◌≡◌, Bool, true, false, not, Option, none, some, List, [], ◌∷◌, ◌++◌, filter,
  any, length, leb, ◌==◌, if◌then◌else◌,
}
use stockstack.Common.Int.{ℤ, sub_ℕ, le_int}
use stockstack.Common.Text.{Text, codes, text_eq, uuid_text}
use stockstack.Json.{Json, Decimal, Fields, num, str, obj, field, end}

-- The commands that the program sends. Times to live are in milliseconds; time passes only between
-- commands. `members` is a sorted set, as pairs of a score and a member.
pub record Redis : Type 1 where
  pub State : Type 0
  pub get : Text → State → Option Text
  pub set : Text → Text → ℕ → State → State
  pub set_nx : Text → Text → ℕ → State → Bool × State
  pub del : Text → State → State
  pub members : Text → State → List (ℕ × Text)
  pub zremrangebyscore : Text → ℤ → State → State
  pub zcard : Text → State → ℕ
  pub zadd : Text → ℕ → Text → State → State
  pub pexpire : Text → ℕ → State → State
  pub get-set :
      (k j v : Text) (ttl : ℕ) (s : State)
      → get j (set k v ttl s) ≡ (if text_eq k j then some v else get j s)
  pub get-del : (k j : Text) (s : State) → get j (del k s) ≡ (if text_eq k j then none else get j s)
  pub set_nx-free :
      (k v : Text) (ttl : ℕ) (s : State) → get k s ≡ none → set_nx k v ttl s ≡ (true, set k v ttl s)
  pub set_nx-held :
      (k v w : Text) (ttl : ℕ) (s : State) → get k s ≡ some w → set_nx k v ttl s ≡ (false, s)
  pub members-zremrangebyscore :
      (k : Text) (max : ℤ) (s : State)
      → members k (zremrangebyscore k max s) ≡ filter (λ e. not (le_int e.0 max)) (members k s)
  pub zcard_lem : (k : Text) (s : State) → zcard k s ≡ length (members k s)
  pub members-zadd :
      (k : Text) (score : ℕ) (m : Text) (s : State)
      → any (λ e. text_eq e.1 m) (members k s) ≡ false
      → members k (zadd k score m s) ≡ (score, m) ∷ members k s
  pub members-pexpire : (k : Text) (ttl : ℕ) (s : State) → members k (pexpire k ttl s) ≡ members k s

-- The arguments of `ProductCache`.
pub record CacheSettings : Type 0 where
  pub base_ttl_seconds : ℕ
  pub jitter_seconds : ℕ
  pub negative_ttl_seconds : ℕ
  pub lock_ttl_ms : ℕ

-- What `json` does: `dumps`, and `loads` of a text; `none` stands for an exception.
pub record JsonText : Type 0 where
  pub dumps : Json → Text
  pub loads : Text → Option Json

unfoldable pub key : ℕ → Text
key id = codes "product:v1:" ++ uuid_text id

unfoldable pub lock_key : ℕ → Text
lock_key id = codes "product-lock:v1:" ++ uuid_text id

unfoldable pub rate_key : Text → Text
rate_key ip = codes "public-rate:v1:" ++ ip

-- What `get` gives: nothing, an object, or `InvalidCacheValue`.
pub data Cached : Type 0 where
  absent : Cached
  invalid : Cached
  value : Fields → Cached

abbrev pub decoded : Option Json → Cached
decoded (some (obj fields)) = value fields
decoded _ = invalid

abbrev pub read : JsonText → Option Text → Cached
read j none = absent
read j (some raw) = decoded (j.loads raw)

-- An integer, as `json` writes it.
abbrev pub integer : ℕ → Json
integer n = num (record { negative = false; digits = n; places = 0 })

abbrev pub product_payload : Json → ℕ → Json
product_payload product version = obj (
    field (codes "kind") (str (codes "product"))
      (field (codes "product") product (field (codes "version") (integer version) end)))

abbrev pub missing_payload : Json
missing_payload = obj (field (codes "kind") (str (codes "missing")) end)

-- `secrets.randbelow(jitter + 1) if jitter else 0`, from a random number.
unfoldable pub jitter_of : ℕ → ℕ → ℕ
jitter_of jitter random = if jitter == 0 then 0 else random % (jitter + 1)

module _ (r : Redis) where
  unfoldable pub get_cached : JsonText → ℕ → r.State → Cached
  get_cached j id s = read j (r.get (key id) s)

  -- `put_product`, for a product with its version.
  unfoldable pub put_product : JsonText → CacheSettings → ℕ → ℕ → Json → ℕ → r.State → r.State
  unfolding jitter_of
  put_product j c random id product version s =
      r.set (key id) (j.dumps (product_payload product version))
        ((c.base_ttl_seconds + jitter_of c.jitter_seconds random) * 1000) s

  unfoldable pub put_missing : JsonText → CacheSettings → ℕ → r.State → r.State
  put_missing j c id s = r.set (key id) (j.dumps missing_payload) (c.negative_ttl_seconds * 1000) s

  unfoldable pub delete : ℕ → r.State → r.State
  delete id s = r.del (key id) s

  abbrev pub token_if : Text → Bool × r.State → Option Text × r.State
  token_if token (true, s) = (some token, s)
  token_if token (false, s) = (none, s)

  -- `token` is the random text that was drawn.
  unfoldable pub acquire_lock : CacheSettings → ℕ → Text → r.State → Option Text × r.State
  acquire_lock c id token s = token_if token (r.set_nx (lock_key id) token c.lock_ttl_ms s)

  -- `redis.call('get', KEYS[1]) == ARGV[1]`.
  abbrev pub holds : Option Text → Text → Bool
  holds none token = false
  holds (some t) token = text_eq t token

  -- `RELEASE_LOCK_LUA`.
  unfoldable pub release_lock : ℕ → Text → r.State → r.State
  release_lock id token s = if holds (r.get (lock_key id) s) token then r.del (lock_key id) s else s

  -- `RATE_LIMIT_LUA`, at a client's set of requests.
  unfoldable pub rate_limit : Text → ℕ → ℕ → ℕ → Text → r.State → (Bool × ℕ) × r.State
  rate_limit ip limit window_ms now member s =
      let k = rate_key ip in
      let s1 = r.zremrangebyscore k (sub_ℕ now window_ms) s in
      let count = r.zcard k s1 in
      if leb limit count
      then ((false, count), s1)
      else ((true, count + 1), r.pexpire k window_ms (r.zadd k now member s1))
