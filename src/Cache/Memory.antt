-- ===== src/Cache/Memory.antt =====
-- A Redis in memory, where the laws of the commands hold. Nothing in it expires by itself.
use stockstack.Common.{
  ℕ, refl, Bool, true, false, not, Option, none, some, List, [], ◌∷◌, filter, any, length,
  if◌then◌else◌,
}
use stockstack.Common.Int.{le_int}
use stockstack.Common.Text.{Text, text_eq, text_eq_refl}
use stockstack.Cache.{Redis}

pub record Memory : Type 0 where
  pub strings : Text → Option Text
  pub sets : Text → List (ℕ × Text)

abbrev put : {A : Type 0} → Text → A → (Text → A) → Text → A
put k a f j = if text_eq k j then a else f j

abbrev set_if_free : Option Text → Text → Text → Memory → Bool × Memory
set_if_free none k v s = (true, record s { strings = put k (some v) s.strings })
set_if_free (some w) k v s = (false, s)

abbrev with_member : ℕ → Text → List (ℕ × Text) → List (ℕ × Text)
with_member score m entries =
    (score, m)
    ∷ (if any (λ e. text_eq e.1 m) entries
        then filter (λ e. not (text_eq e.1 m)) entries
        else entries)

abbrev pub memory : Redis
memory = record {
  State = Memory;
  get = λ k s. s.strings k;
  set = λ k v ttl s. record s { strings = put k (some v) s.strings };
  set_nx = λ k v ttl s. set_if_free (s.strings k) k v s;
  del = λ k s. record s { strings = put k none s.strings };
  members = λ k s. s.sets k;
  zremrangebyscore =
      λ k max s. record s { sets = put k (filter (λ e. not (le_int e.0 max)) (s.sets k)) s.sets };
  zcard = λ k s. length (s.sets k);
  zadd = λ k score m s. record s { sets = put k (with_member score m (s.sets k)) s.sets };
  pexpire = λ k ttl s. s;
  get-set = λ k j v ttl s. refl;
  get-del = λ k j s. refl;
  set_nx-free = λ k v ttl s free. rw free;
  set_nx-held = λ k v w ttl s held. rw held;
  members-zremrangebyscore = λ k max s. rw (text_eq_refl k);
  zcard_lem = λ k s. refl;
  members-zadd = λ k score m s new. rw (text_eq_refl k, new);
  members-pexpire = λ k ttl s. refl;
}

abbrev pub empty_memory : Memory
empty_memory = record { strings = λ k. none; sets = λ k. [] }
