-- ===== src/PublicRouter/Printed.antt =====
-- An id that is printed is read back: `_uuid7` of backend/app/catalog/public_router.py.
use stockstack.Common.{
  append_assoc, append_nil, ℕ, zero, suc, ◌+◌, ◌*◌, ◌/◌, ◌%◌, ◌≡◌, ◌<◌, refl, sym, ap, ◌∙◌, Bool,
  true, false, not, some, [], ◌∷◌, ◌++◌, filter, all, length, length-append, take, drop, ◌==◌,
  arith,
}
use native.Mathlib.Nat.{mul_assoc}
use stockstack.Common.Exec.{ok}
use stockstack.Common.Text.{Text, codes, is_space, hex, hex_digit, uuid_text}
use stockstack.PublicRouter.Ids.{
  is_brace, hex_value, digits_from, unsigned, signed, int_16, parse_uuid, is_version_7, parse_uuid7,
}
use stockstack.PublicRouter.Characters.{
  all-append, all-drop, all-take, all-weaken, groups, groups-all, hex-all, is_hex, is_printed,
  remove-plain, strip_of-plain, undashed-groups,
}

grouped : Text → Text
grouped d =
    take 8 d
    ++ 45
      ∷ (take 4 (drop 8 d)
          ++ 45 ∷ (take 4 (drop 12 d) ++ 45 ∷ (take 4 (drop 16 d) ++ 45 ∷ drop 20 d)))

uuid_text-grouped : (id : ℕ) → uuid_text id ≡ grouped (hex 32 id)
unfolding uuid_text hex grouped
uuid_text-grouped id = refl

-- Without its dashes, a printed id is its digits.
undashed : (d : Text) → all is_hex d ≡ true → filter (λ c. not (c == 45)) (grouped d) ≡ d
unfolding grouped
undashed d h =
    let part = λ (n m : ℕ). all-take is_hex n (drop m d) (all-drop is_hex m d h) in
    undashed-groups (take 8 d) (take 4 (drop 8 d)) (take 4 (drop 12 d)) (take 4 (drop 16 d))
      (drop 20 d) (all-take is_hex 8 d h) (part 4 8) (part 4 12) (part 4 16)
      (all-drop is_hex 20 d h)
    ∙ (unfold groups in groups-all d)

printed-hex : (c : ℕ) → is_hex c ≡ true → is_printed c ≡ true
printed-hex c h = ground arith

all-grouped : (d : Text) → all is_hex d ≡ true → all is_printed (grouped d) ≡ true
unfolding grouped
all-grouped d h =
    let printed = all-weaken is_hex is_printed d printed-hex h in
    let part = λ (n m : ℕ). all-take is_printed n (drop m d) (all-drop is_printed m d printed) in
    rw
      (
        all-append is_printed (take 8 d) _,
        all-take is_printed 8 d printed,
        all-append is_printed (take 4 (drop 8 d)) _,
        part 4 8,
        all-append is_printed (take 4 (drop 12 d)) _,
        part 4 12,
        all-append is_printed (take 4 (drop 16 d)) _,
        part 4 16,
        all-drop is_printed 20 d printed,
      )
      refl

length-hex : (k n : ℕ) → length (hex k n) ≡ k
unfolding hex
length-hex zero n = refl
length-hex (suc k) n =
    length-append (hex k (n / 16)) (hex_digit (n % 16) ∷ []) ∙ omega (arith, length-hex k (n / 16))

-- Sixteen to a power.
unfoldable pub power : ℕ → ℕ
power zero = 1
power (suc k) = power k * 16

times_16 : (x y : ℕ) → (x + y) * 16 ≡ x * 16 + y * 16
times_16 x y = omega arith

hex_value-hex_digit : (n : ℕ) → hex_value (hex_digit (n % 16)) ≡ some (n % 16)
unfolding hex_value
hex_value-hex_digit n = ground arith

not_underscore : (n : ℕ) → (hex_digit (n % 16) == 95) ≡ false
not_underscore n = ground arith

digits_from-digit :
    (a n : ℕ) (f : Bool) (rest : Text)
    → digits_from a f (hex_digit (n % 16) ∷ rest) ≡ digits_from (a * 16 + n % 16) true rest
unfolding digits_from
digits_from-digit a n f rest = rw (hex_value-hex_digit n, not_underscore n) refl

abbrev after_some : ℕ → Bool → Bool
after_some zero f = f
after_some (suc k) f = true

digits_from-hex :
    (k n a : ℕ) (rest : Text) (f : Bool)
    → n < power k
    → digits_from a f (hex k n ++ rest) ≡ digits_from (a * power k + n) (after_some k f) rest
unfolding hex power
digits_from-hex zero n a rest f h = ap (λ i. digits_from i f rest) (omega arith)
digits_from-hex (suc k) n a rest f h =
    let d = hex_digit (n % 16) in
    let value : (a * power k + n / 16) * 16 + n % 16 ≡ a * (power k * 16) + n =
      ap (λ i. i + n % 16) (times_16 (a * power k) (n / 16))
      ∙ (ap (λ i. i + n / 16 * 16 + n % 16) (mul_assoc a (power k) 16) ∙ omega arith) in
    ap (digits_from a f) (append_assoc (hex k (n / 16)) (d ∷ []) rest)
    ∙ digits_from-hex k (n / 16) a (d ∷ rest) f (omega arith)
    ∙ digits_from-digit (a * power k + n / 16) n (after_some k f) rest
    ∙ ap (λ i. digits_from i true rest) value

signed-plain : (t : Text) → all is_hex t ≡ true → signed t ≡ digits_from 0 false t
unfolding signed unsigned
signed-plain [] h = refl
signed-plain (c ∷ []) h = ground arith
signed-plain (c ∷ d ∷ s) h = ground arith

hex-spaceless : (c : ℕ) → is_hex c ≡ true → not (is_space c) ≡ true
unfolding is_space
hex-spaceless c h = ground arith

printed-braceless : (c : ℕ) → is_printed c ≡ true → not (is_brace c) ≡ true
printed-braceless c h = ground arith

int_16-hex : (k n : ℕ) → n < power (suc k) → int_16 (hex (suc k) n) ≡ some n
unfolding int_16 digits_from
int_16-hex k n h =
    let t = hex (suc k) n in
    let hexes = hex-all (suc k) n in
    ap signed
      (strip_of-plain is_space t (all-weaken is_hex (λ c. not (is_space c)) t hex-spaceless hexes))
    ∙ signed-plain t hexes
    ∙ ap (digits_from 0 false) (sym (append_nil t))
    ∙ digits_from-hex (suc k) n 0 [] false h
    ∙ ap some (omega arith)

parse_uuid-uuid_text : (id : ℕ) → id < power 32 → parse_uuid (uuid_text id) ≡ some id
unfolding parse_uuid
parse_uuid-uuid_text id h =
    let d = hex 32 id in
    let hexes = hex-all 32 id in
    let printed = all-grouped d hexes in
    let braceless =
      all-weaken is_printed (λ c. not (is_brace c)) (grouped d) printed-braceless printed in
    rw
      (
        uuid_text-grouped id,
        remove-plain 117 (codes "rn:") (grouped d) refl printed,
        remove-plain 117 (codes "uid:") (grouped d) refl printed,
        strip_of-plain is_brace (grouped d) braceless,
        undashed d hexes,
        length-hex 32 id,
      )
      (int_16-hex 31 id h)

-- The text of an id of version 7 is read as that id.
pub parse_uuid7-uuid_text :
    (id : ℕ) → id < power 32 → is_version_7 id ≡ true → parse_uuid7 (uuid_text id) ≡ ok id
unfolding parse_uuid7
parse_uuid7-uuid_text id h seven = rw (parse_uuid-uuid_text id h, seven) refl
