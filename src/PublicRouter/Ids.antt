-- ===== src/PublicRouter/Ids.antt =====
-- `_uuid7` of backend/app/catalog/public_router.py, with `UUID(value)` and `int(text, 16)` of the
-- standard library; of the digits beyond ASCII that `int` reads, none is read here.
use stockstack.Common.{
  ℕ, zero, suc, ◌+◌, ◌-◌, ◌*◌, ◌/◌, ◌%◌, Bool, true, false, not, ◌&&◌, ◌||◌, Option, none, some, [],
  ◌∷◌, filter, length, leb, ◌==◌, is_some, if◌then◌else◌,
}
use stockstack.Common.Exec.{Result, ok, raise}
use stockstack.Common.Text.{Text, codes, starts_with, is_space}
use stockstack.Errors.{AppError, app_error}

-- `s.replace(p, "")`, where as many characters are left out as a number says.
unfoldable pub remove_from : ℕ → Text → Text → Text
remove_from skipped p [] = []
remove_from (suc skipped) p (c ∷ s) = remove_from skipped p s
remove_from zero p (c ∷ s) =
    let here = starts_with p (c ∷ s) in
    let rest = remove_from (if here then length p - 1 else 0) p s in if here then rest else c ∷ rest

unfoldable pub remove : Text → Text → Text
unfolding remove_from
remove = remove_from 0

abbrev unless_empty : Bool → ℕ → Text → Text
unless_empty true c [] = []
unless_empty _ c rest = c ∷ rest

-- `s.rstrip(…)` and `s.strip(…)`, of the characters with a property.
unfoldable pub strip_end : (ℕ → Bool) → Text → Text
strip_end out [] = []
strip_end out (c ∷ s) = unless_empty (out c) c (strip_end out s)

unfoldable pub strip_of : (ℕ → Bool) → Text → Text
unfolding strip_end
strip_of out [] = []
strip_of out (c ∷ s) = let rest = strip_of out s in if out c then rest else strip_end out (c ∷ s)

abbrev pub is_brace : ℕ → Bool
is_brace c = c == 123 || c == 125

-- The value of a hexadecimal digit.
unfoldable pub hex_value : ℕ → Option ℕ
hex_value c =
    if leb 48 c && leb c 57
    then some (c - 48)
    else if leb 97 c && leb c 102
    then some (c - 87)
    else if leb 65 c && leb c 70
    then some (c - 55)
    else none

abbrev or_zero : Option ℕ → ℕ
or_zero none = 0
or_zero (some d) = d

-- Digits, with single underscores between them; `after_digit` says whether one stands before.
unfoldable pub digits_from : ℕ → Bool → Text → Option ℕ
unfolding hex_value
digits_from n after_digit [] = if after_digit then some n else none
digits_from n after_digit (c ∷ s) =
    let d = hex_value c in
    let rest = digits_from (if c == 95 then n else n * 16 + or_zero d) (not (c == 95)) s in
    if (if c == 95 then after_digit else is_some d) then rest else none

-- One underscore may follow the prefix.
abbrev after_prefix : Text → Option ℕ
after_prefix [] = none
after_prefix (c ∷ s) = if c == 95 then digits_from 0 false s else digits_from 0 false (c ∷ s)

unfoldable pub unsigned : Text → Option ℕ
unfolding digits_from
unsigned (c ∷ d ∷ s) =
    if c == 48 && (d == 120 || d == 88) then after_prefix s else digits_from 0 false (c ∷ d ∷ s)
unsigned s = digits_from 0 false s

-- `UUID` refuses a number below zero.
abbrev negated : Option ℕ → Option ℕ
negated (some zero) = some 0
negated _ = none

unfoldable pub signed : Text → Option ℕ
unfolding unsigned
signed [] = none
signed (c ∷ s) =
    if c == 43 then unsigned s else if c == 45 then negated (unsigned s) else unsigned (c ∷ s)

-- `int(text, 16)`.
unfoldable pub int_16 : Text → Option ℕ
unfolding signed strip_of
int_16 s = signed (strip_of is_space s)

-- `UUID(value)`.
unfoldable pub parse_uuid : Text → Option ℕ
unfolding remove strip_of int_16
parse_uuid value =
    let digits =
      filter (λ c. not (c == 45))
        (strip_of is_brace (remove (codes "uuid:") (remove (codes "urn:") value))) in
    if length digits == 32 then int_16 digits else none

-- `parsed.version == 7`: a version is read only of the variant of RFC 4122.
unfoldable pub is_version_7 : ℕ → Bool
is_version_7 id = (id / 0x4000000000000000) % 4 == 2 && (id / 0x10000000000000000000) % 16 == 7

abbrev pub id_error : AppError
id_error = app_error "validation_error" "Product id must be a UUIDv7" 400

abbrev version_checked : Option ℕ → Result AppError ℕ
version_checked none = raise id_error
version_checked (some id) = if is_version_7 id then ok id else raise id_error

-- `_uuid7`.
unfoldable pub parse_uuid7 : Text → Result AppError ℕ
unfolding parse_uuid is_version_7
parse_uuid7 value = version_checked (parse_uuid value)
