-- ===== src/FieldSchema/Url.antt =====
-- The format `http-url` of backend/app/catalog/field_schema.py: what is tested of a text before and
-- after pydantic reads it. `parse` is `TypeAdapter(HttpUrl)`, or none where it raises.
use stockstack.Common.{
  ℕ, zero, suc, ◌+◌, Bool, false, not, ◌&&◌, ◌||◌, Option, none, some, List, [], ◌∷◌, any, all, leb,
  ◌==◌, if◌then◌else◌, is_some,
}
use stockstack.Common.Text.{Text, codes, text_eq, starts_with, is_space}
use stockstack.Json.{Json, str}

abbrev pub is_alnum : ℕ → Bool
is_alnum c = (leb 48 c && leb c 57) || (leb 65 c && leb c 90) || (leb 97 c && leb c 122)

abbrev pub is_label_char : ℕ → Bool
is_label_char c = is_alnum c || c == 45

-- `[A-Za-z0-9-]{0,n}[A-Za-z0-9]`, to the end.
unfoldable pub label_end : ℕ → Text → Bool
label_end n [] = false
label_end n (c ∷ []) = is_alnum c
label_end zero (c ∷ d ∷ s) = false
label_end (suc n) (c ∷ d ∷ s) = is_label_char c && label_end n (d ∷ s)

-- `_HOST_LABEL.fullmatch`.
unfoldable pub is_label : Text → Bool
unfolding label_end
is_label [] = false
is_label (c ∷ []) = is_alnum c
is_label (c ∷ d ∷ s) = is_alnum c && label_end 61 (d ∷ s)

abbrev grow_first : ℕ → List Text → List Text
grow_first c [] = (c ∷ []) ∷ []
grow_first c (part ∷ parts) = (c ∷ part) ∷ parts

-- `s.split(".")`.
unfoldable pub split_dots : Text → List Text
split_dots [] = [] ∷ []
split_dots (c ∷ s) = let rest = split_dots s in if c == 46 then [] ∷ rest else grow_first c rest

-- `s.endswith(c)`, of one character.
unfoldable pub ends_with : ℕ → Text → Bool
ends_with c [] = false
ends_with c (d ∷ []) = d == c
ends_with c (d ∷ e ∷ s) = ends_with c (e ∷ s)

-- `s.removesuffix(".")`.
unfoldable pub without_dot : Text → Text
without_dot [] = []
without_dot (c ∷ []) = if c == 46 then [] else c ∷ []
without_dot (c ∷ d ∷ s) = c ∷ without_dot (d ∷ s)

-- `_has_valid_host_labels`; a split has at least one part.
unfoldable pub has_valid_host_labels : Text → Bool
unfolding is_label split_dots ends_with without_dot
has_valid_host_labels host =
    (starts_with (codes "[") host && ends_with 93 host)
    || all is_label (split_dots (without_dot host))

abbrev is_letter : ℕ → ℕ → Bool
is_letter c d = d == c || d + 32 == c

-- `://`, after which the rest is of interest.
abbrev after_slashes : Text → Option Text
after_slashes (a ∷ b ∷ c ∷ s) = if a == 58 && b == 47 && c == 47 then some s else none
after_slashes s = none

abbrev after_http : Text → Option Text
after_http [] = none
after_http (c ∷ s) =
    if is_letter 115 c || c == 0x17f then after_slashes s else after_slashes (c ∷ s)

-- `^https?://`, where case does not matter, so that the long s is one.
unfoldable pub after_scheme : Text → Option Text
after_scheme (a ∷ b ∷ c ∷ d ∷ s) =
    if is_letter 104 a && is_letter 116 b && is_letter 116 c && is_letter 112 d
    then after_http s
    else none
after_scheme s = none

abbrev pub ends_authority : ℕ → Bool
ends_authority c = c == 47 || c == 63 || c == 35

-- `[^/?#]*`.
unfoldable pub authority_of : Text → Text
authority_of [] = []
authority_of (c ∷ s) = let rest = authority_of s in if ends_authority c then [] else c ∷ rest

-- `s.rsplit("@", 1)[-1]`.
unfoldable pub after_at : Text → Text
after_at [] = []
after_at (c ∷ s) =
    let rest = after_at s in if any (λ d. d == 64) s then rest else if c == 64 then s else c ∷ s

-- What follows the first `]`, if there is one.
unfoldable pub after_bracket : Text → Option Text
after_bracket [] = none
after_bracket (c ∷ s) = let rest = after_bracket s in if c == 93 then some s else rest

abbrev is_colon : Option Text → Bool
is_colon none = false
is_colon (some s) = text_eq s (codes ":")

abbrev pub ends_in_port : Text → Bool
ends_in_port a = if starts_with (codes "[") a then is_colon (after_bracket a) else ends_with 58 a

abbrev pub empty_port : Option Text → Bool
empty_port none = false
empty_port (some s) = ends_in_port (after_at (authority_of s))

-- `_has_empty_port`.
unfoldable pub has_empty_port : Text → Bool
unfolding after_scheme authority_of after_at after_bracket ends_with
has_empty_port value = empty_port (after_scheme value)

abbrev is_hex_digit : ℕ → Bool
is_hex_digit c = (leb 48 c && leb c 57) || (leb 65 c && leb c 70) || (leb 97 c && leb c 102)

abbrev two_hex : Text → Bool
two_hex (c ∷ d ∷ s) = is_hex_digit c && is_hex_digit d
two_hex s = false

-- `re.search(r"%(?![0-9A-Fa-f]{2})", value)`.
unfoldable pub has_bad_escape : Text → Bool
has_bad_escape [] = false
has_bad_escape (c ∷ s) = (c == 37 && not (two_hex s)) || has_bad_escape s

-- The category `Cc`.
abbrev is_control : ℕ → Bool
is_control c = leb c 31 || (leb 127 c && leb c 159)

-- What pydantic reads of a URL.
pub record ParsedUrl : Type 0 where
  pub username : Option Text
  pub password : Option Text
  pub host : Text

abbrev accepted_url : Option ParsedUrl → Bool
accepted_url none = false
accepted_url (some u) =
    not (is_some u.username) && not (is_some u.password) && has_valid_host_labels u.host

-- `_is_http_url`.
unfoldable pub is_http_url : (Text → Option ParsedUrl) → Json → Bool
unfolding is_space has_bad_escape has_empty_port has_valid_host_labels
is_http_url parse (str value) =
    not (any (λ c. is_space c || is_control c) value)
    && not (any (λ c. c == 92) value || has_bad_escape value)
    && not (has_empty_port value)
    && accepted_url (parse value)
is_http_url parse _ = false
