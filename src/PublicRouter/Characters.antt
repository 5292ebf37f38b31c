-- ===== src/PublicRouter/Characters.antt =====
-- The characters of a printed id, and what is left of it without some of them.
use stockstack.Common.{
  ℕ, zero, suc, ◌+◌, ◌/◌, ◌%◌, ◌≡◌, refl, sym, ap, ◌∙◌, Bool, true, false, not, ◌&&◌, ◌||◌, [], ◌∷◌,
  ◌++◌, filter, all, take, drop, leb, ◌==◌, arith,
}
use stockstack.Common.Text.{Text, hex, hex_digit}
use stockstack.PublicRouter.Ids.{remove_from, remove, strip_end, strip_of}

-- The characters of a printed number, and those of a printed id.
abbrev pub is_hex : ℕ → Bool
is_hex c = (leb 48 c && leb c 57) || (leb 97 c && leb c 102)

abbrev pub is_printed : ℕ → Bool
is_printed c = is_hex c || c == 45

module _ (p : ℕ → Bool) where
  pub all-append : (xs ys : Text) → all p (xs ++ ys) ≡ (all p xs && all p ys)
  all-append [] ys = refl
  all-append (x ∷ xs) ys = ground (arith, all-append xs ys)

  pub all-take : (n : ℕ) (xs : Text) → all p xs ≡ true → all p (take n xs) ≡ true
  all-take zero xs h = refl
  all-take (suc n) [] h = refl
  all-take (suc n) (x ∷ xs) h = ground (arith, all-take n xs)

  pub all-drop : (n : ℕ) (xs : Text) → all p xs ≡ true → all p (drop n xs) ≡ true
  all-drop zero xs h = h
  all-drop (suc n) [] h = refl
  all-drop (suc n) (x ∷ xs) h = ground (arith, all-drop n xs)

pub all-weaken :
    (p q : ℕ → Bool) (xs : Text)
    → ((c : ℕ) → p c ≡ true → q c ≡ true)
    → all p xs ≡ true
    → all q xs ≡ true
all-weaken p q [] f h = refl
all-weaken p q (x ∷ xs) f h = ground (arith, f x, all-weaken p q xs f)

pub hex_digit-hex : (n : ℕ) → is_hex (hex_digit (n % 16)) ≡ true
hex_digit-hex n = ground arith

pub hex-all : (k n : ℕ) → all is_hex (hex k n) ≡ true
unfolding hex
hex-all zero n = refl
hex-all (suc k) n =
    rw
      (
        all-append is_hex (hex k (n / 16)) (hex_digit (n % 16) ∷ []),
        hex-all k (n / 16),
        hex_digit-hex n,
      )
      refl

-- What is left out is not there.
pub remove-plain :
    (c : ℕ) (p s : Text) → is_printed c ≡ false → all is_printed s ≡ true → remove (c ∷ p) s ≡ s
unfolding remove remove_from
remove-plain c p [] other h = refl
remove-plain c p (d ∷ s) other h = ground (arith, remove-plain c p s other)

pub strip_end-plain :
    (out : ℕ → Bool) (s : Text) → all (λ c. not (out c)) s ≡ true → strip_end out s ≡ s
unfolding strip_end
strip_end-plain out [] h = refl
strip_end-plain out (c ∷ s) h = ground (arith, strip_end-plain out s)

pub strip_of-plain :
    (out : ℕ → Bool) (s : Text) → all (λ c. not (out c)) s ≡ true → strip_of out s ≡ s
unfolding strip_of
strip_of-plain out [] h = refl
strip_of-plain out (c ∷ s) h = ground (arith, strip_end-plain out (c ∷ s))

-- A dash is no digit.
pub filter-append : (p : ℕ → Bool) (xs ys : Text) → filter p (xs ++ ys) ≡ filter p xs ++ filter p ys
filter-append p [] ys = refl
filter-append p (x ∷ xs) ys = ground (arith, filter-append p xs ys)

pub filter-plain : (s : Text) → all is_hex s ≡ true → filter (λ c. not (c == 45)) s ≡ s
filter-plain [] h = refl
filter-plain (c ∷ s) h = ground (arith, filter-plain s)

pub take-drop : (n : ℕ) (xs : Text) → take n xs ++ drop n xs ≡ xs
take-drop zero xs = refl
take-drop (suc n) [] = refl
take-drop (suc n) (x ∷ xs) = ap (λ t. x ∷ t) (take-drop n xs)

drop-nil : (n : ℕ) → drop {A = ℕ} n [] ≡ []
drop-nil zero = refl
drop-nil (suc n) = refl

drop-drop : (m n : ℕ) (xs : Text) → drop n (drop m xs) ≡ drop (m + n) xs
drop-drop zero n xs = ap (λ k. drop k xs) (omega arith)
drop-drop (suc m) n [] = drop-nil n ∙ sym (drop-nil (suc m + n))
drop-drop (suc m) n (x ∷ xs) = drop-drop m n xs ∙ ap (λ k. drop k (x ∷ xs)) (the_suc m n)
  where
    the_suc : (m n : ℕ) → suc (m + n) ≡ suc m + n
    the_suc m n = omega arith

-- The groups of a printed id, put together again.
unfoldable pub groups : Text → Text
groups d =
    take 8 d ++ (take 4 (drop 8 d) ++ (take 4 (drop 12 d) ++ (take 4 (drop 16 d) ++ drop 20 d)))

pub groups-all : (d : Text) → groups d ≡ d
unfolding groups
groups-all d =
    ap (λ t. take 8 d ++ (take 4 (drop 8 d) ++ (take 4 (drop 12 d) ++ t))) (piece 16 4 20 refl)
    ∙ ap (λ t. take 8 d ++ (take 4 (drop 8 d) ++ t)) (piece 12 4 16 refl)
    ∙ ap (λ t. take 8 d ++ t) (piece 8 4 12 refl)
    ∙ take-drop 8 d
  where
    piece : (m n k : ℕ) → m + n ≡ k → take n (drop m d) ++ drop k d ≡ drop m d
    piece m n k e =
        ap (λ t. take n (drop m d) ++ t) (ap (λ i. drop i d) (sym e) ∙ sym (drop-drop m n d))
        ∙ take-drop n (drop m d)

filter-dash :
    (s t : Text)
    → all is_hex s ≡ true
    → filter (λ c. not (c == 45)) (s ++ 45 ∷ t) ≡ s ++ filter (λ c. not (c == 45)) t
filter-dash s t h =
    filter-append (λ c. not (c == 45)) s (45 ∷ t)
    ∙ ap (λ u. u ++ filter (λ c. not (c == 45)) t) (filter-plain s h)

pub undashed-groups :
    (a b c d e : Text)
    → all is_hex a ≡ true
    → all is_hex b ≡ true
    → all is_hex c ≡ true
    → all is_hex d ≡ true
    → all is_hex e ≡ true
    → filter (λ c. not (c == 45)) (a ++ 45 ∷ (b ++ 45 ∷ (c ++ 45 ∷ (d ++ 45 ∷ e))))
      ≡ a ++ (b ++ (c ++ (d ++ e)))
undashed-groups a b c d e ha hb hc hd he =
    filter-dash a (b ++ 45 ∷ (c ++ 45 ∷ (d ++ 45 ∷ e))) ha
    ∙ ap (λ t. a ++ t)
        (filter-dash b (c ++ 45 ∷ (d ++ 45 ∷ e)) hb
          ∙ ap (λ t. b ++ t)
              (filter-dash c (d ++ 45 ∷ e) hc
                ∙ ap (λ t. c ++ t) (filter-dash d e hd ∙ ap (λ t. d ++ t) (filter-plain e he))))
