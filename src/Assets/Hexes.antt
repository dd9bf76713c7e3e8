-- ===== src/Assets/Hexes.antt =====
-- The last digits of a number's hexadecimal text, as shiftRightAndCast of utils.ts takes them.
use nouns_monorepo.Prelude.{
  ℕ, zero, suc, ◌+◌, ◌*◌, ◌/◌, ◌%◌, ◌≤◌, ◌<◌, ◌≡◌, refl, Bool, true, false, ◌&&◌, [], ◌∷◌, ◌++◌,
  if◌then◌else◌, ltb, leb, ◌==◌, none, some, Option, arith, ap, sym, ◌∙◌, length, length-append,
  drop, Bool-cases, inl, inr,
}
use mathlib.Core.List.{append_assoc, append-nil}
use nouns_monorepo.Sdk.Text.{Text}
use nouns_monorepo.Sdk.Hex.{hex_digit, to_hex_fuel, to_hex, parse_digits, digit_value}
use nouns_monorepo.Sdk.Hex.RoundTrip.{
  digit_value-hex_digit, parse_digits-hex_digit, parse_digits-more,
}

-- The text that big numbers print: two digits for each byte.
unfoldable pub even_hex : ℕ → Text
unfolding to_hex
even_hex n = if length (to_hex n) % 2 == 1 then b'0' ∷ to_hex n else to_hex n

-- The last `w` digits
unfoldable pub digits : ℕ → ℕ → Text
unfolding hex_digit
digits zero n = []
digits (suc w) n = digits w (n / 16) ++ hex_digit (n % 16) ∷ []

length-digits : (w n : ℕ) → length (digits w n) ≡ w
unfolding digits
length-digits zero n = refl
length-digits (suc w) n =
    omega
      (arith, length-append (digits w (n / 16)) (hex_digit (n % 16) ∷ []), length-digits w (n / 16))

-- The number without its last `w` digits
abbrev shifted : ℕ → ℕ → ℕ
shifted zero n = n
shifted (suc w) n = shifted w (n / 16)

digits-append : (a w n : ℕ) → digits (a + w) n ≡ digits a (shifted w n) ++ digits w n
unfolding digits
digits-append a zero n = let e : a + 0 ≡ a = omega arith in rw e (sym (append-nil (digits a n)))
digits-append a (suc w) n =
    let e : a + suc w ≡ suc (a + w) = omega arith in
    rw (e, digits, digits-append a w (n / 16))
      (append_assoc (digits a (shifted w (n / 16))) (digits w (n / 16)) (hex_digit (n % 16) ∷ []))

drop-append : (t u : Text) → drop (length t) (t ++ u) ≡ u
drop-append [] u = refl
drop-append (c ∷ t) u = drop-append t u

pub drop-digits : (a w n : ℕ) → drop a (digits (a + w) n) ≡ digits w n
drop-digits a w n = rw (digits-append a w n) (
    ap (λ k. drop k (digits a (shifted w n) ++ digits w n)) (sym (length-digits a (shifted w n)))
    ∙ drop-append (digits a (shifted w n)) (digits w n))

-- The number's digits are its last ones, as many as there are.
to_hex_fuel-digits : (f n : ℕ) → n ≤ f → to_hex_fuel f n ≡ digits (length (to_hex_fuel f n)) n
unfolding to_hex_fuel digits
to_hex_fuel-digits zero n h = refl
to_hex_fuel-digits (suc f) n h = elim (Bool-cases (ltb n 16)) [
  | inl small ↦ let e : n % 16 ≡ n = ground (arith, small) in rw (small, e) refl
  | inr large ↦
      let more : Text = to_hex_fuel f (n / 16) in
      let e : length (more ++ hex_digit (n % 16) ∷ []) ≡ suc (length more) =
        omega (arith, length-append more (hex_digit (n % 16) ∷ [])) in
      rw (large, e, digits)
        (ap (λ t. t ++ hex_digit (n % 16) ∷ [])
          (to_hex_fuel-digits f (n / 16) (ground (arith, large))))
]

-- The value of the last `w` digits
abbrev pub cast : ℕ → ℕ → ℕ
cast zero n = 0
cast (suc w) n = cast w (n / 16) * 16 + n % 16

parse_digits-digits_more :
    (w n : ℕ) (t : Text)
    → parse_digits none (digits (suc w) n ++ t) ≡ parse_digits (some (cast (suc w) n)) t
unfolding digits
parse_digits-digits_more zero n t =
    parse_digits-hex_digit (n % 16) t (omega arith)
    ∙ ap (λ k. parse_digits (some k) t) (omega arith)
parse_digits-digits_more (suc w) n t =
    rw
      (
        digits,
        append_assoc (digits (suc w) (n / 16)) (hex_digit (n % 16) ∷ []) t,
        parse_digits-digits_more w (n / 16) (hex_digit (n % 16) ∷ t),
      )
      (parse_digits-more (cast (suc w) (n / 16)) (n % 16) t (omega arith))

pub parse_digits-digits : (w n : ℕ) → parse_digits none (digits (suc w) n) ≡ some (cast (suc w) n)
unfolding parse_digits
parse_digits-digits w n =
    ap (parse_digits none) (sym (append-nil (digits (suc w) n))) ∙ parse_digits-digits_more w n []

abbrev pub is_there : Option ℕ → Bool
is_there none = false
is_there (some d) = true

abbrev pub is_digit : ℕ → Bool
is_digit c = is_there (digit_value c)

-- Every character is a hexadecimal digit.
abbrev pub is_hex : Text → Bool
is_hex [] = true
is_hex (c ∷ t) = is_digit c && is_hex t

is_hex-append : (t u : Text) → is_hex (t ++ u) ≡ (is_hex t && is_hex u)
is_hex-append [] u = refl
is_hex-append (c ∷ t) u = ground (arith, is_hex-append t u)

pub is_hex-digits : (w n : ℕ) → is_hex (digits w n) ≡ true
unfolding digits
is_hex-digits zero n = refl
is_hex-digits (suc w) n =
    rw
      (
        digits,
        is_hex-append (digits w (n / 16)) (hex_digit (n % 16) ∷ []),
        is_hex-digits w (n / 16),
      )
      (ap (λ r. is_there r && true) (digit_value-hex_digit (n % 16) (omega arith)))

shifted_zero : (w : ℕ) → shifted w 0 ≡ 0
shifted_zero zero = refl
shifted_zero (suc w) = shifted_zero w

shifted_more : (w v n : ℕ) → shifted w n ≡ 0 → w ≤ v → shifted v n ≡ 0
shifted_more zero v n z l = rw z (shifted_zero v)
shifted_more (suc w) zero n z l = absurd (omega arith)
shifted_more (suc w) (suc v) n z l = shifted_more w v (n / 16) z (omega arith)

length_suc : (t : Text) (c : ℕ) → length (t ++ c ∷ []) ≡ suc (length t)
length_suc t c = omega (arith, length-append t (c ∷ []))

shifted-length : (f n : ℕ) → n ≤ f → shifted (length (to_hex_fuel f n)) n ≡ 0
unfolding to_hex_fuel
shifted-length zero n h = omega arith
shifted-length (suc f) n h = elim (Bool-cases (ltb n 16)) [
  | inl small ↦ rw small (let l : n / 16 ≡ 0 = ground (arith, small) in l)
  | inr large ↦
      rw (large, length_suc (to_hex_fuel f (n / 16)) (hex_digit (n % 16)))
        (shifted-length f (n / 16) (ground (arith, large)))
]

length-to_hex_fuel : (f w n : ℕ) → shifted (suc w) n ≡ 0 → length (to_hex_fuel f n) ≤ suc w
unfolding to_hex_fuel
length-to_hex_fuel zero w n z = omega arith
length-to_hex_fuel (suc f) zero n z =
    let s : ltb n 16 ≡ true = ground (arith, z) in rw s (omega arith)
length-to_hex_fuel (suc f) (suc w) n z = elim (Bool-cases (ltb n 16)) [
  | inl small ↦ rw small (omega arith)
  | inr large ↦
      rw (large, length_suc (to_hex_fuel f (n / 16)) (hex_digit (n % 16)))
        (omega (arith, length-to_hex_fuel f w (n / 16) z))
]

-- The even text
to_hex-digits : (n : ℕ) → to_hex n ≡ digits (length (to_hex n)) n
unfolding to_hex
to_hex-digits n = to_hex_fuel-digits n n (omega arith)

zero_digits : (w n : ℕ) → shifted w n ≡ 0 → digits (suc w) n ≡ b'0' ∷ digits w n
unfolding digits hex_digit
zero_digits w n z =
    let e : suc w ≡ 1 + w = omega arith in
    ap (λ k. digits k n) e ∙ digits-append 1 w n ∙ ap (λ k. digits 1 k ++ digits w n) z

pub even_hex-digits : (n : ℕ) → even_hex n ≡ digits (length (even_hex n)) n
unfolding even_hex to_hex
even_hex-digits n = elim (Bool-cases (length (to_hex n) % 2 == 1)) [
  | inl odd ↦ rw (odd) (
      ap (λ t. b'0' ∷ t) (to_hex-digits n)
      ∙ sym (zero_digits (length (to_hex n)) n (shifted-length n n (omega arith))))
  | inr even ↦ rw even (to_hex-digits n)
]

pub length-even_hex_large : (n : ℕ) → 1 ≤ shifted 10 n → 12 ≤ length (even_hex n)
unfolding even_hex to_hex
length-even_hex_large n h = elim (Bool-cases (leb 11 (length (to_hex n)))) [
  | inl large ↦ ground (arith, large)
  | inr small ↦
      let z : shifted 10 n ≡ 0 =
        shifted_more (length (to_hex n)) 10 n (shifted-length n n (omega arith))
          (ground (arith, small)) in
      absurd (omega (arith, h, z))
]

pub length-even_hex_small : (n : ℕ) → shifted 10 n ≡ 0 → length (even_hex n) ≤ 10
unfolding even_hex to_hex
length-even_hex_small n z = ground (arith, length-to_hex_fuel n 9 n z)

pub cast_lem : (n : ℕ) → cast 12 n ≡ n % 281474976710656
cast_lem n = omega arith

pub shifted_large : (n : ℕ) → 1099511627776 ≤ n → 1 ≤ shifted 10 n
shifted_large n h = omega arith

pub shifted_small : (n : ℕ) → n < 1099511627776 → shifted 10 n ≡ 0
shifted_small n h = omega arith
