-- ===== src/Sdk/Hex/RoundTrip.antt =====
-- What `toString(16)`, padded as utils.ts does, and `parseInt(text, 16)` do to one another.
use nouns_monorepo.Prelude.{
  ℕ, suc, zero, ◌+◌, ◌*◌, ◌/◌, ◌%◌, ◌≤◌, ◌<◌, ◌≡◌, refl, false, ◌||◌, [], ◌∷◌, ◌++◌, ltb, ◌==◌,
  none, some, arith, ap, sym, ◌∙◌, Bool-cases, inl, inr,
}
use mathlib.Core.List.{append_assoc, append-nil}
use nouns_monorepo.Sdk.Text.{Text}
use nouns_monorepo.Sdk.Hex.{
  hex_digit, to_hex_fuel, to_hex, to_padded_hex, digit_value, parse_digits, parse_int16,
}

pub digit_value-hex_digit : (d : ℕ) → d < 16 → digit_value (hex_digit d) ≡ some d
unfolding digit_value hex_digit
digit_value-hex_digit d h = ground arith

pub parse_digits-hex_digit :
    (d : ℕ) (t : Text) → d < 16 → parse_digits none (hex_digit d ∷ t) ≡ parse_digits (some d) t
unfolding parse_digits
parse_digits-hex_digit d t h = rw (digit_value-hex_digit d h, parse_digits)

pub parse_digits-more :
    (a d : ℕ) (t : Text)
    → d < 16
    → parse_digits (some a) (hex_digit d ∷ t) ≡ parse_digits (some (a * 16 + d)) t
unfolding parse_digits
parse_digits-more a d t h = rw (digit_value-hex_digit d h, parse_digits)

-- With at least `n` rounds of fuel all digits of `n` are there.
parse_digits-to_hex_fuel :
    (f n : ℕ) (t : Text)
    → n ≤ f
    → parse_digits none (to_hex_fuel f n ++ t) ≡ parse_digits (some n) t
unfolding to_hex_fuel
parse_digits-to_hex_fuel zero n t h =
    let e : n ≡ 0 = omega arith in rw e (parse_digits-hex_digit 0 t (omega arith))
parse_digits-to_hex_fuel (suc f) n t h = elim (Bool-cases (ltb n 16)) [
  | inl small ↦ rw small (parse_digits-hex_digit n t (ground arith))
  | inr large ↦
      rw (large, append_assoc)
        (parse_digits-to_hex_fuel f (n / 16) (hex_digit (n % 16) ∷ t) (ground arith)
          ∙ parse_digits-more (n / 16) (n % 16) t (omega arith)
          ∙ ap (λ k. parse_digits (some k) t) (omega arith))
]

-- The digits of every number are read back as that number.
pub parse_digits-to_hex : (n : ℕ) → parse_digits none (to_hex n) ≡ some n
unfolding to_hex parse_digits
parse_digits-to_hex n =
    ap (parse_digits none) (sym (append-nil (to_hex_fuel n n)))
    ∙ parse_digits-to_hex_fuel n n [] (omega arith)

to_hex_fuel_one : (f n : ℕ) → n < 16 → to_hex_fuel f n ≡ hex_digit n ∷ []
unfolding to_hex_fuel
to_hex_fuel_one zero n h = ap (λ k. hex_digit k ∷ []) (omega arith)
to_hex_fuel_one (suc f) n h = ground arith

to_hex_fuel_two :
    (f n : ℕ)
    → 16 ≤ n
    → n < 256
    → n ≤ f
    → to_hex_fuel f n ≡ hex_digit (n / 16) ∷ hex_digit (n % 16) ∷ []
unfolding to_hex_fuel
to_hex_fuel_two zero n l h m = absurd (omega arith)
to_hex_fuel_two (suc f) n l h m = ground (arith, to_hex_fuel_one f (n / 16) (omega arith))

one_digit :
    (n : ℕ) → n < 16 → b'0' ∷ hex_digit n ∷ [] ≡ hex_digit (n / 16) ∷ hex_digit (n % 16) ∷ []
unfolding hex_digit
one_digit n h = let q : n / 16 ≡ 0 = omega arith in let r : n % 16 ≡ n = omega arith in rw (q, r)

-- A byte has two digits.
pub to_padded_hex_byte :
    (n : ℕ) → n < 256 → to_padded_hex n 2 ≡ hex_digit (n / 16) ∷ hex_digit (n % 16) ∷ []
unfolding to_padded_hex to_hex
to_padded_hex_byte n h = elim (Bool-cases (ltb n 16)) [
  | inl small ↦ rw (to_hex_fuel_one n n (ground arith)) (one_digit n (ground arith))
  | inr large ↦ rw (to_hex_fuel_two n n (ground arith) h (omega arith)) refl
]

hex_digit_not_x : (d : ℕ) → d < 16 → (hex_digit d == b'x' || hex_digit d == b'X') ≡ false
unfolding hex_digit
hex_digit_not_x d h = ground arith

parse_digits_nil : (n : ℕ) → parse_digits (some n) [] ≡ some n
unfolding parse_digits
parse_digits_nil n = refl

-- A byte that is printed with two digits is read back.
pub parse_int16-byte : (n : ℕ) → n < 256 → parse_int16 (to_padded_hex n 2) ≡ some n
unfolding parse_int16
parse_int16-byte n h = rw (to_padded_hex_byte n h) (
    ground (
      arith,
      hex_digit_not_x (n % 16) (omega arith),
      parse_digits-hex_digit (n / 16) (hex_digit (n % 16) ∷ []) (omega arith),
      parse_digits-more (n / 16) (n % 16) [] (omega arith),
      parse_digits_nil (n / 16 * 16 + n % 16),
    ))
