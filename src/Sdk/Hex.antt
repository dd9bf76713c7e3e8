-- ===== src/Sdk/Hex.antt =====
-- packages/nouns-sdk/src/image/utils.ts, with the number formats of the language that it uses, and
-- the `parseInt(text, 16)` of svg-builder.ts.
pub mod RoundTrip
use nouns_monorepo.Prelude.{
  ℕ, suc, zero, ◌+◌, ◌-◌, ◌*◌, ◌/◌, ◌%◌, Bool, true, false, ◌&&◌, ◌||◌, List, [], ◌∷◌, ◌++◌,
  if◌then◌else◌, ltb, leb, ◌==◌, Option, none, some,
}
use nouns_monorepo.Sdk.Text.{Text, pad_start}

unfoldable pub hex_digit : ℕ → ℕ
hex_digit d = if ltb d 10 then b'0' + d else b'a' + (d - 10)

-- `c.toString(16)`, with fuel: `n` rounds are enough, as each divides by sixteen.
unfoldable pub to_hex_fuel : ℕ → ℕ → Text
to_hex_fuel zero n = hex_digit (n % 16) ∷ []
to_hex_fuel (suc f) n =
    let more = to_hex_fuel f (n / 16) ++ hex_digit (n % 16) ∷ [] in
    if ltb n 16 then hex_digit n ∷ [] else more

unfoldable pub to_hex : ℕ → Text
unfolding to_hex_fuel hex_digit
to_hex n = to_hex_fuel n n

unfoldable pub to_padded_hex : ℕ → ℕ → Text
unfolding to_hex
to_padded_hex c pad = pad_start pad b'0' (to_hex c)

unfoldable pub rgb_to_hex : ℕ → ℕ → ℕ → Text
unfolding to_padded_hex
rgb_to_hex r g b = to_padded_hex r 2 ++ (to_padded_hex g 2 ++ to_padded_hex b 2)

-- The value of a hexadecimal digit, in either case.
unfoldable pub digit_value : ℕ → Option ℕ
digit_value c =
    if leb b'0' c && leb c b'9'
    then some (c - b'0')
    else if leb b'a' c && leb c b'f'
    then some (c - b'a' + 10)
    else if leb b'A' c && leb c b'F'
    then some (c - b'A' + 10)
    else none

-- The longest run of digits; `none` is NaN, for a run that is empty.
unfoldable pub parse_digits : Option ℕ → Text → Option ℕ
parse_digits acc [] = acc
parse_digits acc (c ∷ t) = elim (digit_value c) [
  | none ↦ acc
  | some d ↦ parse_digits (some (elim acc [ none ↦ d | some a ↦ a * 16 + d ])) t
]

abbrev is_x : ℕ → Bool
is_x c = c == b'x' || c == b'X'

-- `parseInt(text, 16)`: a prefix `0x` is passed over. (White space and signs in front of the digits
-- are left out: the pieces of an encoded image hold none.)
unfoldable pub parse_int16 : Text → Option ℕ
unfolding parse_digits digit_value
parse_int16 [] = none
parse_int16 (c ∷ []) = parse_digits none (c ∷ [])
parse_int16 (c ∷ d ∷ t) =
    if c == b'0' && is_x d then parse_digits none t else parse_digits none (c ∷ d ∷ t)
