-- ===== src/Prelude/Texts.antt =====
-- Lists of texts: the searches and filters that the programs run on ids.
use Prim.Native.Nat.{ℕ, suc, ◌+◌}
use Prim.Native.String.{String}
use text.Mathlib.Text.{◌==◌}
use mathlib.Core.Bool.{Bool, false, not, ◌&&◌, ◌||◌}
use mathlib.Core.List.{List, [], ◌∷◌, ◌++◌}
use mathlib.Core.Path.{◌≡◌, refl}
use native.Mathlib.Omega.{arith}
use text.Mathlib.TextEquality.{eq_iff}
use nouns_monorepo.Prelude.Tests.{if◌then◌else◌}
use nouns_monorepo.Prelude.Lists.{length}

-- `list.includes(x)`
unfoldable pub includes : List String → String → Bool
includes [] x = false
includes (y ∷ ys) x = y == x || includes ys x

-- `list.filter(y => y != x)`
unfoldable pub without : String → List String → List String
without x [] = []
without x (y ∷ ys) = if y == x then without x ys else y ∷ without x ys

-- `list.filter(y => !gone.includes(y))`
unfoldable pub without_all : List String → List String → List String
without_all gone [] = []
without_all gone (y ∷ ys) = if includes gone y then without_all gone ys else y ∷ without_all gone ys

pub includes-append :
    (xs ys : List String) (x : String) → includes (xs ++ ys) x ≡ (includes xs x || includes ys x)
unfolding includes
includes-append [] ys x = refl
includes-append (z ∷ xs) ys x = ground (arith, includes-append xs ys x)

pub includes-without_self : (x : String) (xs : List String) → includes (without x xs) x ≡ false
unfolding includes without
includes-without_self x [] = refl
includes-without_self x (y ∷ ys) = ground (arith, includes-without_self x ys)

pub includes-without_ne :
    (x z : String) (xs : List String) → (x == z) ≡ false → includes (without x xs) z ≡ includes xs z
unfolding includes without
includes-without_ne x z [] h = refl
includes-without_ne x z (y ∷ ys) h =
    ground (arith, includes-without_ne x z ys h, eq_iff y x, eq_iff y z, eq_iff x z)

pub includes-without_all :
    (gone xs : List String) (z : String)
    → includes (without_all gone xs) z ≡ (includes xs z && not (includes gone z))
unfolding includes without_all
includes-without_all gone [] z = refl
includes-without_all gone (y ∷ ys) z = ground (arith, includes-without_all gone ys z, eq_iff y z)

-- Taking out what is not there changes nothing.
pub without_of_not_includes :
    (x : String) (xs : List String) → includes xs x ≡ false → without x xs ≡ xs
unfolding includes without
without_of_not_includes x [] h = refl
without_of_not_includes x (y ∷ ys) h = ground (arith, without_of_not_includes x ys)

abbrev pub count : String → List String → ℕ
count x [] = 0
count x (y ∷ ys) = if y == x then suc (count x ys) else count x ys

pub count-append : (x : String) (xs ys : List String) → count x (xs ++ ys) ≡ count x xs + count x ys
count-append x [] ys = omega arith
count-append x (y ∷ xs) ys = ground (arith, count-append x xs ys)

pub count-without :
    (x z : String) (xs : List String) → count z (without x xs) ≡ (if x == z then 0 else count z xs)
unfolding without
count-without x z [] = ground arith
count-without x z (y ∷ ys) =
    ground (arith, count-without x z ys, eq_iff y x, eq_iff y z, eq_iff x z)

pub length-without :
    (x : String) (xs : List String) → length (without x xs) + count x xs ≡ length xs
unfolding without
length-without x [] = omega arith
length-without x (y ∷ ys) = ground (arith, length-without x ys)
