-- ===== src/Base/Sorting.antt =====
-- `sort.Strings`. Its result is determined by its input, so insertion sort stands for it.
use mathlib.Core.Path.{◌≡◌, refl}
use mathlib.Core.Bool.{true}
use mathlib.Core.List.{List, [], ◌∷◌}
use native.Mathlib.Omega.{arith}
use Prim.Native.String.{String}
use fanloop.Base.Tests.{if◌then◌else◌}
use fanloop.Base.Texts.{text_le, text_le_total}

place : String → List String → List String
place x [] = x ∷ []
place x (y ∷ ys) = if text_le x y then x ∷ y ∷ ys else y ∷ place x ys

unfoldable pub sort_strings : List String → List String
unfolding place
sort_strings [] = []
sort_strings (x ∷ xs) = place x (sort_strings xs)

abbrev IsBelow : String → List String → Type 0
IsBelow x [] = Unit
IsBelow x (y ∷ ys) = text_le x y ≡ true

-- Neighbours are in order.
abbrev pub IsSorted : List String → Type 0
IsSorted [] = Unit
IsSorted (x ∷ xs) = IsBelow x xs × IsSorted xs

IsBelow-place :
    (y x : String) (ys : List String) → IsBelow y ys → text_le y x ≡ true → IsBelow y (place x ys)
unfolding place
IsBelow-place y x [] h k = k
IsBelow-place y x (z ∷ ys) h k = ground arith

place-IsSorted : (x : String) (ys : List String) → IsSorted ys → IsSorted (place x ys)
unfolding place
place-IsSorted x [] h = (tt, tt)
place-IsSorted x (y ∷ ys) h =
    ground (arith, text_le_total x y, IsBelow-place y x ys h.0, place-IsSorted x ys h.1)

pub sort_strings-IsSorted : (xs : List String) → IsSorted (sort_strings xs)
unfolding sort_strings
sort_strings-IsSorted [] = tt
sort_strings-IsSorted (x ∷ xs) = place-IsSorted x (sort_strings xs) (sort_strings-IsSorted xs)

place_of_IsBelow : (x : String) (xs : List String) → IsBelow x xs → place x xs ≡ x ∷ xs
unfolding place
place_of_IsBelow x [] h = refl
place_of_IsBelow x (y ∷ ys) h = ground arith

pub sort_strings_of_IsSorted : (xs : List String) → IsSorted xs → sort_strings xs ≡ xs
unfolding sort_strings
sort_strings_of_IsSorted [] h = refl
sort_strings_of_IsSorted (x ∷ xs) h =
    ground (arith, sort_strings_of_IsSorted xs h.1, place_of_IsBelow x xs h.0)

-- Sorting a sorted copy changes nothing.
pub sort_strings_idem : (xs : List String) → sort_strings (sort_strings xs) ≡ sort_strings xs
sort_strings_idem xs = sort_strings_of_IsSorted (sort_strings xs) (sort_strings-IsSorted xs)
