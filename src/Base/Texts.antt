-- ===== src/Base/Texts.antt =====
-- Texts as the source uses them: trimming, prefixes, the order of `sort.Strings`, and sets of texts.
use Prim.Native.Nat.{ℕ, compare, Ordering}
use Prim.Native.Char.{code}
use Prim.Native.String.{String}
use mathlib.Core.Path.{◌≡◌, refl}
use mathlib.Core.Bool.{Bool, true, false, ◌&&◌, ◌||◌}
use mathlib.Core.List.{List, [], ◌∷◌, ◌++◌}
use mathlib.Core.Logic.{◌⊎◌}
use native.Mathlib.Omega.{arith}
use text.Mathlib.Text.{◌==◌}
use text.Mathlib.TextEquality.{eq_iff}
use fanloop.Base.Tests.{leb, nat_eq}

-- The code points of a text.
abbrev pub codes : String → List ℕ
codes String.[] = []
codes (String.◌∷◌ c s) = code c ∷ codes s

-- `unicode.IsSpace`
unfoldable pub is_space : ℕ → Bool
is_space c =
    (leb 9 c && leb c 13)
    || nat_eq c 0x20
    || nat_eq c 0x85
    || nat_eq c 0xA0
    || nat_eq c 0x1680
    || (leb 0x2000 c && leb c 0x200A)
    || nat_eq c 0x2028
    || nat_eq c 0x2029
    || nat_eq c 0x202F
    || nat_eq c 0x205F
    || nat_eq c 0x3000

blank_codes : List ℕ → Bool
blank_codes [] = true
blank_codes (c ∷ s) = is_space c && blank_codes s

-- `strings.TrimSpace(s) == ""`
unfoldable pub is_blank : String → Bool
unfolding blank_codes is_space
is_blank s = blank_codes (codes s)

-- The order of `sort.Strings`. The order of UTF-8 bytes is that of code points.
unfoldable pub text_le : String → String → Bool
text_le String.[] t = true
text_le (String.◌∷◌ c s) String.[] = false
text_le (String.◌∷◌ c s) (String.◌∷◌ d t) = elim (compare (code c) (code d)) [
  | Ordering.lt ↦ true
  | Ordering.gt ↦ false
  | Ordering.eq ↦ text_le s t
]

pub text_le_total : (s t : String) → text_le s t ≡ false → text_le t s ≡ true
unfolding text_le
text_le_total String.[] t h = cc
text_le_total (String.◌∷◌ c s) String.[] h = refl
text_le_total (String.◌∷◌ c s) (String.◌∷◌ d t) h = ground (arith, text_le_total s t)

-- Membership in a `map[string]bool` whose entries are true, and in a slice.
unfoldable pub contains : String → List String → Bool
contains a [] = false
contains a (x ∷ xs) = x == a || contains a xs

pub contains-cons :
    (a x : String) (xs : List String)
    → contains a (x ∷ xs) ≡ true
    → (x ≡ a) ⊎ (contains a xs ≡ true)
unfolding contains
contains-cons a x xs h = ground (arith, eq_iff x a)

pub contains-append :
    (a : String) (xs ys : List String) → contains a (xs ++ ys) ≡ (contains a xs || contains a ys)
unfolding contains
contains-append a [] ys = refl
contains-append a (x ∷ xs) ys = ground (arith, contains-append a xs ys)
