-- ===== src/Base/Maps.antt =====
-- A Go map with text keys, as an association list. The order of the entries stands for the order
-- in which a `range` loop meets them, which Go leaves open.
use Prim.Native.String.{String}
use mathlib.Core.Path.{◌≡◌, refl, subst}
use mathlib.Core.List.{List, [], ◌∷◌, map}
use mathlib.Core.Option.{Option, none, some}
use native.Mathlib.Omega.{arith}
use text.Mathlib.Text.{◌==◌}
use text.Mathlib.TextEquality.{eq_iff}
use fanloop.Base.Tests.{if◌then◌else◌, Bool-cases}
use fanloop.Base.Lists.{All}
use mathlib.Core.Logic.{inl, inr}

abbrev pub Dict : Type 0 → Type 0
Dict V = List (String × V)

module _ {V : Type 0} where
  unfoldable pub lookup : String → Dict V → Option V
  lookup k [] = none
  lookup k ((j, v) ∷ m) = if j == k then some v else lookup k m

  -- `m[k]`, with the zero value for a missing key.
  unfoldable pub lookup_or : V → String → Dict V → V
  unfolding lookup
  lookup_or d k m = elim (lookup k m) [ none ↦ d | some v ↦ v ]

  -- `m[k] = v`
  unfoldable pub insert : String → V → Dict V → Dict V
  insert k v [] = (k, v) ∷ []
  insert k v ((j, w) ∷ m) = if j == k then (k, v) ∷ m else (j, w) ∷ insert k v m

  -- `delete(m, k)`
  unfoldable pub delete : String → Dict V → Dict V
  delete k [] = []
  delete k ((j, w) ∷ m) = if j == k then delete k m else (j, w) ∷ delete k m

  abbrev pub keys : Dict V → List String
  keys m = map (λ e. e.0) m

  pub lookup-insert :
      (key wanted : String) (value : V) (m : Dict V)
      → lookup wanted (insert key value m) ≡ (if key == wanted then some value else lookup wanted m)
  unfolding lookup insert
  lookup-insert key wanted value [] = refl
  lookup-insert key wanted value ((i, w) ∷ m) =
      ground
        (arith, eq_iff key wanted, eq_iff i key, eq_iff i wanted, lookup-insert key wanted value m)

  pub lookup-delete :
      (k j : String) (m : Dict V) → lookup j (delete k m) ≡ (if k == j then none else lookup j m)
  unfolding lookup delete
  lookup-delete k j [] = ground arith
  lookup-delete k j ((i, w) ∷ m) =
      ground (arith, eq_iff k j, eq_iff i k, eq_iff i j, lookup-delete k j m)

  pub lookup_or-insert :
      (d : V) (k j : String) (v : V) (m : Dict V)
      → lookup_or d j (insert k v m) ≡ (if k == j then v else lookup_or d j m)
  unfolding lookup_or
  lookup_or-insert d k j v m = ground (arith, lookup-insert k j v m)

  pub lookup_or-nil : (d : V) (k : String) → lookup_or d k [] ≡ d
  unfolding lookup_or
  lookup_or-nil d k = refl

  -- What holds of every entry holds of the value found.
  pub lookup_or-All :
      (P : V → Type 0) (d : V) (k : String) (m : Dict V)
      → P d
      → All (λ e. P e.1) m
      → P (lookup_or d k m)
  unfolding lookup_or lookup
  lookup_or-All P d k [] base h = base
  lookup_or-All P d k ((j, v) ∷ m) base h = elim (Bool-cases (j == k)) [
    | inl same ↦ rw (same, lookup, lookup_or) h.0
    | inr other ↦ subst P (ground (arith, other)) (lookup_or-All P d k m base h.1)
  ]
