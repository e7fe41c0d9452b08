-- ===== src/Prelude/Dict.antt =====
-- Python's `dict` with text keys, as the list of its items: `d.get(k)`, `d[k] = v`, `d.update(e)`.
-- Iteration over a dict goes over the list. `put` keeps the place of an old key, as Python does.
use Prim.Native.String.{String}
use mathlib.Core.Path.{◌≡◌, refl, subst}
use mathlib.Core.Logic.{inl, inr}
use mathlib.Core.Bool.{Bool, true, false}
use mathlib.Core.Option.{Option, none, some}
use mathlib.Core.List.{List, [], ◌∷◌}
use native.Mathlib.Omega.{arith}
use text.Mathlib.Text.{◌==◌}
use text.Mathlib.TextEquality.{eq_iff}
use text.Mathlib.TextPositions.{eq_refl}
use observability_kit.Prelude.Tests.{Bool-cases, if◌then◌else◌}

abbrev pub Dict {ℓ} : Type ℓ → Type ℓ
Dict V = List (String × V)

module _ {ℓ} {V : Type ℓ} where
  unfoldable pub lookup : String → Dict V → Option V
  lookup k [] = none
  lookup k ((j, v) ∷ m) = if j == k then some v else lookup k m

  unfoldable pub put : String → V → Dict V → Dict V
  put k v [] = (k, v) ∷ []
  put k v ((j, w) ∷ m) = if j == k then (k, v) ∷ m else (j, w) ∷ put k v m

  unfoldable pub without : String → Dict V → Dict V
  without k [] = []
  without k ((j, v) ∷ m) = let rest = without k m in if j == k then rest else (j, v) ∷ rest

  unfoldable pub update : Dict V → Dict V → Dict V
  unfolding put
  update d [] = d
  update d ((k, v) ∷ e) = update (put k v d) e

  pub lookup-put :
      (k j : String) (v : V) (m : Dict V)
      → lookup j (put k v m) ≡ (if k == j then some v else lookup j m)
  unfolding lookup put
  lookup-put k j v [] = refl
  lookup-put k j v ((i, w) ∷ m) =
      ground (arith, eq_iff k j, eq_iff i k, eq_iff i j, lookup-put k j v m)

  pub lookup-without :
      (k j : String) (m : Dict V) → lookup j (without k m) ≡ (if k == j then none else lookup j m)
  unfolding lookup without
  lookup-without k j [] = ground arith
  lookup-without k j ((i, v) ∷ m) =
      ground (arith, lookup-without k j m, eq_iff i k, eq_iff i j, eq_iff k j)

  pub lookup-put_self : (k : String) (v : V) (m : Dict V) → lookup k (put k v m) ≡ some v
  lookup-put_self k v m = simp (lookup-put, eq_refl)

module _ {ℓ} {V : Type ℓ} where
  some_of :
      (b : Bool) (w v : V) (o : Option V) → b ≡ true → (if b then some w else o) ≡ some v → w ≡ v
  some_of true w v o e h = cc
  some_of false w v o e h = cc

  rest_of :
      (b : Bool) (w v : V) (o : Option V)
      → b ≡ false
      → (if b then some w else o) ≡ some v
      → o ≡ some v
  rest_of true w v o e h = cc
  rest_of false w v o e h = h

module _ {ℓ κ} {V : Type ℓ} (P : String → V → Type κ) where
  -- Every entry of the dict satisfies `P`, and so does what is found in it.
  abbrev pub AllEntries : Dict V → Type κ
  AllEntries [] = Unit
  AllEntries ((k, v) ∷ m) = P k v × AllEntries m

  pub lookup-AllEntries :
      (m : Dict V) (k : String) (v : V) → AllEntries m → lookup k m ≡ some v → P k v
  unfolding lookup
  lookup-AllEntries [] k v h found = cc
  lookup-AllEntries ((j, w) ∷ m) k v h found = elim (Bool-cases (j == k)) [
    | inl same ↦
        subst (λ i. P i v) ((eq_iff j k).0 same)
          (subst (P j) (some_of (j == k) w v (lookup k m) same found) h.0)
    | inr other ↦ lookup-AllEntries m k v h.1 (rest_of (j == k) w v (lookup k m) other found)
  ]

pub ruleset dict_laws = (lookup-put, lookup-without, eq_refl)
