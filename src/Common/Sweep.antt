-- ===== src/Common/Sweep.antt =====
-- Loops over a Go map: a change of every value, and the deletion of the keys that fail a test.
-- Both speak of maps, in which no key stands twice.
use kubernaut_apifrontend.Common.Dict.{lookup, insert, delete, lookup-insert, lookup-delete}
use kubernaut_apifrontend.Common.Tests.{if◌then◌else◌}
use Prim.Native.String.{String}
use text.Mathlib.TextEquality.{eq_iff}
use mathlib.Core.Path.{◌≡◌, refl}
use mathlib.Core.Bool.{Bool}
use mathlib.Core.Option.{Option, none, some}
use mathlib.Core.List.{List, [], ◌∷◌}
use native.Mathlib.Omega.{arith}

module _ {ℓ} {V : Type ℓ} where
  abbrev pub HasUniqueKeys : List (String × V) → Type ℓ
  HasUniqueKeys [] = Unit
  HasUniqueKeys ((k, v) ∷ m) = (lookup k m ≡ none) × HasUniqueKeys m

  unfoldable pub map_values : (V → V) → List (String × V) → List (String × V)
  map_values f [] = []
  map_values f ((k, v) ∷ m) = (k, f v) ∷ map_values f m

  -- `for k, v := range m { if !keep(v) { delete(m, k) } }`
  unfoldable pub sweep : (V → Bool) → List (String × V) → List (String × V)
  sweep keep [] = []
  sweep keep ((k, v) ∷ m) = if keep v then (k, v) ∷ sweep keep m else sweep keep m

  abbrev pub keep_some : (V → Bool) → Option V → Option V
  keep_some keep none = none
  keep_some keep (some v) = if keep v then some v else none

  pub lookup-map_values :
      (f : V → V) (k : String) (m : List (String × V))
      → lookup k (map_values f m) ≡ (elim (lookup k m) [ none ↦ none | some v ↦ some (f v) ])
  unfolding lookup map_values
  lookup-map_values f k [] = refl
  lookup-map_values f k ((j, v) ∷ m) = ground (arith, lookup-map_values f k m)

  pub lookup-sweep :
      (keep : V → Bool) (k : String) (m : List (String × V))
      → HasUniqueKeys m
      → lookup k (sweep keep m) ≡ keep_some keep (lookup k m)
  unfolding lookup sweep
  lookup-sweep keep k [] h = refl
  lookup-sweep keep k ((j, v) ∷ m) h = ground (arith, eq_iff j k, lookup-sweep keep k m h.1)

  pub sweep-HasUniqueKeys :
      (keep : V → Bool) (m : List (String × V)) → HasUniqueKeys m → HasUniqueKeys (sweep keep m)
  unfolding sweep
  sweep-HasUniqueKeys keep [] h = h
  sweep-HasUniqueKeys keep ((k, v) ∷ m) h =
      ground (arith, lookup-sweep keep k m h.1, sweep-HasUniqueKeys keep m h.1)

  pub map_values-HasUniqueKeys :
      (f : V → V) (m : List (String × V)) → HasUniqueKeys m → HasUniqueKeys (map_values f m)
  unfolding map_values
  map_values-HasUniqueKeys f [] h = h
  map_values-HasUniqueKeys f ((k, v) ∷ m) h =
      ground (arith, lookup-map_values f k m, map_values-HasUniqueKeys f m h.1)

  pub insert-HasUniqueKeys :
      (k : String) (v : V) (m : List (String × V)) → HasUniqueKeys m → HasUniqueKeys (insert k v m)
  unfolding insert lookup
  insert-HasUniqueKeys k v [] h = (refl, h)
  insert-HasUniqueKeys k v ((j, w) ∷ m) h =
      ground (arith, eq_iff j k, eq_iff k j, lookup-insert k j v m, insert-HasUniqueKeys k v m h.1)

  pub delete-HasUniqueKeys :
      (k : String) (m : List (String × V)) → HasUniqueKeys m → HasUniqueKeys (delete k m)
  unfolding delete
  delete-HasUniqueKeys k [] h = h
  delete-HasUniqueKeys k ((j, w) ∷ m) h =
      ground (arith, eq_iff k j, lookup-delete k j m, delete-HasUniqueKeys k m h.1)
