-- ===== src/Common/Dict.antt =====
-- A Python `dict`, or a Redis hash, as an association list in insertion order.
use restore_engine.Common.Tests.{Key, ◌==◌, contains, if◌then◌else◌}
use mathlib.Core.Path.{◌≡◌, refl}
use mathlib.Core.Logic.{◌⊎◌, inl}
use mathlib.Core.Bool.{true, false}
use mathlib.Core.Option.{Option, none, some}
use mathlib.Core.List.{List, [], ◌∷◌, map}
use native.Mathlib.Omega.{arith}

module _ {ℓ} {K V : Type ℓ} ⦃e : Key K⦄ where
  -- `d.get(k)`
  unfoldable pub lookup : K → List (K × V) → Option V
  lookup k [] = none
  lookup k ((j, v) ∷ m) = if j == k then some v else lookup k m

  -- `d[k] = v`
  unfoldable pub put : K → V → List (K × V) → List (K × V)
  put k v [] = (k, v) ∷ []
  put k v ((j, w) ∷ m) = if j == k then (j, v) ∷ m else (j, w) ∷ put k v m

  -- `d.pop(k, None)`, DEL of a key
  unfoldable pub remove : K → List (K × V) → List (K × V)
  remove k [] = []
  remove k ((j, w) ∷ m) = let rest = remove k m in if j == k then rest else (j, w) ∷ rest

  -- `{**d, **mapping}`, HSET with a mapping
  unfoldable pub put_all : List (K × V) → List (K × V) → List (K × V)
  put_all m [] = m
  put_all m ((k, v) ∷ mapping) = put_all (put k v m) mapping

  pub lookup-put :
      (k j : K) (v : V) (m : List (K × V))
      → lookup j (put k v m) ≡ (if k == j then some v else lookup j m)
  unfolding lookup put
  lookup-put k j v [] = refl
  lookup-put k j v ((i, w) ∷ m) =
      ground (arith, e.is_same_iff k j, e.is_same_iff i k, e.is_same_iff i j, lookup-put k j v m)

  pub lookup-put_self : (k : K) (v : V) (m : List (K × V)) → lookup k (put k v m) ≡ some v
  lookup-put_self k v m = ground (arith, lookup-put k k v m, e.is_same_iff k k)

  pub lookup-remove :
      (k j : K) (m : List (K × V)) → lookup j (remove k m) ≡ (if k == j then none else lookup j m)
  unfolding lookup remove
  lookup-remove k j [] = ground arith
  lookup-remove k j ((i, w) ∷ m) =
      ground (arith, e.is_same_iff k j, e.is_same_iff i k, e.is_same_iff i j, lookup-remove k j m)

  -- The keys of a dict, in its order.
  abbrev pub keys : List (K × V) → List K
  keys m = map (λ kv. kv.0) m

  pub contains-keys_of_lookup :
      (k : K) (m : List (K × V)) → (lookup k m ≡ none) ⊎ (contains k (keys m) ≡ true)
  unfolding lookup contains
  contains-keys_of_lookup k [] = inl refl
  contains-keys_of_lookup k ((j, v) ∷ m) = ground (arith, contains-keys_of_lookup k m)

  -- A mapping leaves the keys that it does not have.
  pub lookup-put_all :
      (k : K) (m mapping : List (K × V))
      → contains k (keys mapping) ≡ false
      → lookup k (put_all m mapping) ≡ lookup k m
  unfolding put_all contains
  lookup-put_all k m [] h = refl
  lookup-put_all k m ((j, v) ∷ mapping) h =
      ground (arith, lookup-put_all k (put j v m) mapping, lookup-put j k v m)
