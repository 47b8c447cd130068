-- ===== src/Prelude/Maps.antt =====
-- `HashMap` and `BTreeMap` with text keys, as association lists with one entry to a key. The
-- programs that use them never rely on the order of iteration, but where a module says so.
use Prim.Native.Nat.{◌+◌}
use Prim.Native.String.{String}
use mathlib.Core.Path.{◌≡◌, refl}
use mathlib.Core.Logic.{◌≢◌}
use mathlib.Core.Bool.{true, false, ◌||◌}
use mathlib.Core.List.{List, [], ◌∷◌}
use mathlib.Core.Option.{Option, none, some}
use native.Mathlib.Omega.{arith}
use text.Mathlib.Text.{◌==◌ as str_eq}
use text.Mathlib.TextEquality.{eq_iff}
use athar.Prelude.Tests.{if◌then◌else◌, is_some}
use athar.Prelude.Lists.{length, contains}

abbrev pub Map {ℓ} : Type ℓ → Type ℓ
Map V = List (String × V)

module _ {ℓ} {V : Type ℓ} where
  abbrev pub keys : Map V → List String
  keys [] = []
  keys (e ∷ m) = e.0 ∷ keys m

  unfoldable pub get : String → Map V → Option V
  get k [] = none
  get k (e ∷ m) = if str_eq e.0 k then some e.1 else get k m

  unfoldable pub insert : String → V → Map V → Map V
  insert k v [] = (k, v) ∷ []
  insert k v (e ∷ m) = if str_eq e.0 k then (k, v) ∷ m else e ∷ insert k v m

  unfoldable pub remove : String → Map V → Map V
  remove k [] = []
  remove k (e ∷ m) = if str_eq e.0 k then m else e ∷ remove k m

  pub get-insert :
      (k j : String) (v : V) (m : Map V)
      → get j (insert k v m) ≡ (if str_eq k j then some v else get j m)
  unfolding get insert
  get-insert k j v [] = refl
  get-insert k j v (e ∷ m) =
      ground (arith, eq_iff k j, eq_iff e.0 k, eq_iff e.0 j, get-insert k j v m)

  pub get-remove_ne : (k j : String) (m : Map V) → k ≢ j → get j (remove k m) ≡ get j m
  unfolding get remove
  get-remove_ne k j [] h = refl
  get-remove_ne k j (e ∷ m) h =
      ground (arith, eq_iff k j, eq_iff e.0 k, eq_iff e.0 j, get-remove_ne k j m)

  pub is_some-get : (k : String) (m : Map V) → is_some (get k m) ≡ contains (keys m) k
  unfolding get
  is_some-get k [] = refl
  is_some-get k (e ∷ m) = ground (arith, is_some-get k m)

  pub length-insert :
      (k : String) (v : V) (m : Map V)
      → length (insert k v m) ≡ (if is_some (get k m) then length m else length m + 1)
  unfolding get insert
  length-insert k v [] = omega arith
  length-insert k v (e ∷ m) = ground (arith, length-insert k v m)

  pub length-remove :
      (k : String) (m : Map V)
      → length m ≡ (if is_some (get k m) then length (remove k m) + 1 else length (remove k m))
  unfolding get remove
  length-remove k [] = omega arith
  length-remove k (e ∷ m) = ground (arith, length-remove k m)

  -- No key twice.
  abbrev pub Distinct : Map V → Type 0
  Distinct [] = Unit
  Distinct (e ∷ m) = (contains (keys m) e.0 ≡ false) × Distinct m

  pub contains-keys-insert :
      (k j : String) (v : V) (m : Map V)
      → contains (keys (insert k v m)) j ≡ (str_eq k j || contains (keys m) j)
  unfolding insert
  contains-keys-insert k j v [] = refl
  contains-keys-insert k j v (e ∷ m) =
      ground (arith, eq_iff e.0 k, eq_iff e.0 j, eq_iff k j, contains-keys-insert k j v m)

  pub Distinct-insert : (k : String) (v : V) (m : Map V) → Distinct m → Distinct (insert k v m)
  unfolding insert
  Distinct-insert k v [] d = (refl, tt)
  Distinct-insert k v (e ∷ m) d =
      ground (
        arith,
        eq_iff e.0 k,
        eq_iff k e.0,
        contains-keys-insert k e.0 v m,
        Distinct-insert k v m d.1,
      )

  pub contains-keys-remove :
      (k j : String) (m : Map V)
      → contains (keys m) j ≡ false
      → contains (keys (remove k m)) j ≡ false
  unfolding remove
  contains-keys-remove k j [] h = refl
  contains-keys-remove k j (e ∷ m) h = ground (arith, contains-keys-remove k j m)

  pub Distinct-remove : (k : String) (m : Map V) → Distinct m → Distinct (remove k m)
  unfolding remove
  Distinct-remove k [] d = tt
  Distinct-remove k (e ∷ m) d =
      ground (arith, contains-keys-remove k e.0 m d.0, Distinct-remove k m d.1)

  pub contains-keys_of_get :
      (k : String) (m : Map V) (v : V) → get k m ≡ some v → contains (keys m) k ≡ true
  contains-keys_of_get k m v h = ground (arith, is_some-get k m)
