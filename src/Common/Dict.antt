-- ===== src/Common/Dict.antt =====
-- Go maps as association lists with one entry for each key, in the order in which the keys were first
-- set. Keys are compared by the test of an instance.
use Prim.Native.Char.{code}
use Prim.Native.String.{String}
use Prim.Native.Nat.{ℕ}
use mathlib.Core.Path.{◌≡◌, refl}
use mathlib.Core.Logic.{◌↔◌}
use mathlib.Core.Bool.{Bool, true, false, ◌&&◌}
use mathlib.Core.Option.{Option, none, some}
use mathlib.Core.List.{List, [], ◌∷◌}
use native.Mathlib.Omega.{arith}
use diameterapi.Common.Tests.{◌==◌, if◌then◌else◌}

pub record Key {ℓ} (K : Type ℓ) : Type ℓ where
  pub test : K → K → Bool
  pub test_iff : (j k : K) → (test j k ≡ true) ↔ (j ≡ k)

abbrev pub Dict {ℓ κ} : Type ℓ → Type κ → Type (ℓ ⊔ κ)
Dict K V = List (K × V)

module _ {ℓ κ} {K : Type ℓ} {V : Type κ} ⦃key : Key K⦄ where
  -- `m[k]`, with what the second result of a lookup says
  unfoldable pub get : K → Dict K V → Option V
  get k [] = none
  get k ((j, v) ∷ m) = if key.test j k then some v else get k m

  -- `m[k] = v`
  unfoldable pub put : K → V → Dict K V → Dict K V
  put k v [] = (k, v) ∷ []
  put k v ((j, w) ∷ m) = if key.test j k then (j, v) ∷ m else (j, w) ∷ put k v m

  -- `delete(m, k)`
  unfoldable pub remove : K → Dict K V → Dict K V
  remove k [] = []
  remove k ((j, v) ∷ m) = if key.test j k then m else (j, v) ∷ remove k m

  pub get-put :
      (k j : K) (v : V) (m : Dict K V)
      → get j (put k v m) ≡ (if key.test k j then some v else get j m)
  unfolding get put
  get-put k j v [] = refl
  get-put k j v ((i, w) ∷ m) =
      ground (arith, get-put k j v m, key.test_iff k j, key.test_iff i k, key.test_iff i j)

-- Go's `==` on strings
unfoldable pub equal_bytes : List ℕ → List ℕ → Bool
equal_bytes [] [] = true
equal_bytes [] (y ∷ ys) = false
equal_bytes (x ∷ xs) [] = false
equal_bytes (x ∷ xs) (y ∷ ys) = x == y && equal_bytes xs ys

pub equal_bytes_iff : (xs ys : List ℕ) → (equal_bytes xs ys ≡ true) ↔ (xs ≡ ys)
unfolding equal_bytes
equal_bytes_iff [] [] = (λ h. refl, λ h. refl)
equal_bytes_iff [] (y ∷ ys) = (λ h. cc, λ h. cc)
equal_bytes_iff (x ∷ xs) [] = (λ h. cc, λ h. cc)
equal_bytes_iff (x ∷ xs) (y ∷ ys) = ground (arith, equal_bytes_iff xs ys)

instance unfoldable pub bytes_key : Key (List ℕ)
bytes_key = record { test = equal_bytes; test_iff = equal_bytes_iff }

-- The bytes of an ASCII text
abbrev pub ascii : String → List ℕ
ascii String.[] = []
ascii (String.◌∷◌ c s) = code c ∷ ascii s
