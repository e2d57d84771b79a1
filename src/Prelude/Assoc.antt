-- ===== src/Prelude/Assoc.antt =====
-- Go maps with integer keys, as association lists: `lookup`, `insert` (which overwrites) and `erase`.
use Prim.Native.Nat.{ℕ}
use mathlib.Core.Path.{◌≡◌, refl}
use mathlib.Core.Logic.{◌⊎◌, inl, inr}
use mathlib.Core.Bool.{Bool, true, false, ◌||◌}
use mathlib.Core.List.{List, [], ◌∷◌, ◌++◌}
use mathlib.Core.Option.{Option, none, some}
use native.Mathlib.Omega.{arith}
use ng_mux.Prelude.Tests.{◌==◌, if◌then◌else◌}

-- `contains k xs` tests whether the key stands in the list.
abbrev pub contains : ℕ → List ℕ → Bool
contains k [] = false
contains k (x ∷ xs) = if x == k then true else contains k xs

pub contains-append :
    (k : ℕ) (xs ys : List ℕ) → contains k (xs ++ ys) ≡ (contains k xs || contains k ys)
contains-append k [] ys = refl
contains-append k (x ∷ xs) ys = ground (arith, contains-append k xs ys)

abbrev pub or_else {ℓ} : {A : Type ℓ} → Option A → Option A → Option A
or_else (some a) b = some a
or_else none b = b

abbrev pub is_some {ℓ} : {A : Type ℓ} → Option A → Bool
is_some (some a) = true
is_some none = false

module _ {ℓ} {V : Type ℓ} where
  abbrev pub lookup : ℕ → List (ℕ × V) → Option V
  lookup k [] = none
  lookup k ((j, v) ∷ m) = if j == k then some v else lookup k m

  abbrev pub insert : ℕ → V → List (ℕ × V) → List (ℕ × V)
  insert k v [] = (k, v) ∷ []
  insert k v ((j, w) ∷ m) = if j == k then (k, v) ∷ m else (j, w) ∷ insert k v m

  abbrev pub erase : ℕ → List (ℕ × V) → List (ℕ × V)
  erase k [] = []
  erase k ((j, v) ∷ m) = if j == k then erase k m else (j, v) ∷ erase k m

  -- m[k] changed in place, if the key is there.
  abbrev pub modify : ℕ → (V → V) → List (ℕ × V) → List (ℕ × V)
  modify k g [] = []
  modify k g ((j, v) ∷ m) = if j == k then (j, g v) ∷ modify k g m else (j, v) ∷ modify k g m

  abbrev pub keys : List (ℕ × V) → List ℕ
  keys [] = []
  keys ((j, v) ∷ m) = j ∷ keys m

  pub keys-modify : (k : ℕ) (g : V → V) (m : List (ℕ × V)) → keys (modify k g m) ≡ keys m
  keys-modify k g [] = refl
  keys-modify k g ((j, v) ∷ m) = ground (arith, keys-modify k g m)

  pub contains-keys : (k : ℕ) (m : List (ℕ × V)) → contains k (keys m) ≡ is_some (lookup k m)
  contains-keys k [] = refl
  contains-keys k ((j, v) ∷ m) = ground (arith, contains-keys k m)

  pub contains-keys-insert :
      (k j : ℕ) (v : V) (m : List (ℕ × V))
      → contains j (keys (insert k v m)) ≡ (if k == j then true else contains j (keys m))
  contains-keys-insert k j v [] = refl
  contains-keys-insert k j v ((i, w) ∷ m) = ground (arith, contains-keys-insert k j v m)

  pub lookup-modify :
      (k j : ℕ) (g : V → V) (m : List (ℕ × V))
      → lookup j (modify k g m)
        ≡ (if k == j then elim (lookup j m) [ none ↦ none | some v ↦ some (g v) ] else lookup j m)
  lookup-modify k j g [] = ground arith
  lookup-modify k j g ((i, w) ∷ m) = ground (arith, lookup-modify k j g m)

  pub lookup-insert :
      (k j : ℕ) (v : V) (m : List (ℕ × V))
      → lookup j (insert k v m) ≡ (if k == j then some v else lookup j m)
  lookup-insert k j v [] = refl
  lookup-insert k j v ((i, w) ∷ m) = ground (arith, lookup-insert k j v m)

  pub lookup-erase :
      (k j : ℕ) (m : List (ℕ × V)) → lookup j (erase k m) ≡ (if k == j then none else lookup j m)
  lookup-erase k j [] = ground arith
  lookup-erase k j ((i, w) ∷ m) = ground (arith, lookup-erase k j m)

pub or_else-eq-some {ℓ} :
    {A : Type ℓ} (x y : Option A) {a : A} → or_else x y ≡ some a → (x ≡ some a) ⊎ (y ≡ some a)
or_else-eq-some (some b) y e = inl e
or_else-eq-some none y e = inr e
