-- ===== src/Prelude/NoRepeats.antt =====
-- Lists of identifiers without repetition.
use Prim.Native.Nat.{ℕ}
use mathlib.Core.Path.{◌≡◌, refl}
use mathlib.Core.Bool.{true, false}
use mathlib.Core.List.{List, [], ◌∷◌, ◌++◌}
use native.Mathlib.Omega.{arith}
use ng_mux.Prelude.Assoc.{contains, contains-append, keys, erase, insert, contains-keys-insert}
use ng_mux.Prelude.Tests.{◌==◌, if◌then◌else◌}

abbrev pub Distinct : List ℕ → Type 0
Distinct [] = Unit
Distinct (x ∷ xs) = (contains x xs ≡ false) × Distinct xs

-- All occurrences of `t` taken out.
abbrev pub without : ℕ → List ℕ → List ℕ
without t [] = []
without t (x ∷ xs) = if x == t then without t xs else x ∷ without t xs

pub without-append : (t : ℕ) (xs ys : List ℕ) → without t (xs ++ ys) ≡ without t xs ++ without t ys
without-append t [] ys = refl
without-append t (x ∷ xs) ys = ground (arith, without-append t xs ys)

pub without-absent : (t : ℕ) (xs : List ℕ) → contains t xs ≡ false → without t xs ≡ xs
without-absent t [] h = refl
without-absent t (x ∷ xs) h = ground (arith, without-absent t xs)

pub contains-without :
    (t k : ℕ) (xs : List ℕ) → contains k (without t xs) ≡ (if t == k then false else contains k xs)
contains-without t k [] = ground arith
contains-without t k (x ∷ xs) = ground (arith, contains-without t k xs)

pub without-Distinct : (t : ℕ) (xs : List ℕ) → Distinct xs → Distinct (without t xs)
without-Distinct t [] d = tt
without-Distinct t (x ∷ xs) d = ground (arith, contains-without t x xs, without-Distinct t xs d.1)

pub Distinct-left : (xs ys : List ℕ) → Distinct (xs ++ ys) → Distinct xs
Distinct-left [] ys d = tt
Distinct-left (x ∷ xs) ys d = (ground (arith, contains-append x xs ys), Distinct-left xs ys d.1)

pub Distinct-right : (xs ys : List ℕ) → Distinct (xs ++ ys) → Distinct ys
Distinct-right [] ys d = d
Distinct-right (x ∷ xs) ys d = Distinct-right xs ys d.1

-- An element of one half is missing from the other.
pub Distinct-apart :
    (k : ℕ) (xs ys : List ℕ) → Distinct (xs ++ ys) → contains k xs ≡ true → contains k ys ≡ false
Distinct-apart k [] ys d h = cc
Distinct-apart k (x ∷ xs) ys d h =
    ground (arith, contains-append x xs ys, Distinct-apart k xs ys d.1)

module _ {ℓ} {V : Type ℓ} where
  pub keys-erase : (k : ℕ) (m : List (ℕ × V)) → keys (erase k m) ≡ without k (keys m)
  keys-erase k [] = refl
  keys-erase k ((j, v) ∷ m) = ground (arith, keys-erase k m)

  pub insert-Distinct :
      (k : ℕ) (v : V) (m : List (ℕ × V)) → Distinct (keys m) → Distinct (keys (insert k v m))
  insert-Distinct k v [] d = (refl, tt)
  insert-Distinct k v ((j, w) ∷ m) d =
      ground (arith, insert-Distinct k v m d.1, contains-keys-insert k j v m)
