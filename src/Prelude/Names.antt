-- ===== src/Prelude/Names.antt =====
-- Go maps with strings as keys, as association lists, and lists of names.
use mathlib.Core.Path.{◌≡◌, refl}
use mathlib.Core.Bool.{Bool, true, false, ◌||◌}
use mathlib.Core.List.{List, [], ◌∷◌, ◌++◌}
use mathlib.Core.Option.{Option, none, some}
use native.Mathlib.Omega.{arith}
use ng_mux.Prelude.Tests.{if◌then◌else◌}
use ng_mux.Prelude.Assoc.{is_some}
use ng_mux.Prelude.Text.{Bytes, bytes_eq, bytes_eq_iff}

abbrev pub has_name : Bytes → List Bytes → Bool
has_name n [] = false
has_name n (x ∷ xs) = if bytes_eq x n then true else has_name n xs

-- Without the first entry of that name.
abbrev pub drop_name : Bytes → List Bytes → List Bytes
drop_name n [] = []
drop_name n (x ∷ xs) = if bytes_eq x n then xs else x ∷ drop_name n xs

-- No name stands twice.
abbrev pub DistinctNames : List Bytes → Type 0
DistinctNames [] = Unit {0}
DistinctNames (x ∷ xs) = (has_name x xs ≡ false) × DistinctNames xs

module _ {ℓ} {V : Type ℓ} where
  abbrev pub find : Bytes → List (Bytes × V) → Option V
  find k [] = none
  find k ((j, v) ∷ m) = if bytes_eq j k then some v else find k m

  abbrev pub put : Bytes → V → List (Bytes × V) → List (Bytes × V)
  put k v [] = (k, v) ∷ []
  put k v ((j, w) ∷ m) = if bytes_eq j k then (k, v) ∷ m else (j, w) ∷ put k v m

  abbrev pub delete : Bytes → List (Bytes × V) → List (Bytes × V)
  delete k [] = []
  delete k ((j, v) ∷ m) = if bytes_eq j k then delete k m else (j, v) ∷ delete k m

  abbrev pub names : List (Bytes × V) → List Bytes
  names [] = []
  names ((j, v) ∷ m) = j ∷ names m

  pub has_name-names :
      (k : Bytes) (m : List (Bytes × V)) → has_name k (names m) ≡ is_some (find k m)
  has_name-names k [] = refl
  has_name-names k ((j, v) ∷ m) = ground (arith, has_name-names k m)

  pub find-put :
      (k j : Bytes) (v : V) (m : List (Bytes × V))
      → find j (put k v m) ≡ (if bytes_eq k j then some v else find j m)
  find-put k j v [] = refl
  find-put k j v ((i, w) ∷ m) =
      ground (arith, bytes_eq_iff k j, bytes_eq_iff i k, bytes_eq_iff i j, find-put k j v m)

  pub find-delete :
      (k j : Bytes) (m : List (Bytes × V))
      → find j (delete k m) ≡ (if bytes_eq k j then none else find j m)
  find-delete k j [] = ground arith
  find-delete k j ((i, w) ∷ m) =
      ground (arith, bytes_eq_iff k j, bytes_eq_iff i k, bytes_eq_iff i j, find-delete k j m)

pub has_name-append :
    (n : Bytes) (xs ys : List Bytes) → has_name n (xs ++ ys) ≡ (has_name n xs || has_name n ys)
has_name-append n [] ys = refl
has_name-append n (x ∷ xs) ys = ground (arith, has_name-append n xs ys)

pub drop_name-absent : (n : Bytes) (xs : List Bytes) → has_name n xs ≡ false → drop_name n xs ≡ xs
drop_name-absent n [] h = refl
drop_name-absent n (x ∷ xs) h = ground (arith, drop_name-absent n xs)

pub has_name-drop_name :
    (n k : Bytes) (xs : List Bytes)
    → DistinctNames xs
    → has_name k (drop_name n xs) ≡ (if bytes_eq n k then false else has_name k xs)
has_name-drop_name n k [] d = ground arith
has_name-drop_name n k (x ∷ xs) d =
    ground
      (arith, bytes_eq_iff n k, bytes_eq_iff x n, bytes_eq_iff x k, has_name-drop_name n k xs d.1)

pub drop_name-DistinctNames :
    (n : Bytes) (xs : List Bytes) → DistinctNames xs → DistinctNames (drop_name n xs)
drop_name-DistinctNames n [] d = tt
drop_name-DistinctNames n (x ∷ xs) d =
    ground (arith, has_name-drop_name n x xs d.1, drop_name-DistinctNames n xs d.1)

pub DistinctNames-snoc :
    (n : Bytes) (xs : List Bytes)
    → DistinctNames xs
    → has_name n xs ≡ false
    → DistinctNames (xs ++ n ∷ [])
DistinctNames-snoc n [] d h = (refl, tt)
DistinctNames-snoc n (x ∷ xs) d h = ground (
  arith,
  bytes_eq_iff x n,
  bytes_eq_iff n x,
  has_name-append x xs (n ∷ []),
  DistinctNames-snoc n xs d.1,
)
