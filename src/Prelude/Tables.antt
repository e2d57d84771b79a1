-- ===== src/Prelude/Tables.antt =====
-- Lists given by a function of the index, and the end of a list.
use Prim.Native.Nat.{ℕ, zero, suc, ◌+◌, ◌-◌, ◌%◌, ◌<◌}
use native.Mathlib.Nat.{mod-eq_of_lt, mod-eq-sub-mod}
use mathlib.Core.Path.{◌≡◌, refl, ap, ◌∙◌}
use mathlib.Core.Logic.{◌≢◌, inl, inr}
use ng_mux.Prelude.Tests.{if◌then◌else◌, ltb, ltb→lt, Bool-cases}
use mathlib.Core.List.{map, List, [], ◌∷◌, ◌++◌}
use native.Mathlib.Omega.{arith}
use ng_mux.Prelude.Lists.{length, get_or, set, take, drop, replicate, length-append}

-- The list of f 0, …, f (n - 1).
abbrev pub tabulate {ℓ} : {A : Type ℓ} → ℕ → (ℕ → A) → List A
tabulate zero f = []
tabulate (suc n) f = tabulate n f ++ f n ∷ []

-- The newest `n` entries.
abbrev pub last {ℓ} : {A : Type ℓ} → ℕ → List A → List A
last n xs = drop (length xs - n) xs

-- An index below twice the capacity, going round once.
pub around : (a c : ℕ) → a < c + c → (a % c ≡ (if ltb a c then a else a - c))
around a c h = elim (Bool-cases (ltb a c)) [
  | inl p ↦ rw p (mod-eq_of_lt (ltb→lt a c p))
  | inr p ↦ rw p (mod-eq-sub-mod {n = a} {m = c} (ground arith) ∙ mod-eq_of_lt (ground arith))
]

module _ {ℓ} {A : Type ℓ} where
  pub length-tabulate : (n : ℕ) (f : ℕ → A) → length (tabulate n f) ≡ n
  length-tabulate zero f = refl
  length-tabulate (suc n) f =
      omega (arith, length-append (tabulate n f) (f n ∷ []), length-tabulate n f)

  pub tabulate-agree :
      (n : ℕ) (f g : ℕ → A) → ((i : ℕ) → i < n → f i ≡ g i) → tabulate n f ≡ tabulate n g
  tabulate-agree zero f g h = refl
  tabulate-agree (suc n) f g h =
      rw (tabulate-agree n f g (λ i p. h i (omega arith)), h n (omega arith))

  pub tabulate-suc : (n : ℕ) (f : ℕ → A) → tabulate (suc n) f ≡ f 0 ∷ tabulate n (λ i. f (suc i))
  tabulate-suc zero f = refl
  tabulate-suc (suc n) f = ap (λ (t : List A). t ++ f (suc n) ∷ []) (tabulate-suc n f)

  pub tabulate-cast : (m n : ℕ) (f : ℕ → A) → m ≡ n → tabulate m f ≡ tabulate n f
  tabulate-cast m n f e = ap (λ k. tabulate k f) e

  pub drop-tabulate :
      (k n : ℕ) (f : ℕ → A) → drop k (tabulate (k + n) f) ≡ tabulate n (λ i. f (k + i))
  drop-tabulate zero n f =
      tabulate-cast (0 + n) n f (omega arith)
      ∙ tabulate-agree n f (λ i. f (0 + i)) (λ i p. ap f (omega arith))
  drop-tabulate (suc k) n f =
      ap (drop (suc k))
        (tabulate-cast (suc k + n) (suc (k + n)) f (omega arith) ∙ tabulate-suc (k + n) f)
      ∙ drop-tabulate k n (λ i. f (suc i))
      ∙ tabulate-agree n (λ i. f (suc (k + i))) (λ i. f (suc k + i)) (λ i p. ap f (omega arith))

  pub get_or-tabulate :
      (n : ℕ) (f : ℕ → A) (rest : List A) (i : ℕ) (d : A)
      → i < n
      → get_or (tabulate n f ++ rest) i d ≡ f i
  get_or-tabulate zero f rest i d h = elim h [ ]
  get_or-tabulate (suc n) f rest zero d h =
      ap (λ (t : List A). get_or (t ++ rest) 0 d) (tabulate-suc n f)
  get_or-tabulate (suc n) f rest (suc i) d h =
      ap (λ (t : List A). get_or (t ++ rest) (suc i) d) (tabulate-suc n f)
      ∙ get_or-tabulate n (λ j. f (suc j)) rest i d (omega arith)

  pub get_or-set_self :
      (xs : List A) (i : ℕ) (v d : A) → i < length xs → get_or (set xs i v) i d ≡ v
  get_or-set_self [] i v d h = elim h [ ]
  get_or-set_self (x ∷ xs) zero v d h = refl
  get_or-set_self (x ∷ xs) (suc i) v d h = get_or-set_self xs i v d (omega arith)

  pub get_or-set_ne :
      (xs : List A) (i j : ℕ) (v d : A) → i ≢ j → get_or (set xs i v) j d ≡ get_or xs j d
  get_or-set_ne [] i j v d h = refl
  get_or-set_ne (x ∷ xs) zero zero v d h = absurd (h refl)
  get_or-set_ne (x ∷ xs) zero (suc j) v d h = refl
  get_or-set_ne (x ∷ xs) (suc i) zero v d h = refl
  get_or-set_ne (x ∷ xs) (suc i) (suc j) v d h = get_or-set_ne xs i j v d (λ e. h (ap suc e))

  pub get_or-append :
      (xs ys : List A) (i : ℕ) (d : A)
      → get_or (xs ++ ys) i d
        ≡ (if ltb i (length xs) then get_or xs i d else get_or ys (i - length xs) d)
  get_or-append [] ys i d = ground arith
  get_or-append (x ∷ xs) ys zero d = ground arith
  get_or-append (x ∷ xs) ys (suc i) d = ground (arith, get_or-append xs ys i d)

  pub get_or-drop :
      (n : ℕ) (xs : List A) (i : ℕ) (d : A) → get_or (drop n xs) i d ≡ get_or xs (n + i) d
  get_or-drop zero xs i d = ap (λ k. get_or xs k d) (omega arith)
  get_or-drop (suc n) [] i d = refl
  get_or-drop (suc n) (x ∷ xs) i d = get_or-drop n xs i d ∙ ap (λ k. get_or (x ∷ xs) k d) next
    where
      next : suc (n + i) ≡ suc n + i
      next = omega arith

  pub get_or-take :
      (n : ℕ) (xs : List A) (i : ℕ) (d : A) → i < n → get_or (take n xs) i d ≡ get_or xs i d
  get_or-take zero xs i d h = elim h [ ]
  get_or-take (suc n) [] i d h = refl
  get_or-take (suc n) (x ∷ xs) zero d h = refl
  get_or-take (suc n) (x ∷ xs) (suc i) d h = get_or-take n xs i d (omega arith)

  pub get_or-replicate : (n i : ℕ) (d : A) → get_or (replicate n d) i d ≡ d
  get_or-replicate zero i d = refl
  get_or-replicate (suc n) zero d = refl
  get_or-replicate (suc n) (suc i) d = get_or-replicate n i d

pub tabulate-get_or {ℓ κ} :
    {A : Type ℓ} {B : Type κ} (g : A → B) (xs : List A) (d : A)
    → tabulate (length xs) (λ i. g (get_or xs i d)) ≡ map g xs
tabulate-get_or g [] d = refl
tabulate-get_or g (x ∷ xs) d =
    tabulate-suc (length xs) (λ i. g (get_or (x ∷ xs) i d))
    ∙ ap (λ r. g x ∷ r) (tabulate-get_or g xs d)
