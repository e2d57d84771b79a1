-- ===== src/Layout/Cycling.antt =====
-- Lemmas about Neighbor of internal/layout/layout.go.
use native.Mathlib.Nat.{mod-eq_of_lt, mod-eq-sub-mod}
use ng_mux.Prelude.{
  ℕ, zero, suc, ◌+◌, ◌-◌, ◌%◌, ◌<◌, ◌≡◌, inl, inr, refl, true, List, [], ◌∷◌, Option, some, arith,
  ◌==◌, if◌then◌else◌, contains, Distinct, Bool-cases, length, get_elem?, ap, ◌∙◌,
}
use ng_mux.Prelude.Int.{pos, negsuc, ◌+ℤ◌, go_rem, elem_at?}
use ng_mux.Layout.{PaneId, Node}
use ng_mux.Layout.Tree.{all_panes}
use ng_mux.Layout.Edit.{index_of, neighbor}

index_of_found :
    (t : ℕ) (xs : List ℕ)
    → contains t xs ≡ true
    → (i : ℕ) × (index_of t xs ≡ some i) × (get_elem? xs i ≡ some t) × (i < length xs)
unfolding index_of
index_of_found t [] h = absurd (ground arith)
index_of_found t (x ∷ xs) h = elim (Bool-cases (x == t)) [
  | inl here ↦ (0, ground arith, ground arith, omega arith)
  | inr later ↦
      let (i, found, at, inside) = index_of_found t xs (ground arith) in
      (suc i, ground arith, at, omega arith)
]

pub get_elem?-contains : (xs : List ℕ) (i t : ℕ) → get_elem? xs i ≡ some t → contains t xs ≡ true
get_elem?-contains [] i t e = absurd (ground arith)
get_elem?-contains (x ∷ xs) zero t e = ground arith
get_elem?-contains (x ∷ xs) (suc i) t e = ground (arith, get_elem?-contains xs i t e)

index_of-get_elem? :
    (xs : List ℕ) (i t : ℕ) → Distinct xs → get_elem? xs i ≡ some t → index_of t xs ≡ some i
unfolding index_of
index_of-get_elem? [] i t d e = absurd (ground arith)
index_of-get_elem? (x ∷ xs) zero t d e = ground arith
index_of-get_elem? (x ∷ xs) (suc i) t d e =
    ground (arith, get_elem?-contains xs i t e, index_of-get_elem? xs i t d.1 e)

get_elem?_total : (xs : List ℕ) (i : ℕ) → i < length xs → (t : ℕ) × (get_elem? xs i ≡ some t)
get_elem?_total [] i h = absurd (omega arith)
get_elem?_total (x ∷ xs) zero h = (x, refl)
get_elem?_total (x ∷ xs) (suc i) h = get_elem?_total xs i (omega arith)

-- The indices that the two directions step to.
abbrev pub index_after : ℕ → ℕ → ℕ
index_after i n = if suc i == n then 0 else suc i

abbrev pub index_before : ℕ → ℕ → ℕ
index_before i n = if i == 0 then n - 1 else i - 1

pub mod_after : (i n : ℕ) → i < n → (i + 1 + n) % n ≡ index_after i n
mod_after i n h = grind (arith, mod-eq-sub-mod, mod-eq_of_lt)

pub mod_before : (i n : ℕ) → i < n → (i + n - 1) % n ≡ index_before i n
mod_before i n h = grind (arith, mod-eq-sub-mod, mod-eq_of_lt)

module _ {F : Type 0} (root : Option (Node F)) (distinct : Distinct (all_panes root)) where
  neighbor_after :
      (cur : PaneId) (i : ℕ)
      → index_of cur (all_panes root) ≡ some i
      → i < length (all_panes root)
      → neighbor root cur (pos 1)
        ≡ get_elem? (all_panes root) (index_after i (length (all_panes root)))
  unfolding neighbor elem_at? go_rem ◌+ℤ◌
  neighbor_after cur i e h = ground (arith, mod_after i (length (all_panes root)) h)

  neighbor_before :
      (cur : PaneId) (i : ℕ)
      → index_of cur (all_panes root) ≡ some i
      → i < length (all_panes root)
      → neighbor root cur (negsuc 0)
        ≡ get_elem? (all_panes root) (index_before i (length (all_panes root)))
  unfolding neighbor elem_at? go_rem ◌+ℤ◌
  neighbor_before cur i e h = ground (arith, mod_before i (length (all_panes root)) h)

  -- Neighbor with +1 and with -1, from a pane of a tree without repeated panes, answers with a
  -- pane of the tree, no index being out of range, and the two directions undo one another.
  pub neighbor_inverse :
      (cur : PaneId)
      → contains cur (all_panes root) ≡ true
      → (after : PaneId) × (before : PaneId) × (neighbor root cur (pos 1) ≡ some after)
        × (neighbor root after (negsuc 0) ≡ some cur)
        × (neighbor root cur (negsuc 0) ≡ some before)
        × (neighbor root before (pos 1) ≡ some cur)
        × (contains after (all_panes root) ≡ true)
        × (contains before (all_panes root) ≡ true)
  neighbor_inverse cur h =
      let ids = all_panes root in
      let n = length ids in
      let (i, found, at, inside) = index_of_found cur ids h in
      let up : index_after i n < n = ground arith in
      let down : index_before i n < n = ground arith in
      let (after, at_after) = get_elem?_total ids (index_after i n) up in
      let (before, at_before) = get_elem?_total ids (index_before i n) down in
      let found_after = index_of-get_elem? ids (index_after i n) after distinct at_after in
      let found_before = index_of-get_elem? ids (index_before i n) before distinct at_before in
      let up_down : index_before (index_after i n) n ≡ i = ground arith in
      let down_up : index_after (index_before i n) n ≡ i = ground arith in
      (
        after,
        before,
        neighbor_after cur i found inside ∙ at_after,
        neighbor_before after (index_after i n) found_after up ∙ ap (get_elem? ids) up_down ∙ at,
        neighbor_before cur i found inside ∙ at_before,
        neighbor_after before (index_before i n) found_before down
            ∙ ap (get_elem? ids) down_up
            ∙ at,
        get_elem?-contains ids (index_after i n) after at_after,
        get_elem?-contains ids (index_before i n) before at_before,
      )
