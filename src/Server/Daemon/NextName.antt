-- ===== src/Server/Daemon/NextName.antt =====
-- The names that internal/server/server.go gives to sessions created without one.
use ng_mux.Prelude.{
  ℕ, zero, suc, ◌+◌, ◌≤◌, ◌<◌, ◌≡◌, ◌≢◌, ◌⊎◌, inl, inr, refl, ap, ◌∙◌, arith, true, ◌||◌, List, [],
  ◌∷◌, none, some, leb, length, Bytes, bytes_eq_iff, is_some, has_name, drop_name, find, names,
  has_name-names, Option-cases, subst, dec_lt,
}
use ng_mux.Server.Session.{Session}
use ng_mux.Server.Daemon.{Daemon, next_name_from, next_session_name}

has_name-drop_name_other :
    (n k : Bytes) (xs : List Bytes) → n ≢ k → has_name k (drop_name n xs) ≡ has_name k xs
has_name-drop_name_other n k [] h = refl
has_name-drop_name_other n k (x ∷ xs) h =
    ground (arith, bytes_eq_iff x n, bytes_eq_iff x k, has_name-drop_name_other n k xs h)

length-drop_name :
    (n : Bytes) (xs : List Bytes) → has_name n xs ≡ true → suc (length (drop_name n xs)) ≡ length xs
length-drop_name n [] h = absurd (ground arith)
length-drop_name n (x ∷ xs) h = ground (arith, length-drop_name n xs)

module _ (itoa : ℕ → Bytes) (distinct : (i j : ℕ) → itoa i ≡ itoa j → i ≡ j) where
  -- As many names as are taken, all different, need as long a list.
  taken_bound :
      (k : ℕ) (xs : List Bytes) → ((j : ℕ) → j < k → has_name (itoa j) xs ≡ true) → k ≤ length xs
  taken_bound zero xs h = omega arith
  taken_bound (suc k) xs h =
      let rest = drop_name (itoa k) xs in
      let shorter : suc (length rest) ≡ length xs =
        length-drop_name (itoa k) xs (h k (omega arith)) in
      omega (
        arith,
        taken_bound k rest (λ j p.
            has_name-drop_name_other (itoa k) (itoa j) xs
              (λ e. absurd (omega (arith, distinct k j e)))
            ∙ h j (omega arith)),
      )

  module _ {F : Type 0} (m : List (Bytes × Session F)) where
    abbrev Taken : ℕ → Type 0
    Taken j = is_some (find (itoa j) m) ≡ true

    length-names : (ss : List (Bytes × Session F)) → length (names ss) ≡ length ss
    length-names [] = refl
    length-names ((n, s) ∷ ss) = ap suc (length-names ss)

    -- Taken from `i` on and up to `b`.
    abbrev TakenTo : ℕ → ℕ → Type 0
    TakenTo i b = (j : ℕ) → i ≤ j → j < b → Taken j

    extend : (i b : ℕ) → Taken i → TakenTo (i + 1) b → TakenTo i b
    extend i b t h j p q = elim (dec_lt i j) [
      | yes r ↦ h j (omega arith) q
      | no r ↦ let same : i ≡ j = omega arith in subst Taken same t
    ]

    -- What the search finds.
    abbrev Found : ℕ → ℕ → Type 0
    Found fuel i =
        (k : ℕ) × (next_name_from itoa fuel i m ≡ some (itoa k))
        × (find (itoa k) m ≡ none)
        × TakenTo i k

    search_lem : (fuel i : ℕ) → TakenTo i (i + fuel) ⊎ Found fuel i
    unfolding next_name_from
    search_lem zero i = inl (λ j p q. absurd (omega arith))
    search_lem (suc fuel) i = elim (Option-cases (find (itoa i) m)) [
      | inl e ↦ inr (i, rw (e, next_name_from), e, λ j p q. absurd (omega arith))
      | inr (s, e) ↦ elim (search_lem fuel (i + 1)) [
        | inl all ↦ inl (extend i (i + suc fuel) (rw e) (λ j p q. all j p (omega arith)))
        | inr (k, found, free, below) ↦
            inr (k, rw (e, next_name_from) found, free, extend i k (rw e) below)
      ]
    ]

  -- nextSessionName terminates, with fuel for one turn more than there are sessions, and gives
  -- the lowest number whose name is free: no session has that name, and for each number there is
  -- a session of its name or the number is not lower. strconv.Itoa is taken to give different
  -- numbers different names.
  pub next_session_name_lem :
      {F Frame : Type 0} (d : Daemon F Frame)
      → (i : ℕ) × (next_session_name itoa d ≡ some (itoa i))
        × (find (itoa i) d.sessions ≡ none)
        × ((j : ℕ) → (leb i j || is_some (find (itoa j) d.sessions)) ≡ true)
  unfolding next_session_name
  next_session_name_lem d = elim (search_lem d.sessions (length d.sessions + 1) 0) [
    | inl all ↦ absurd (
        omega (
          arith,
          length-names d.sessions,
          taken_bound (length d.sessions + 1) (names d.sessions)
              (λ j p. has_name-names (itoa j) d.sessions ∙ all j (omega arith) (omega arith)),
        ))
    | inr (k, found, free, below) ↦ (
      k,
      found,
      free,
      λ j. elim (dec_lt j k) [
        | yes p ↦ ground (arith, below j (omega arith) p)
        | no p ↦ ground arith
      ],
    )
  ]
