-- ===== src/Server/Daemon/Fitting.antt =====
-- The size that internal/server/server.go gives to a session, from the sizes of its viewers.
use ng_mux.Prelude.{
  ℕ, ◌<◌, min, ◌≡◌, ◌⊎◌, inl, inr, refl, ap, ◌∙◌, arith, Bool, true, false, ◌&&◌, ◌||◌, List, [],
  ◌∷◌, some, if◌then◌else◌, ◌==◌, Bytes, bytes_eq, bytes_eq_iff, find, Bool-cases, All,
}
use ng_mux.Prelude.Int.{ℤ, pos, ltb_ℤ, pos_part}
use ng_mux.Layout.{Float64}
use ng_mux.Server.Session.{Session, resize}
use ng_mux.Server.Client.{Client}
use ng_mux.Server.Viewers.{narrow, narrow_to, smallest}
use ng_mux.Server.Daemon.{Daemon, fit_session, fit_each, fit_sessions}

-- The specification: the least of some numbers, or what there was if there are none.
pub least_from : ℕ → List ℕ → ℕ
least_from a [] = a
least_from a (x ∷ xs) = least_from (min a x) xs

pub fitted : ℕ → List ℕ → ℕ
fitted old [] = old
fitted old (x ∷ xs) = least_from x xs

abbrev has_size : {Frame : Type 0} → Client Frame → Bool
has_size c = ltb_ℤ (pos 0) c.cols && ltb_ℤ (pos 0) c.rows

-- The widths of the viewers of a session whose size is known, and their heights.
pub widths : {Frame : Type 0} → Bytes → List (ℕ × Client Frame) → List ℕ
widths name [] = []
widths name ((id, c) ∷ cs) =
    if bytes_eq c.sess name && has_size c then pos_part c.cols ∷ widths name cs else widths name cs

pub heights : {Frame : Type 0} → Bytes → List (ℕ × Client Frame) → List ℕ
heights name [] = []
heights name ((id, c) ∷ cs) =
    if bytes_eq c.sess name && has_size c
    then pos_part c.rows ∷ heights name cs
    else heights name cs

known_positive :
    {Frame : Type 0} (c : Client Frame)
    → has_size c ≡ true
    → (0 < pos_part c.cols) × (0 < pos_part c.rows)
known_positive c h = ground arith

narrow-min : (a : ℕ) (x : ℤ) → 0 < a → narrow a x ≡ min a (pos_part x)
unfolding narrow
narrow-min a x p = ground arith

narrow-first : (x : ℤ) → narrow 0 x ≡ pos_part x
unfolding narrow
narrow-first x = refl

least_from-positive : (a : ℕ) (xs : List ℕ) → 0 < a → All (λ x. 0 < x) xs → 0 < least_from a xs
unfolding least_from
least_from-positive a [] p h = p
least_from-positive a (x ∷ xs) p h = least_from-positive (min a x) xs (omega arith) h.1

fitted-some : (old : ℕ) (xs : List ℕ) → 0 < fitted 0 xs → fitted old xs ≡ fitted 0 xs
unfolding fitted
fitted-some old [] h = absurd (omega arith)
fitted-some old (x ∷ xs) h = refl

fitted-none : (old : ℕ) (xs : List ℕ) → xs ≡ [] → fitted old xs ≡ old
unfolding fitted
fitted-none old xs e = rw e

module _ {Frame : Type 0} (name : Bytes) where
  -- One viewer's part.
  abbrev joined : ℕ × ℕ → Client Frame → ℕ × ℕ
  joined size c = if bytes_eq c.sess name then narrow_to size c else size

  joined-other :
      (size : ℕ × ℕ) (c : Client Frame)
      → (bytes_eq c.sess name && has_size c) ≡ false
      → joined size c ≡ size
  unfolding narrow_to
  joined-other (a, b) c h = ground arith

  joined-known :
      (a b : ℕ) (c : Client Frame)
      → (bytes_eq c.sess name && has_size c) ≡ true
      → joined (a, b) c ≡ (narrow a c.cols, narrow b c.rows)
  unfolding narrow_to
  joined-known a b c h = ground arith

  smallest_from :
      (a b : ℕ) (cs : List (ℕ × Client Frame))
      → 0 < a
      → 0 < b
      → smallest name (a, b) cs ≡ (least_from a (widths name cs), least_from b (heights name cs))
  unfolding smallest widths heights least_from
  smallest_from a b [] p q = refl
  smallest_from a b ((id, c) ∷ cs) p q = elim (Bool-cases (bytes_eq c.sess name && has_size c)) [
    | inl e ↦
        let known = known_positive c (ground arith) in
        rw e (
          ap (λ size. smallest name size cs) (joined-known a b c e)
          ∙ rw (narrow-min a c.cols p, narrow-min b c.rows q)
              (smallest_from (min a (pos_part c.cols)) (min b (pos_part c.rows)) cs (omega arith)
                (omega arith)))
    | inr e ↦
        rw e
          (ap (λ size. smallest name size cs) (joined-other (a, b) c e) ∙ smallest_from a b cs p q)
  ]

  smallest_lem :
      (cs : List (ℕ × Client Frame))
      → smallest name (0, 0) cs ≡ (fitted 0 (widths name cs), fitted 0 (heights name cs))
  unfolding smallest widths heights fitted
  smallest_lem [] = refl
  smallest_lem ((id, c) ∷ cs) = elim (Bool-cases (bytes_eq c.sess name && has_size c)) [
    | inl e ↦
        let known = known_positive c (ground arith) in
        rw e (
          ap (λ size. smallest name size cs) (joined-known 0 0 c e)
          ∙ rw (narrow-first c.cols, narrow-first c.rows)
              (smallest_from (pos_part c.cols) (pos_part c.rows) cs (known.0) (known.1)))
    | inr e ↦ rw e (ap (λ size. smallest name size cs) (joined-other (0, 0) c e) ∙ smallest_lem cs)
  ]

  widths-positive : (cs : List (ℕ × Client Frame)) → All (λ x. 0 < x) (widths name cs)
  unfolding widths
  widths-positive [] = tt
  widths-positive ((id, c) ∷ cs) = elim (Bool-cases (bytes_eq c.sess name && has_size c)) [
    | inl e ↦ rw e ((known_positive c (ground arith)).0, widths-positive cs)
    | inr e ↦ rw e (widths-positive cs)
  ]

  heights-positive : (cs : List (ℕ × Client Frame)) → All (λ x. 0 < x) (heights name cs)
  unfolding heights
  heights-positive [] = tt
  heights-positive ((id, c) ∷ cs) = elim (Bool-cases (bytes_eq c.sess name && has_size c)) [
    | inl e ↦ rw e ((known_positive c (ground arith)).1, heights-positive cs)
    | inr e ↦ rw e (heights-positive cs)
  ]

  -- There are as many heights as widths.
  both_or_none :
      (cs : List (ℕ × Client Frame))
      → ((widths name cs ≡ []) × (heights name cs ≡ []))
        ⊎ ((0 < fitted 0 (widths name cs)) × (0 < fitted 0 (heights name cs)))
  unfolding widths heights fitted
  both_or_none [] = inl (refl, refl)
  both_or_none ((id, c) ∷ cs) = elim (Bool-cases (bytes_eq c.sess name && has_size c)) [
    | inl e ↦
        let (wide, tall) = known_positive c (ground arith) in
        rw e (
          inr (
            least_from-positive (pos_part c.cols) (widths name cs) wide (widths-positive cs),
            least_from-positive (pos_part c.rows) (heights name cs) tall (heights-positive cs),
          ))
    | inr e ↦ rw e (both_or_none cs)
  ]

module _ (f : Float64) where
  open f use {F}

  fit_session-size :
      (s : Session F) (cols rows : ℕ)
      → ((fit_session f s (cols, rows)).0.cols ≡ (if cols == 0 || rows == 0 then s.cols else cols))
        × ((fit_session f s (cols, rows)).0.rows
            ≡ (if cols == 0 || rows == 0 then s.rows else rows))
  unfolding fit_session resize
  fit_session-size s cols rows = ground arith

module _ (f : Float64) {Frame : Type 0} (name : Bytes) where
  open f use {F}

  find-fit_each :
      (cs : List (ℕ × Client Frame)) (ss : List (Bytes × Session F)) (s : Session F)
      → find name ss ≡ some s
      → find name (fit_each f cs ss) ≡ some (fit_session f s (smallest name (0, 0) cs)).0
  unfolding fit_each
  find-fit_each cs [] s h = absurd (ground arith)
  find-fit_each cs ((n, t) ∷ ss) s h = elim (Bool-cases (bytes_eq n name)) [
    | inl e ↦ let same : n ≡ name = (bytes_eq_iff n name).0 e in rw e (ground arith)
    | inr e ↦ rw e (find-fit_each cs ss s (ground arith))
  ]

  -- fitSessions gives a session with viewers whose size is known (both sides positive) the least
  -- of their widths and the least of their heights, and leaves any other session the size that
  -- it had.
  pub fit_sessions-size :
      (d : Daemon F Frame) (s : Session F)
      → find name d.sessions ≡ some s
      → (t : Session F) × (find name (fit_sessions f d).sessions ≡ some t)
        × (t.cols ≡ fitted s.cols (widths name d.clients))
        × (t.rows ≡ fitted s.rows (heights name d.clients))
  unfolding fit_sessions
  fit_sessions-size d s h =
      let sized =
        fit_session-size f s (fitted 0 (widths name d.clients))
          (fitted 0 (heights name d.clients)) in
      (
        (fit_session f s (fitted 0 (widths name d.clients), fitted 0 (heights name d.clients))).0,
        find-fit_each d.clients d.sessions s h
            ∙ ap (λ size. some (fit_session f s size).0) (smallest_lem name d.clients),
        elim (both_or_none name d.clients) [
          | inl (a, b) ↦ ground (
            arith,
            fitted-none s.cols (widths name d.clients),
            fitted-none 0 (widths name d.clients),
          )
          | inr (a, b) ↦ ground (arith, fitted-some s.cols (widths name d.clients))
        ],
        elim (both_or_none name d.clients) [
          | inl (a, b) ↦ ground (
            arith,
            fitted-none s.rows (heights name d.clients),
            fitted-none 0 (widths name d.clients),
          )
          | inr (a, b) ↦ ground (arith, fitted-some s.rows (heights name d.clients))
        ],
      )
