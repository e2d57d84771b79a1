-- ===== src/Vterm/Feed/Pieces.antt =====
-- What Write of internal/vterm/vterm.go hands on and holds back.
use mathlib.Core.List.{append_assoc, append-nil}
use ng_mux.Prelude.{
  ℕ, zero, suc, ◌+◌, ◌-◌, ◌≡◌, ◌≤◌, refl, sym, ap, ◌∙◌, inl, inr, arith, Bool, true, false, List,
  [], ◌∷◌, ◌++◌, Option, none, some, length, Bytes, take, drop, min, take-append-drop, length-drop,
  Bool-cases, subst,
}
use ng_mux.Vterm.Feed.{Outcome, takes, reports, panics, Library, Term, Written}
use ng_mux.Vterm.Feed

abbrev pub concat : List Bytes → Bytes
concat [] = []
concat (p ∷ ps) = p ++ concat ps

abbrev pub accepts : {E : Type 0} → Outcome E → Bool
accepts (takes e) = true
accepts (reports e) = false
accepts panics = false

abbrev pub or_else {ℓ} : {A : Type ℓ} → Option A → Option A → Option A
or_else none o = o
or_else (some a) o = some a

module _ (lib : Library) where
  -- Bytes that begin a rune and are at most three, which more bytes may complete, or none.
  abbrev pub IsWaiting : Bytes → Type 0
  IsWaiting [] = Unit {0}
  IsWaiting (b ∷ q) =
      (lib.rune_start b ≡ true) × (lib.full_rune (b ∷ q) ≡ false) × (length (b ∷ q) ≤ 3)

  abbrev Cut : Bytes → Option ℕ → Type 0
  Cut p none = ⊥
  Cut p (some i) = IsWaiting (drop (length p - i) p)

  minus_zero : (n : ℕ) → n - 0 ≡ n
  minus_zero n = omega arith

  drop_all : (p : Bytes) → drop (length p) p ≡ []
  drop_all [] = refl
  drop_all (b ∷ p) = drop_all p

  none-Cut : (p : Bytes) → Cut p (some 0)
  none-Cut p = subst IsWaiting (sym (ap (λ n. drop n p) (minus_zero (length p)) ∙ drop_all p)) tt

  tail_at-Cut :
      (p : Bytes) (i : ℕ) (rest : Option ℕ) (q : Bytes)
      → drop (length p - i) p ≡ q
      → 1 ≤ i
      → i ≤ 3
      → length q ≡ i
      → Cut p rest
      → Cut p (Feed.tail_at lib i rest q)
  unfolding Feed.tail_at
  tail_at-Cut p i rest [] e o l n h = absurd (omega arith)
  tail_at-Cut p i rest (b ∷ q) e o l n h = elim (Bool-cases (lib.rune_start b)) [
    | inl s ↦ elim (Bool-cases (lib.full_rune (b ∷ q))) [
      | inl f ↦ rw (s, f) (none-Cut p)
      | inr f ↦ rw (s, f) (subst IsWaiting (sym e) (s, f, omega arith))
    ]
    | inr s ↦ rw s h
  ]

  scan_tail-Cut :
      (p : Bytes) (i k : ℕ)
      → 1 ≤ i
      → i + k ≤ length p + 1
      → i + k ≤ 4
      → Cut p (Feed.scan_tail lib p i k)
  unfolding Feed.scan_tail
  scan_tail-Cut p i zero o l m = none-Cut p
  scan_tail-Cut p i (suc k) o l m =
      tail_at-Cut p i (Feed.scan_tail lib p (i + 1) k) (drop (length p - i) p) refl o (omega arith)
        (omega (arith, length-drop (length p - i) p))
        (scan_tail-Cut p (i + 1) k (omega arith) (omega arith) (omega arith))

  -- The scan is never out of range, and what it cuts off is waiting for more.
  incomplete_rune_tail-Cut : (p : Bytes) → Cut p (Feed.incomplete_rune_tail lib p)
  unfolding Feed.incomplete_rune_tail
  incomplete_rune_tail-Cut p =
      scan_tail-Cut p 1 (min 3 (length p)) (omega arith) (omega arith) (omega arith)

  -- A Write that hands on `w.fed`, of the bytes that it was given.
  abbrev pub Passes : Bytes → Written lib.Emulator → Type 0
  Passes buf w = (w.failed ≡ none) × ((w.fed ++ w.term.pending ≡ buf) × IsWaiting w.term.pending)

  -- Writes, one after the other, with all that they hand on and the first error.
  unfoldable pub write_pieces : Term lib.Emulator → List Bytes → Written lib.Emulator
  write_pieces t [] = record { term = t; fed = []; failed = none }
  write_pieces t (p ∷ ps) =
      let w = Feed.write lib t p in
      let rest = write_pieces w.term ps in
      record { term = rest.term; fed = w.fed ++ rest.fed; failed = or_else w.failed rest.failed }

  module _ (takes_all : (e : lib.Emulator) (p : Bytes) → accepts (lib.feed e p) ≡ true) where
    conclude-Passes :
        (t : Term lib.Emulator) (fed held : Bytes) (o : Outcome lib.Emulator)
        → accepts o ≡ true
        → IsWaiting held
        → Passes (fed ++ held) (Feed.conclude lib t fed held o)
    unfolding Feed.conclude
    conclude-Passes t fed held (takes e) a h = (refl, (refl, h))
    conclude-Passes t fed held (reports e) a h = absurd (ground arith)
    conclude-Passes t fed held panics a h = absurd (ground arith)

    feed_or_hold-Passes :
        (t : Term lib.Emulator) (fed held : Bytes)
        → IsWaiting held
        → Passes (fed ++ held) (Feed.feed_or_hold lib t fed held)
    unfolding Feed.feed_or_hold
    feed_or_hold-Passes t [] held h = conclude-Passes t [] held (takes t.emulator) refl h
    feed_or_hold-Passes t (b ∷ fed) held h =
        conclude-Passes t (b ∷ fed) held (lib.feed t.emulator (b ∷ fed))
          (takes_all t.emulator (b ∷ fed)) h

    write_cut-Passes :
        (t : Term lib.Emulator) (buf : Bytes) (o : Option ℕ)
        → Cut buf o
        → Passes buf (Feed.write_cut lib t buf o)
    unfolding Feed.write_cut
    write_cut-Passes t buf none h = absurd h
    write_cut-Passes t buf (some i) h =
        let k = length buf - i in
        subst (λ x. Passes x (Feed.feed_or_hold lib t (take k buf) (drop k buf)))
          (take-append-drop k buf) (feed_or_hold-Passes t (take k buf) (drop k buf) h)

    write-Passes :
        (t : Term lib.Emulator) (p : Bytes)
        → IsWaiting t.pending
        → Passes (t.pending ++ p) (Feed.write lib t p)
    unfolding Feed.write
    write-Passes t [] h = (refl, (sym (append-nil t.pending), h))
    write-Passes t (b ∷ p) h =
        write_cut-Passes (record t { dirty = true }) (t.pending ++ b ∷ p)
          (Feed.incomplete_rune_tail lib (t.pending ++ b ∷ p))
          (incomplete_rune_tail-Cut (t.pending ++ b ∷ p))

    then-Passes :
        (first rest buf more : Bytes) (e f : Option Feed.WriteError) (t : Term lib.Emulator)
        (held : Bytes)
        → e ≡ none
        → first ++ held ≡ buf
        → Passes (held ++ more) (record { term = t; fed = rest; failed = f })
        → Passes (buf ++ more) (record { term = t; fed = first ++ rest; failed = or_else e f })
    then-Passes first rest buf more e f t held n c h = (
      rw n h.0,
      (
        append_assoc first rest t.pending
            ∙ ap (◌++◌ first) h.1.0
            ∙ sym (append_assoc first held more)
            ∙ ap (λ x. x ++ more) c,
        h.1.1,
      ),
    )

    -- However the output of a pane is cut into Writes, from a terminal that holds back the start
    -- of a rune or nothing, with an emulator that takes what it is given: no Write fails; the
    -- emulator is given, in order, what was held back and then every byte written, less what is
    -- held back at the end; and that is nothing, or at most three bytes that start a rune and
    -- are not a full one.
    pub write_pieces-Passes :
        (t : Term lib.Emulator) (ps : List Bytes)
        → IsWaiting t.pending
        → Passes (t.pending ++ concat ps) (write_pieces t ps)
    unfolding write_pieces
    write_pieces-Passes t [] h = (refl, (sym (append-nil t.pending), h))
    write_pieces-Passes t (p ∷ ps) h =
        let w = Feed.write lib t p in
        let v = write-Passes t p h in
        let r = write_pieces w.term ps in
        subst (λ x. Passes x (write_pieces t (p ∷ ps))) (append_assoc t.pending p (concat ps))
          (then-Passes w.fed r.fed (t.pending ++ p) (concat ps) w.failed r.failed r.term
            w.term.pending v.0 v.1.0 (write_pieces-Passes w.term ps v.1.1))
