-- ===== src/Vterm/Feed.antt =====
-- Write and incompleteRuneTail of internal/vterm/vterm.go: output of a pane that may be cut in the
-- middle of a rune. The emulator, its panics included, and RuneStart and FullRune of unicode/utf8
-- are parameters; its callbacks, which freeze a frame and keep the rows that scroll off, are left
-- out, and the rows are with the module History.
pub mod Pieces
use ng_mux.Prelude.{
  ℕ, zero, suc, ◌+◌, ◌-◌, Bool, true, false, List, [], ◌∷◌, ◌++◌, Option, none, some, if◌then◌else◌,
  length, Bytes, take, drop, min,
}

-- What a Write of the emulator does: it takes the bytes, reports an error, or panics.
pub data Outcome (E : Type 0) : Type 0 where
  takes reports : E → Outcome E
  panics : Outcome E

pub record Library : Type 1 where
  pub Emulator : Type 0
  pub feed : Emulator → Bytes → Outcome Emulator
  pub new_emulator : ℕ → ℕ → Emulator
  pub rune_start : ℕ → Bool
  pub full_rune : Bytes → Bool

-- Term, as far as Write goes.
pub record Term (E : Type 0) : Type 0 where
  pub emulator : E
  pub cols : ℕ
  pub rows : ℕ
  pub dirty : Bool
  pub pending : Bytes
  pub frozen_on : Bool

pub data WriteError : Type 0 where
  emulator_error emulator_panic : WriteError

-- The terminal after a Write, what the emulator was given, and the error.
pub record Written (E : Type 0) : Type 0 where
  pub term : Term E
  pub fed : Bytes
  pub failed : Option WriteError

module _ (lib : Library) where
  -- The bytes from the one looked at on, and what the rest of the loop answers; `none` is an index
  -- out of range.
  unfoldable pub tail_at : ℕ → Option ℕ → Bytes → Option ℕ
  tail_at i rest [] = none
  tail_at i rest (b ∷ q) =
      if lib.rune_start b then (if lib.full_rune (b ∷ q) then some 0 else some i) else rest

  unfoldable pub scan_tail : Bytes → ℕ → ℕ → Option ℕ
  scan_tail p i zero = some 0
  scan_tail p i (suc k) = tail_at i (scan_tail p (i + 1) k) (drop (length p - i) p)

  unfoldable pub incomplete_rune_tail : Bytes → Option ℕ
  incomplete_rune_tail p = scan_tail p 1 (min 3 (length p))

  -- The deferred function of Write after a panic.
  abbrev pub recovered : Term lib.Emulator → Bytes → Written lib.Emulator
  recovered t fed = record {
    term = record t {
      emulator = lib.new_emulator t.cols t.rows;
      dirty = true;
      pending = [];
      frozen_on = false;
    };
    fed = fed;
    failed = some emulator_panic;
  }

  unfoldable pub conclude :
      Term lib.Emulator → Bytes → Bytes → Outcome lib.Emulator → Written lib.Emulator
  conclude t fed held (takes e) = record {
    term = record t { emulator = e; pending = held };
    fed = fed;
    failed = none;
  }
  conclude t fed held (reports e) = record {
    term = record t { emulator = e };
    fed = fed;
    failed = some emulator_error;
  }
  conclude t fed held panics = recovered t fed

  -- Nothing to feed leaves the emulator alone.
  unfoldable pub feed_or_hold : Term lib.Emulator → Bytes → Bytes → Written lib.Emulator
  feed_or_hold t [] held = conclude t [] held (takes t.emulator)
  feed_or_hold t (b ∷ fed) held = conclude t (b ∷ fed) held (lib.feed t.emulator (b ∷ fed))

  unfoldable pub write_cut : Term lib.Emulator → Bytes → Option ℕ → Written lib.Emulator
  write_cut t buf none = recovered t []
  write_cut t buf (some tail) =
      feed_or_hold t (take (length buf - tail) buf) (drop (length buf - tail) buf)

  unfoldable pub write : Term lib.Emulator → Bytes → Written lib.Emulator
  write t [] = record { term = t; fed = []; failed = none }
  write t (b ∷ p) =
      let buf = t.pending ++ b ∷ p in
      write_cut (record t { dirty = true }) buf (incomplete_rune_tail buf)
