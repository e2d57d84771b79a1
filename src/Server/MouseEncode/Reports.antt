-- ===== src/Server/MouseEncode/Reports.antt =====
-- Lemmas about the encoders of internal/server/mouse_encode.go.
use ng_mux.Prelude.{
  ℕ, Bool-cases, ap, ◌||◌, ◌%◌, ◌+◌, ◌-◌, ◌<◌, ◌≤◌, ◌≡◌, ◌⊎◌, inl, inr, refl, arith, Bool, true,
  false, [], ◌∷◌, Option, none, some, Bytes, All,
}
use ng_mux.Prelude.Int.{ℤ, pos, negsuc, ◌-ℤ◌, ◌≤ℤ◌, ltb_ℤ, pos_part}
use ng_mux.Layout.{Rect}
use ng_mux.Server.MouseEncode.{
  InputModes, Kind, press, release, drag, wheel_up, wheel_down, other, wants_mouse_tracking,
  forward_kind_allowed, encode_x10_mouse, local_coords,
}

-- No event is forwarded to an app that did not ask for the mouse, and an app that is told of a kind
-- of event is told of presses too; one that is told of drags is told of releases.
pub forward_kind_allowed_order :
    (m : InputModes) (k : Kind)
    → ((forward_kind_allowed m k ≡ false)
        ⊎ ((wants_mouse_tracking m ≡ true) × (forward_kind_allowed m press ≡ true)))
      × ((forward_kind_allowed m drag ≡ false) ⊎ (forward_kind_allowed m release ≡ true))
unfolding forward_kind_allowed
forward_kind_allowed_order m press = ground arith
forward_kind_allowed_order m release = ground arith
forward_kind_allowed_order m drag = ground arith
forward_kind_allowed_order m wheel_up = ground arith
forward_kind_allowed_order m wheel_down = ground arith
forward_kind_allowed_order m other = ground arith

-- Reading the three values back out of an X10 report.
abbrev decode_x10 : Bytes → Option (ℤ × ℤ × ℤ)
decode_x10 (a ∷ b ∷ c ∷ cb ∷ x ∷ y ∷ []) = some (pos (cb - 32), pos (x - 32), pos (y - 32))
decode_x10 _ = none

abbrev out_of_range : ℤ → ℤ → ℤ → Bool
out_of_range cb x y =
    ltb_ℤ x (pos 1)
    || ltb_ℤ y (pos 1)
    || ltb_ℤ (pos 223) x
    || ltb_ℤ (pos 223) y
    || ltb_ℤ cb (pos 0)
    || ltb_ℤ (pos 223) cb

abbrev wire : ℤ → ℕ
wire v = (32 + pos_part v) % 256

abbrev report : ℤ → ℤ → ℤ → Bytes
report cb x y = 0x1b ∷ b'[' ∷ b'M' ∷ wire cb ∷ wire x ∷ wire y ∷ []

wire-inverse : (v : ℤ) → ltb_ℤ v (pos 0) ≡ false → ltb_ℤ (pos 223) v ≡ false → pos (wire v - 32) ≡ v
wire-inverse (pos n) h k = let small : n ≤ 223 = ground arith in ap pos (omega arith)
wire-inverse (negsuc n) h k = absurd (ground arith)

in_range :
    (cb x y : ℤ)
    → out_of_range cb x y ≡ false
    → (pos (wire cb - 32) ≡ cb) × (pos (wire x - 32) ≡ x) × (pos (wire y - 32) ≡ y)
in_range cb x y h = (
  wire-inverse cb (ground arith) (ground arith),
  wire-inverse x (ground arith) (ground arith),
  wire-inverse y (ground arith) (ground arith),
)

-- An X10 mouse report carries exactly the button and the coordinates that it was made from, in
-- bytes that are below 256: nothing wraps round.
encode_x10_mouse_exact :
    (cb x y : ℤ) (bs : Bytes)
    → encode_x10_mouse cb x y ≡ some bs
    → (decode_x10 bs ≡ some (cb, x, y)) × All (λ b. b < 256) bs
encode_x10_mouse_exact cb x y bs e = elim (Bool-cases (out_of_range cb x y)) [
  | inl far ↦ absurd (unfold encode_x10_mouse in ground arith)
  | inr near ↦
      let (is_cb, is_x, is_y) = in_range cb x y near in
      let made : bs ≡ report cb x y = (unfold encode_x10_mouse in ground arith) in
      rw made (rw (is_cb, is_x, is_y) refl, ground arith)
]

-- The clamped coordinates lie in the rectangle, and are the plain offsets for a point inside it.
pub local_coords_clamped :
    (r : Rect) (x y : ℤ)
    → 1 ≤ r.w
    → 1 ≤ r.h
    → let (lx, ly) = local_coords r x y in
      (pos 0 ≤ℤ lx) × (lx ≤ℤ (pos r.w -ℤ pos 1)) × (pos 0 ≤ℤ ly) × (ly ≤ℤ (pos r.h -ℤ pos 1))
unfolding local_coords ◌-ℤ◌
local_coords_clamped r x y h k = ground arith
