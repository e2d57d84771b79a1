-- ===== src/Server/Commands/Arguments.antt =====
-- The argument helpers of internal/server/command.go.
use ng_mux.Prelude.{
  ◌≡◌, ◌⊎◌, inl, inr, refl, ap, false, List, [], ◌∷◌, ◌++◌, Bytes, bytes_eq, bytes_eq_iff,
  Bool-cases,
}
use ng_mux.Server.Commands.{has_flag, take_flag_value}

-- takeFlagValue either leaves the arguments as they are, with no value, or takes the flag and
-- the argument behind it out of their place, with no such flag before it.
pub take_flag_value_cases :
    (args : List Bytes) (flag : Bytes)
    → (take_flag_value args flag ≡ ([], args))
      ⊎ ((before : List Bytes) × (v : Bytes) × (after : List Bytes) × (args
            ≡ before ++ (flag ∷ v ∷ after))
          × (take_flag_value args flag ≡ (v, before ++ after))
          × (has_flag before flag ≡ false))
unfolding take_flag_value has_flag
take_flag_value_cases [] flag = inl refl
take_flag_value_cases (a ∷ []) flag = inl refl
take_flag_value_cases (a ∷ b ∷ args) flag = elim (Bool-cases (bytes_eq a flag)) [
  | inl here ↦ inr (
    [],
    b,
    args,
    ap (λ (x : Bytes). x ∷ b ∷ args) ((bytes_eq_iff a flag).0 here),
    rw here refl,
    refl,
  )
  | inr on ↦ elim (take_flag_value_cases (b ∷ args) flag) [
    | inl same ↦ inl (rw (on, same) refl)
    | inr (before, v, after, whole, taken, first) ↦ inr (
      a ∷ before,
      v,
      after,
      ap (λ (l : List Bytes). a ∷ l) whole,
      rw (on, taken) refl,
      rw (on, first) refl,
    )
  ]
]
