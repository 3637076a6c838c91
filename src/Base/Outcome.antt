-- ===== src/Base/Outcome.antt =====
-- How a loop on fuel ends: with a state, in undefined behaviour, or not within its fuel.
use mathlib.Core.Option.{Option, none, some}
use mathlib.Core.Path.{◌≡◌, refl}
use mathlib.Core.Logic.{◌⊎◌, inl, inr}

pub data Outcome {ℓ} (S : Type ℓ) : Type ℓ where
  done : S → Outcome S
  undefined : Outcome S
  out_of_fuel : Outcome S

-- Go on from a step that may be undefined.
abbrev pub continue {ℓ κ} : {S : Type ℓ} {T : Type κ} → Option S → (S → Outcome T) → Outcome T
continue none k = undefined
continue (some s) k = k s

pub Outcome-cases {ℓ} :
    {S : Type ℓ} (o : Outcome S) → ((s : S) × (o ≡ done s)) ⊎ ((o ≡ undefined) ⊎ (o ≡ out_of_fuel))
Outcome-cases (done s) = inl (s, refl)
Outcome-cases undefined = inr (inl refl)
Outcome-cases out_of_fuel = inr (inr refl)
