-- ===== src/Filter/Window.antt =====
-- The filter as it is defined: the sum over the latest inputs, for SIPEngine/FirAlgs.c.
use furikup.Prelude.{◌-◌, List, [], ◌∷◌, Option, ◌≡◌, refl, ap₂, length, take}
use furikup.Filter.Defs.{accumulate}

-- The outputs of a filter, given by its step, for a sequence of inputs.
abbrev pub outputs {ℓ κ μ} :
    {X : Type ℓ} {Y : Type κ} {Z : Type μ} → (X → Z → Y × Z) → List X → Z → List Y
outputs step [] z = []
outputs step (x ∷ xs) z = (step x z).0 ∷ outputs step xs (step x z).1

-- Two filters whose states stay related, with equal outputs, have equal sequences of outputs.
pub outputs_related {ℓ κ μ ν ρ} :
    {X : Type ℓ} {Y : Type κ} {Z : Type μ} {W : Type ν} (R : Z → W → Type ρ) (f : X → Z → Y × Z)
    (g : X → W → Y × W)
    → ((x : X) (z : Z) (w : W) → R z w → ((f x z).0 ≡ (g x w).0) × R (f x z).1 (g x w).1)
    → (xs : List X) (z : Z) (w : W) → R z w
    → outputs f xs z ≡ outputs g xs w
outputs_related R f g keep [] z w r = refl
outputs_related R f g keep (x ∷ xs) z w r =
    let (e, r') = keep x z w r in ap₂ ◌∷◌ e (outputs_related R f g keep xs (f x z).1 (g x w).1 r')

module _ {S : Type 0} (nought : S) (plus times : S → S → S) where
  -- The window holds the latest inputs, the newest first; a new one pushes the oldest out.
  abbrev pub slide : S → List S → List S
  slide input w = input ∷ take (length w - 1) w

  abbrev pub window_step : List S → S → List S → Option S × List S
  window_step h input w =
      (accumulate nought plus times (length w) nought h (slide input w), slide input w)
