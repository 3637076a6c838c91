-- ===== src/Sys/Hoare.antt =====
-- What holds after a piece of code returns, rule by rule.
use aim_to_v.Base.{◌≡◌, refl, Bool, true, false, if◌then◌else◌, List, ◌∷◌, List-cases, inl, inr}
use aim_to_v.Sys.{
  Answer, Call, World, End, returned, exited, waiting, out_of_fuel, undefined, Sys, pure, ◌>>=◌,
  call, emit, nothing, exit,
}

unfoldable pub Ends {ℓ} : {A : Type ℓ} → End A × World → (A → World → Type 0) → Type 0
Ends (returned a, w) Q = Q a w
Ends (exited, w) Q = Unit
Ends (waiting, w) Q = Unit
Ends (out_of_fuel, w) Q = ⊥
Ends (undefined, w) Q = ⊥

Ends-step {ℓ κ} :
    {A : Type ℓ} {B : Type κ} (r : End A × World) (f : A → Sys B) (Q : A → World → Type 0)
    (R : B → World → Type 0)
    → Ends r Q
    → ((a : A) (w : World) → Q a w → Ends (f a w) R)
    → Ends (((λ (w : World). r) >>= f) r.1) R
unfolding Ends ◌>>=◌
Ends-step (returned a, w) f Q R h k = k a w h
Ends-step (exited, w) f Q R h k = tt
Ends-step (waiting, w) f Q R h k = tt
Ends-step (out_of_fuel, w) f Q R h k = absurd h
Ends-step (undefined, w) f Q R h k = absurd h

Ends-weaken {ℓ} :
    {A : Type ℓ} (r : End A × World) (Q R : A → World → Type 0)
    → Ends r Q
    → ((a : A) (w : World) → Q a w → R a w)
    → Ends r R
unfolding Ends
Ends-weaken (returned a, w) Q R h k = k a w h
Ends-weaken (exited, w) Q R h k = tt
Ends-weaken (waiting, w) Q R h k = tt
Ends-weaken (out_of_fuel, w) Q R h k = absurd h
Ends-weaken (undefined, w) Q R h k = absurd h

-- The code does not use up its bound and has a defined behaviour, and what it returns, with the world then, satisfies `Q`.
pub record Runs {ℓ} {A : Type ℓ} (m : Sys A) (w : World) (Q : A → World → Type 0) : Type 0 where
  pub ends : Ends (m w) Q

module _ {ℓ} {A : Type ℓ} where
  pub Runs-bind {κ} :
      {B : Type κ} {m : Sys A} {f : A → Sys B} {Q : A → World → Type 0} {R : B → World → Type 0}
      {w : World}
      → Runs m w Q
      → ((a : A) (w' : World) → Q a w' → Runs (f a) w' R)
      → Runs (m >>= f) w R
  unfolding ◌>>=◌
  Runs-bind {m = m} {f} {Q} {R} {w} h k = record {
    ends = Ends-step (m w) f Q R h.ends (λ a w' q. (k a w' q).ends);
  }

  pub Runs-weaken :
      {m : Sys A} {Q R : A → World → Type 0} {w : World}
      → Runs m w Q
      → ((a : A) (w' : World) → Q a w' → R a w')
      → Runs m w R
  Runs-weaken {m} {Q} {R} {w} h k = record { ends = Ends-weaken (m w) Q R h.ends k }

  pub Runs-if :
      (b : Bool) {yes_part no_part : Sys A} {Q : A → World → Type 0} {w : World}
      → (b ≡ true → Runs yes_part w Q)
      → (b ≡ false → Runs no_part w Q)
      → Runs (if b then yes_part else no_part) w Q
  Runs-if true y n = y refl
  Runs-if false y n = n refl

  pub Runs-pure : (a : A) {Q : A → World → Type 0} {w : World} → Q a w → Runs (pure a) w Q
  unfolding pure Ends
  Runs-pure a q = record { ends = q }

pub Runs-exit : {Q : Unit {0} → World → Type 0} {w : World} → Runs exit w Q
unfolding exit Ends
Runs-exit = record { ends = tt }

pub Runs-call :
    (c : Call) {Q : Answer → World → Type 0} {w : World}
    → ((a : Answer) (rest : List Answer)
        → w.answers ≡ a ∷ rest
        → Q a (record { answers = rest; trace = (c, a) ∷ w.trace }))
    → Runs (call c) w Q
unfolding call Ends
Runs-call c {w = w} k = elim (List-cases w.answers) [
  | inl e ↦ record { ends = rw e tt }
  | inr (a, rest, e) ↦ record { ends = rw e (k a rest e) }
]

pub Runs-emit :
    (c : Call) {Q : Unit {0} → World → Type 0} {w : World}
    → Q tt (record w { trace = (c, nothing) ∷ w.trace })
    → Runs (emit c) w Q
unfolding emit Ends
Runs-emit c q = record { ends = q }
