-- ===== src/Singleton/References.antt =====
-- The references that `Singleton::instance` of include/instance.h gives out, as long as nothing is
-- released.
use aim_to_v.Base.{
  ℕ, ◌≤◌, ◌≡◌, ◌≢◌, refl, ◌==◌, if◌then◌else◌, Option, none, some, Option-cases, Bool-cases, inl,
  inr, arith,
}
use aim_to_v.Singleton.{
  Place, outside, to_create, creating, making, storing, created, to_return, holds, null_reference,
  to_release, releasing, deleting, clearing, released, Shared, move, new_object, delete_object,
  tested_to_create, reference, Step, Reachable, start, at_start, then_step, sees_it, misses_it,
  locks_to_create, tests_to_create, makes, stores, unlocks_created, returns, is_done,
  sees_it_to_release, locks_to_release, tests_to_release, deletes, clears, unlocks_released,
}
use aim_to_v.Singleton.Exclusion.{stores_over_null}

-- What a thread at this place may count on.
abbrev pub Fine : Place → Option ℕ → Type 0
Fine (holds o) i = i ≡ some o
Fine created i = (o : ℕ) × (i ≡ some o)
Fine to_return i = (o : ℕ) × (i ≡ some o)
Fine null_reference i = ⊥
Fine to_release i = ⊥
Fine releasing i = ⊥
Fine deleting i = ⊥
Fine clearing i = ⊥
Fine released i = ⊥
Fine p i = Unit

Fine-move :
    (places : ℕ → Place) (t : ℕ) (p : Place) (i : Option ℕ)
    → Fine p i
    → ((u : ℕ) → Fine (places u) i)
    → (u : ℕ) → Fine (if u == t then p else places u) i
Fine-move places t p i new old u = elim (Bool-cases (u == t)) [
  | inl same ↦ rw same new
  | inr differs ↦ rw differs (old u)
]

Fine-some : (p : Place) (o : ℕ) → Fine p none → Fine p (some o)
Fine-some (holds o') o h = absurd (ground arith)
Fine-some created o (x, h) = absurd (ground arith)
Fine-some to_return o (x, h) = absurd (ground arith)
Fine-some null_reference o h = h
Fine-some to_release o h = h
Fine-some releasing o h = h
Fine-some deleting o h = h
Fine-some clearing o h = h
Fine-some released o h = h
Fine-some outside o h = tt
Fine-some to_create o h = tt
Fine-some creating o h = tt
Fine-some making o h = tt
Fine-some (storing o') o h = tt

Lasting : Shared → Type 0
Lasting s = (u : ℕ) → Fine (s.places u) s.instance

tests_to_create-Lasting :
    (t : ℕ) (s : Shared) → Lasting s → Lasting (move t (tested_to_create s.instance) s)
unfolding Lasting
tests_to_create-Lasting t s h =
    Fine-move s.places t (tested_to_create s.instance) s.instance
      (elim (Option-cases s.instance) [ inl e ↦ rw e tt | inr (o, e) ↦ rw e (o, refl) ]) h

-- The object that is stored is the first one.
stores-Lasting :
    (t o : ℕ) (s : Shared)
    → s.instance ≡ none
    → Lasting s
    → Lasting (move t created (record s { instance = some o }))
unfolding Lasting
stores-Lasting t o s e h =
    Fine-move s.places t created (some o) (o, refl) (λ u. Fine-some (s.places u) o (rw e at (h u)))

Step-Lasting : {s s' : Shared} → Step s s' → Reachable s → s'.releases ≡ 0 → Lasting s → Lasting s'
unfolding Lasting new_object delete_object
Step-Lasting (sees_it t o s p i) r z h = Fine-move s.places t to_return s.instance (o, i) h
Step-Lasting (misses_it t s p i) r z h = Fine-move s.places t to_create s.instance tt h
Step-Lasting (locks_to_create t s p l) r z h = Fine-move s.places t creating s.instance tt h
Step-Lasting (tests_to_create t s p) r z h = tests_to_create-Lasting t s h
Step-Lasting (makes t s p) r z h = Fine-move s.places t (storing s.made) s.instance tt h
Step-Lasting (stores t o s p) r z h = stores-Lasting t o s (stores_over_null t o s r p) h
Step-Lasting (unlocks_created t s p) r z h =
    Fine-move s.places t to_return s.instance (rw p at (h t)) h
Step-Lasting (returns t s p) r z h =
    let seen : Fine to_return s.instance = rw p at (h t) in
    Fine-move s.places t (reference s.instance) s.instance (rw seen.1 refl) h
Step-Lasting (is_done t o s p) r z h = Fine-move s.places t outside s.instance tt h
Step-Lasting (sees_it_to_release t o s p i) r z h = absurd (omega (arith, z))
Step-Lasting (locks_to_release t s p l) r z h = absurd (rw p at (h t))
Step-Lasting (tests_to_release t s p) r z h = absurd (rw p at (h t))
Step-Lasting (deletes t s p) r z h = absurd (rw p at (h t))
Step-Lasting (clears t s p) r z h = absurd (rw p at (h t))
Step-Lasting (unlocks_released t s p) r z h = absurd (rw p at (h t))

-- The count of releases only rises.
Step-releases : {s s' : Shared} → Step s s' → s.releases ≤ s'.releases
unfolding new_object delete_object
Step-releases (sees_it t o s p i) = omega arith
Step-releases (misses_it t s p i) = omega arith
Step-releases (locks_to_create t s p l) = omega arith
Step-releases (tests_to_create t s p) = omega arith
Step-releases (makes t s p) = omega arith
Step-releases (stores t o s p) = omega arith
Step-releases (unlocks_created t s p) = omega arith
Step-releases (returns t s p) = omega arith
Step-releases (is_done t o s p) = omega arith
Step-releases (sees_it_to_release t o s p i) = omega arith
Step-releases (locks_to_release t s p l) = omega arith
Step-releases (tests_to_release t s p) = omega arith
Step-releases (deletes t s p) = ground arith
Step-releases (clears t s p) = omega arith
Step-releases (unlocks_released t s p) = omega arith

Reachable-Lasting : {s : Shared} → Reachable s → s.releases ≡ 0 → Lasting s
unfolding start Lasting
Reachable-Lasting at_start z = λ u. tt
Reachable-Lasting (then_step r step) z =
    Step-Lasting step r z (Reachable-Lasting r (omega (arith, Step-releases step, z)))

-- In every order of the threads' steps, as long as no thread has gone into release past its
-- first test, two references that threads hold are to the same object, and instance_ points to
-- it.
pub Reachable-same_reference :
    (s : Shared) (t u a b : ℕ)
    → Reachable s
    → s.releases ≡ 0
    → s.places t ≡ holds a
    → s.places u ≡ holds b
    → (a ≡ b) × (s.instance ≡ some a)
unfolding Lasting
Reachable-same_reference s t u a b r z ha hb =
    let fine = Reachable-Lasting r z in
    let ia : s.instance ≡ some a = rw ha at (fine t) in
    let ib : s.instance ≡ some b = rw hb at (fine u) in (ground (arith, ia, ib), ia)

pub Reachable-no_null :
    (s : Shared) (t : ℕ) → Reachable s → s.releases ≡ 0 → s.places t ≢ null_reference
unfolding Lasting
Reachable-no_null s t r z e = rw e at (Reachable-Lasting r z t)
