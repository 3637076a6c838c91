-- ===== src/Singleton/Exclusion.antt =====
-- The guarantees of `Singleton` of include/instance.h in every order of the threads' steps.
use aim_to_v.Base.{
  ℕ, ◌+◌, ◌≤◌, ◌≡◌, refl, true, false, ◌==◌, Option, none, some, List, [], ◌∷◌, length,
  Option-cases, Bool-cases, inl, inr, arith,
}
use aim_to_v.Singleton.{
  Place, outside, to_create, creating, making, storing, created, to_return, holds, null_reference,
  to_release, releasing, deleting, clearing, released, is_critical, Shared, move, new_object,
  delete_object, without, tested_to_create, tested_to_release, reference, Step, Reachable, start,
  at_start, then_step, sees_it, misses_it, locks_to_create, tests_to_create, makes, stores,
  unlocks_created, returns, is_done, sees_it_to_release, locks_to_release, tests_to_release,
  deletes, clears, unlocks_released,
}

abbrev pub only : Option ℕ → List ℕ
only none = []
only (some o) = o ∷ []

-- What is made and pointed to while a thread is at a place under the lock.
abbrev Owned : Place → Option ℕ → List ℕ → Type 0
Owned making i live = (i ≡ none) × (live ≡ [])
Owned (storing o) i live = (i ≡ none) × (live ≡ o ∷ [])
Owned deleting i live = (o : ℕ) × (i ≡ some o) × (live ≡ o ∷ [])
Owned clearing i live = (o : ℕ) × (i ≡ some o) × (live ≡ [])
Owned p i live = live ≡ only i

record Sound (s : Shared) : Type 0 where
  owner : (t : ℕ) → is_critical (s.places t) ≡ true → s.lock ≡ some t
  owned : (t : ℕ) → s.lock ≡ some t → Owned (s.places t) s.instance s.live
  held : (t : ℕ) → s.lock ≡ some t → is_critical (s.places t) ≡ true
  free : s.lock ≡ none → s.live ≡ only s.instance

module _ (t : ℕ) (p : Place) (s : Shared) (sound : Sound s) where
  -- A step away from the lock.
  away :
      is_critical (s.places t) ≡ false
      → is_critical p ≡ false
      → (releases : ℕ) → Sound (move t p (record s { releases = releases }))
  away before after releases = record {
    owner = λ u c. elim (Bool-cases (u == t)) [
      | inl same ↦ absurd (ground arith)
      | inr differs ↦ sound.owner u (ground arith)
    ];
    owned = λ u l. elim (Bool-cases (u == t)) [
      | inl same ↦ absurd (ground (arith, sound.held u l))
      | inr differs ↦ rw differs (sound.owned u l)
    ];
    held = λ u l. ground (arith, sound.held u l);
    free = sound.free;
  }

  locks :
      s.lock ≡ none
      → is_critical p ≡ true
      → Owned p s.instance s.live
      → Sound (move t p (record s { lock = some t }))
  locks l after own = record {
    owner = λ u c. elim (Bool-cases (u == t)) [
      | inl same ↦ ground arith
      | inr differs ↦ absurd (ground (arith, sound.owner u))
    ];
    owned = λ u h. let same : (u == t) ≡ true = ground arith in rw same own;
    held = λ u h. ground arith;
    free = λ h. absurd (ground arith);
  }

  inside :
      is_critical (s.places t) ≡ true
      → is_critical p ≡ true
      → (made : ℕ) (instance : Option ℕ) (live : List ℕ) → Owned p instance live
      → Sound (move t p (record s { made = made; instance = instance; live = live }))
  inside before after made instance live own =
      let mine : s.lock ≡ some t = sound.owner t before in
      record {
        owner = λ u c. elim (Bool-cases (u == t)) [
          | inl same ↦ ground arith
          | inr differs ↦ sound.owner u (ground arith)
        ];
        owned = λ u h. let same : (u == t) ≡ true = ground (arith, mine) in rw same own;
        held = λ u h. ground (arith, mine);
        free = λ h. absurd (ground (arith, mine));
      }

  unlocks :
      is_critical (s.places t) ≡ true
      → is_critical p ≡ false
      → s.live ≡ only s.instance
      → Sound (move t p (record s { lock = none }))
  unlocks before after own =
      let mine : s.lock ≡ some t = sound.owner t before in
      record {
        owner = λ u c. absurd (elim (Bool-cases (u == t)) [
          | inl same ↦ ground arith
          | inr differs ↦ ground (arith, sound.owner u, mine)
        ]);
        owned = λ u h. absurd (ground arith);
        held = λ u h. absurd (ground arith);
        free = λ h. own;
      }

-- What the thread that has the lock knows of the object.
at_place :
    (t : ℕ) (p : Place) (s : Shared)
    → Sound s
    → s.places t ≡ p
    → is_critical p ≡ true
    → Owned p s.instance s.live
at_place t p s sound e c = rw e at (sound.owned t (sound.owner t (rw e c)))

without-only : (o : ℕ) → without o (o ∷ []) ≡ []
without-only o = ground arith

tests_to_create-Sound :
    (t : ℕ) (s : Shared)
    → Sound s
    → s.places t ≡ creating
    → Sound (move t (tested_to_create s.instance) s)
tests_to_create-Sound t s sound e =
    let own = at_place t creating s sound e refl in
    let tested : is_critical (tested_to_create s.instance) ≡ true = ground arith in
    inside t (tested_to_create s.instance) s sound (rw e refl) tested s.made s.instance s.live
      (elim (Option-cases s.instance) [
        | inl i ↦ rw i (refl, rw i at own)
        | inr (o, i) ↦ rw i (rw i at own)
      ])

tests_to_release-Sound :
    (t : ℕ) (s : Shared)
    → Sound s
    → s.places t ≡ releasing
    → Sound (move t (tested_to_release s.instance) s)
tests_to_release-Sound t s sound e =
    let own = at_place t releasing s sound e refl in
    let tested : is_critical (tested_to_release s.instance) ≡ true = ground arith in
    inside t (tested_to_release s.instance) s sound (rw e refl) tested s.made s.instance s.live
      (elim (Option-cases s.instance) [
        | inl i ↦ rw i (rw i at own)
        | inr (o, i) ↦ rw i (o, refl, rw i at own)
      ])

delete_object_one :
    (s : Shared) (o : ℕ)
    → s.instance ≡ some o
    → s.live ≡ o ∷ []
    → delete_object s ≡ record s { live = [] }
unfolding delete_object
delete_object_one s o i l = ground (arith, without-only o)

deletes-Sound :
    (t : ℕ) (s : Shared)
    → Sound s
    → s.places t ≡ deleting
    → Sound (move t clearing (delete_object s))
deletes-Sound t s sound e =
    let own = at_place t deleting s sound e refl in
    let deleted = delete_object_one s own.0 own.1 own.2 in
    rw deleted
      (inside t clearing s sound (rw e refl) refl s.made s.instance [] (own.0, own.1, refl))

Step-Sound : {s s' : Shared} → Step s s' → Sound s → Sound s'
unfolding new_object
Step-Sound (sees_it t o s p i) h = away t to_return s h (rw p refl) refl s.releases
Step-Sound (misses_it t s p i) h = away t to_create s h (rw p refl) refl s.releases
Step-Sound (locks_to_create t s p l) h = locks t creating s h l refl (h.free l)
Step-Sound (tests_to_create t s p) h = tests_to_create-Sound t s h p
Step-Sound (makes t s p) h =
    let (i, live) = at_place t making s h p refl in
    inside t (storing s.made) s h (rw p refl) refl (s.made + 1) s.instance (s.made ∷ s.live)
      (i, rw live refl)
Step-Sound (stores t o s p) h =
    let (i, live) = at_place t (storing o) s h p refl in
    inside t created s h (rw p refl) refl s.made (some o) s.live live
Step-Sound (unlocks_created t s p) h =
    unlocks t to_return s h (rw p refl) refl (at_place t created s h p refl)
Step-Sound (returns t s p) h =
    let back : is_critical (reference s.instance) ≡ false = ground arith in
    away t (reference s.instance) s h (rw p refl) back s.releases
Step-Sound (is_done t o s p) h = away t outside s h (rw p refl) refl s.releases
Step-Sound (sees_it_to_release t o s p i) h =
    away t to_release s h (rw p refl) refl (s.releases + 1)
Step-Sound (locks_to_release t s p l) h = locks t releasing s h l refl (h.free l)
Step-Sound (tests_to_release t s p) h = tests_to_release-Sound t s h p
Step-Sound (deletes t s p) h = deletes-Sound t s h p
Step-Sound (clears t s p) h =
    let (o, i, live) = at_place t clearing s h p refl in
    inside t released s h (rw p refl) refl s.made none s.live live
Step-Sound (unlocks_released t s p) h =
    unlocks t outside s h (rw p refl) refl (at_place t released s h p refl)

Reachable-Sound : {s : Shared} → Reachable s → Sound s
unfolding start
Reachable-Sound at_start = record {
  owner = λ t c. absurd (ground arith);
  owned = λ t h. absurd (ground arith);
  held = λ t h. absurd (ground arith);
  free = λ h. refl;
}
Reachable-Sound (then_step r step) = Step-Sound step (Reachable-Sound r)

Owned-one : (p : Place) (i : Option ℕ) (live : List ℕ) → Owned p i live → length live ≤ 1
Owned-one making i live (i', l) = rw l (omega arith)
Owned-one deleting i live (o, i', l) = rw l (omega arith)
Owned-one clearing i live (o, i', l) = rw l (omega arith)
Owned-one (storing o) i live (i', l) = rw l (omega arith)
Owned-one outside i live h = rw h (ground arith)
Owned-one to_create i live h = rw h (ground arith)
Owned-one creating i live h = rw h (ground arith)
Owned-one created i live h = rw h (ground arith)
Owned-one to_return i live h = rw h (ground arith)
Owned-one (holds o) i live h = rw h (ground arith)
Owned-one null_reference i live h = rw h (ground arith)
Owned-one to_release i live h = rw h (ground arith)
Owned-one releasing i live h = rw h (ground arith)
Owned-one released i live h = rw h (ground arith)

-- In every order of the steps of any threads in instance and release, where each test, new,
-- store, delete and store of null is a step of its own, there is never more than one object, and
-- whenever the lock is free the objects that have been made and not deleted are exactly the one
-- that instance_ points to, or none where it is null.
pub Reachable-one_instance :
    (s : Shared) → Reachable s → (length s.live ≤ 1) × (s.lock ≡ none → s.live ≡ only s.instance)
Reachable-one_instance s r =
    let sound = Reachable-Sound r in
    (
      elim (Option-cases s.lock) [
        | inl free ↦ rw (sound.free free) (ground arith)
        | inr (t, l) ↦ Owned-one (s.places t) s.instance s.live (sound.owned t l)
      ],
      sound.free,
    )

-- The thread that is about to store an object finds that instance_ is still null.
pub stores_over_null :
    (t o : ℕ) (s : Shared) → Reachable s → s.places t ≡ storing o → s.instance ≡ none
stores_over_null t o s r p = (at_place t (storing o) s (Reachable-Sound r) p refl).0
