-- ===== src/Singleton.antt =====
-- `Singleton` of include/instance.h: threads that call `instance` and `release` in any order, with
-- each read of `instance_` and each action on `lock_` a step of its own.
pub mod Exclusion
pub mod References
mod Tests
use aim_to_v.Base.{
  ℕ, suc, ◌+◌, ◌≡◌, Bool, true, false, ◌==◌, if◌then◌else◌, Option, none, some, List, [], ◌∷◌,
}

-- Where a thread is. It has the lock from the lock to the unlock: `creating` before the test of
-- `instance` under the lock, `making` after it where there was none, `storing o` with the new object
-- `o`, which is not stored yet; `releasing` before the test of `release` under the lock, `deleting`
-- after it where there was an object, `clearing` when that object is gone and the pointer still there.
pub data Place : Type 0 where
  outside to_create creating making : Place
  storing : ℕ → Place
  created to_return : Place
  holds : ℕ → Place
  null_reference : Place
  to_release releasing deleting clearing released : Place

abbrev pub is_critical : Place → Bool
is_critical creating = true
is_critical making = true
is_critical (storing o) = true
is_critical created = true
is_critical releasing = true
is_critical deleting = true
is_critical clearing = true
is_critical released = true
is_critical p = false

-- `lock_` with its owner, `instance_`, the number of objects that have been made, the ones that
-- exist, how often `release` has seen an object, and the places of the threads.
pub record Shared : Type 0 where
  pub lock : Option ℕ
  pub instance : Option ℕ
  pub made : ℕ
  pub live : List ℕ
  pub releases : ℕ
  pub places : ℕ → Place

abbrev pub move : ℕ → Place → Shared → Shared
move t p s = record s { places = λ u. if u == t then p else s.places u }

-- The place after the two tests under the lock.
abbrev pub tested_to_create : Option ℕ → Place
tested_to_create none = making
tested_to_create (some o) = created

abbrev pub tested_to_release : Option ℕ → Place
tested_to_release none = released
tested_to_release (some o) = deleting

-- `new T`
unfoldable pub new_object : Shared → Shared
new_object s = record s { made = s.made + 1; live = s.made ∷ s.live }

abbrev pub without : ℕ → List ℕ → List ℕ
without o [] = []
without o (x ∷ xs) = let rest = without o xs in if x == o then rest else x ∷ rest

-- `delete instance_`; the pointer stays.
unfoldable pub delete_object : Shared → Shared
delete_object s = elim s.instance [ none ↦ s | some o ↦ record s { live = without o s.live } ]

-- `return *instance_;`
abbrev pub reference : Option ℕ → Place
reference none = null_reference
reference (some o) = holds o

pub data Step : Shared → Shared → Type 0 where
  sees_it :
      (t o : ℕ) (s : Shared)
      → s.places t ≡ outside
      → s.instance ≡ some o
      → Step s (move t to_return s)
  misses_it :
      (t : ℕ) (s : Shared) → s.places t ≡ outside → s.instance ≡ none → Step s (move t to_create s)
  locks_to_create :
      (t : ℕ) (s : Shared)
      → s.places t ≡ to_create
      → s.lock ≡ none
      → Step s (move t creating (record s { lock = some t }))
  tests_to_create :
      (t : ℕ) (s : Shared) → s.places t ≡ creating → Step s (move t (tested_to_create s.instance) s)
  makes :
      (t : ℕ) (s : Shared) → s.places t ≡ making → Step s (move t (storing s.made) (new_object s))
  stores :
      (t o : ℕ) (s : Shared)
      → s.places t ≡ storing o
      → Step s (move t created (record s { instance = some o }))
  unlocks_created :
      (t : ℕ) (s : Shared)
      → s.places t ≡ created
      → Step s (move t to_return (record s { lock = none }))
  returns : (t : ℕ) (s : Shared) → s.places t ≡ to_return → Step s (move t (reference s.instance) s)
  is_done : (t o : ℕ) (s : Shared) → s.places t ≡ holds o → Step s (move t outside s)
  sees_it_to_release :
      (t o : ℕ) (s : Shared)
      → s.places t ≡ outside
      → s.instance ≡ some o
      → Step s (move t to_release (record s { releases = s.releases + 1 }))
  locks_to_release :
      (t : ℕ) (s : Shared)
      → s.places t ≡ to_release
      → s.lock ≡ none
      → Step s (move t releasing (record s { lock = some t }))
  tests_to_release :
      (t : ℕ) (s : Shared)
      → s.places t ≡ releasing
      → Step s (move t (tested_to_release s.instance) s)
  deletes :
      (t : ℕ) (s : Shared) → s.places t ≡ deleting → Step s (move t clearing (delete_object s))
  clears :
      (t : ℕ) (s : Shared)
      → s.places t ≡ clearing
      → Step s (move t released (record s { instance = none }))
  unlocks_released :
      (t : ℕ) (s : Shared)
      → s.places t ≡ released
      → Step s (move t outside (record s { lock = none }))

unfoldable pub start : Shared
start = record {
  lock = none;
  instance = none;
  made = 0;
  live = [];
  releases = 0;
  places = λ t. outside;
}

pub data Reachable : Shared → Type 0 where
  at_start : Reachable start
  then_step : {s s' : Shared} → Reachable s → Step s s' → Reachable s'
