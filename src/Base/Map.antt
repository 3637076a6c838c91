-- ===== src/Base/Map.antt =====
-- `std::map` with unsigned keys: an association list in the order of the keys, which is the order
-- that its iterators follow.
use aim_to_v.Base.Tests.{ltb, ◌==◌, if◌then◌else◌}
use aim_to_v.Base.Lists.{length}
use Prim.Native.Nat.{ℕ, suc, ◌+◌, ◌≤◌, ◌<◌}
use mathlib.Core.Path.{◌≡◌, refl}
use mathlib.Core.Logic.{◌≢◌}
use mathlib.Core.Bool.{Bool, true, false}
use mathlib.Core.Option.{Option, none, some}
use mathlib.Core.Option
use mathlib.Core.List.{List, [], ◌∷◌, ◌++◌}
use native.Mathlib.Omega.{arith}

abbrev pub Map {ℓ} : Type ℓ → Type ℓ
Map V = List (ℕ × V)

module _ {ℓ} {V : Type ℓ} where
  -- `m.find(k)`, where `none` is `m.end()`.
  unfoldable pub find : ℕ → Map V → Option V
  find k [] = none
  find k ((j, v) ∷ m) = if k == j then some v else find k m

  -- `m.find(k) != m.end()`
  unfoldable pub contains : ℕ → Map V → Bool
  contains k m = elim (find k m) [ none ↦ false | some _ ↦ true ]

  -- `m[k] = v`
  unfoldable pub insert : ℕ → V → Map V → Map V
  insert k v [] = (k, v) ∷ []
  insert k v ((j, w) ∷ m) =
      if k == j
      then (k, v) ∷ m
      else (if ltb k j then (k, v) ∷ (j, w) ∷ m else (j, w) ∷ insert k v m)

  -- `m.erase(k)`
  unfoldable pub erase : ℕ → Map V → Map V
  erase k [] = []
  erase k ((j, v) ∷ m) = let rest = erase k m in if k == j then rest else (j, v) ∷ rest

module _ {ℓ} {V : Type ℓ} where
  pub find-insert :
      (j k : ℕ) (v : V) (m : Map V) → find j (insert k v m) ≡ (if j == k then some v else find j m)
  unfolding find insert
  find-insert j k v [] = refl
  find-insert j k v ((i, w) ∷ m) = ground (arith, find-insert j k v m)

  pub find-erase : (j k : ℕ) (m : Map V) → find j (erase k m) ≡ (if j == k then none else find j m)
  unfolding find erase
  find-erase j k [] = ground arith
  find-erase j k ((i, w) ∷ m) = ground (arith, find-erase j k m)

-- A `std::list` whose nodes keep their identity: a list of nodes, each with a number that no other
-- node has had. New nodes go to the end, so the numbers rise along the list.
module _ {ℓ} {V : Type ℓ} where
  -- `*it = f(*it)`
  unfoldable pub update : ℕ → (V → V) → Map V → Map V
  update k f [] = []
  update k f ((j, v) ∷ m) = (if j == k then (j, f v) else (j, v)) ∷ update k f m

  -- The numbers rise from `lo` on and stay below `hi`.
  abbrev pub Rising : ℕ → ℕ → Map V → Type 0
  Rising lo hi [] = lo ≤ hi
  Rising lo hi ((k, v) ∷ m) = (lo ≤ k) × (k < hi) × Rising (suc k) hi m

module _ {ℓ} {V : Type ℓ} where
  pub find-update :
      (j k : ℕ) (f : V → V) (m : Map V)
      → find j (update k f m) ≡ (if j == k then Option.map f (find j m) else find j m)
  unfolding find update
  find-update j k f [] = ground arith
  find-update j k f ((i, v) ∷ m) = ground (arith, find-update j k f m)

  pub find_above : (k lo hi : ℕ) (m : Map V) → Rising lo hi m → hi ≤ k → find k m ≡ none
  unfolding find
  find_above k lo hi [] r h = refl
  find_above k lo hi ((i, v) ∷ m) r h = ground (arith, find_above k (suc i) hi m r.2)

  pub find_under : (k lo hi : ℕ) (m : Map V) → Rising lo hi m → k < lo → find k m ≡ none
  unfolding find
  find_under k lo hi [] r h = refl
  find_under k lo hi ((i, v) ∷ m) r h = ground (arith, find_under k (suc i) hi m r.2)

  pub find-append :
      (j lo hi : ℕ) (v : V) (m : Map V)
      → Rising lo hi m
      → find j (m ++ (hi, v) ∷ []) ≡ (if j == hi then some v else find j m)
  unfolding find
  find-append j lo hi v [] r = refl
  find-append j lo hi v ((i, w) ∷ m) r = ground (arith, find-append j (suc i) hi v m r.2)

  Rising-mono : (lo lo' hi : ℕ) (m : Map V) → lo ≤ lo' → Rising lo' hi m → Rising lo hi m
  Rising-mono lo lo' hi [] h r = omega arith
  Rising-mono lo lo' hi ((i, w) ∷ m) h r = (omega arith, r.1, r.2)

  pub append-Rising :
      (lo hi : ℕ) (v : V) (m : Map V) → Rising lo hi m → Rising lo (suc hi) (m ++ (hi, v) ∷ [])
  append-Rising lo hi v [] r = omega arith
  append-Rising lo hi v ((i, w) ∷ m) r = (r.0, omega arith, append-Rising (suc i) hi v m r.2)

  pub erase-Rising : (lo hi k : ℕ) (m : Map V) → Rising lo hi m → Rising lo hi (erase k m)
  unfolding erase
  erase-Rising lo hi k [] r = r
  erase-Rising lo hi k ((i, w) ∷ m) r =
      ground (arith, erase-Rising (suc i) hi k m r.2, Rising-mono lo (suc i) hi (erase k m))

  pub update-Rising :
      (lo hi k : ℕ) (f : V → V) (m : Map V) → Rising lo hi m → Rising lo hi (update k f m)
  unfolding update
  update-Rising lo hi k f [] r = r
  update-Rising lo hi k f ((i, w) ∷ m) r = ground (arith, update-Rising (suc i) hi k f m r.2)

  pub length-update : (k : ℕ) (f : V → V) (m : Map V) → length (update k f m) ≡ length m
  unfolding update
  length-update k f [] = refl
  length-update k f ((i, w) ∷ m) = ground (arith, length-update k f m)

  erase-none : (k : ℕ) (m : Map V) → find k m ≡ none → erase k m ≡ m
  unfolding erase find
  erase-none k [] h = refl
  erase-none k ((i, w) ∷ m) h = ground (arith, erase-none k m)

  -- Erasing a node that is there takes away exactly one.
  pub length-erase :
      (lo hi k : ℕ) (m : Map V)
      → Rising lo hi m
      → find k m ≢ none
      → length (erase k m) + 1 ≡ length m
  unfolding erase find
  length-erase lo hi k [] r h = absurd (h refl)
  length-erase lo hi k ((i, w) ∷ m) r h =
      ground (arith, length-erase (suc i) hi k m r.2, erase-none k m, find_under k (suc i) hi m r.2)
