-- ===== src/Custom/StrMap.antt =====
-- `std::map` with keys of type `std::string`, in the order of the keys.
use aim_to_v.Base.{
  ℕ, ◌+◌, ◌≡◌, ◌↔◌, inl, inr, refl, true, if◌then◌else◌, ==_refl, Bool-cases, Option, none, some,
  List, [], ◌∷◌, arith,
}
use native.Mathlib.Nat.{add_comm}
use aim_to_v.Wire.Bytes.{Bytes}
use aim_to_v.Common.{str_eq, str_lt}

abbrev pub Dict {ℓ} : Type ℓ → Type ℓ
Dict V = List (Bytes × V)

pub str_eq_refl : (a : Bytes) → str_eq a a ≡ true
str_eq_refl [] = refl
str_eq_refl (c ∷ cs) = rw (==_refl c, str_eq_refl cs)

pub str_eq→eq : (a b : Bytes) → str_eq a b ≡ true → a ≡ b
str_eq→eq [] [] h = refl
str_eq→eq [] (d ∷ ds) h = cc
str_eq→eq (c ∷ cs) [] h = cc
str_eq→eq (c ∷ cs) (d ∷ ds) h = ground (arith, str_eq→eq cs ds)

pub str_eq_iff : (a b : Bytes) → (str_eq a b ≡ true) ↔ (a ≡ b)
str_eq_iff a b = (str_eq→eq a b, λ e. rw e (str_eq_refl b))

module _ {ℓ} {V : Type ℓ} where
  unfoldable pub find : Bytes → Dict V → Option V
  find k [] = none
  find k ((j, v) ∷ m) = if str_eq k j then some v else find k m

  unfoldable pub insert : Bytes → V → Dict V → Dict V
  insert k v [] = (k, v) ∷ []
  insert k v ((j, w) ∷ m) =
      if str_eq k j
      then (k, v) ∷ m
      else (if str_lt k j then (k, v) ∷ (j, w) ∷ m else (j, w) ∷ insert k v m)

  unfoldable pub erase : Bytes → Dict V → Dict V
  erase k [] = []
  erase k ((j, v) ∷ m) = let rest = erase k m in if str_eq k j then rest else (j, v) ∷ rest

  -- No key twice.
  abbrev pub Distinct : Dict V → Type ℓ
  Distinct [] = Unit
  Distinct ((k, v) ∷ m) = (find k m ≡ none) × Distinct m

  -- The sum of a measure over the entries.
  unfoldable pub weight : (Bytes → V → ℕ) → Dict V → ℕ
  weight f [] = 0
  weight f ((k, v) ∷ m) = f k v + weight f m

module _ {ℓ} {V : Type ℓ} where
  pub find-insert :
      (j k : Bytes) (v : V) (m : Dict V)
      → find j (insert k v m) ≡ (if str_eq j k then some v else find j m)
  unfolding find insert
  find-insert j k v [] = refl
  find-insert j k v ((i, w) ∷ m) =
      ground (arith, find-insert j k v m, str_eq_iff j k, str_eq_iff k i, str_eq_iff j i)

  pub find-erase :
      (j k : Bytes) (m : Dict V) → find j (erase k m) ≡ (if str_eq j k then none else find j m)
  unfolding find erase
  find-erase j k [] = ground arith
  find-erase j k ((i, w) ∷ m) =
      ground (arith, find-erase j k m, str_eq_iff j k, str_eq_iff k i, str_eq_iff j i)

  pub insert-Distinct :
      (k : Bytes) (v : V) (m : Dict V) → find k m ≡ none → Distinct m → Distinct (insert k v m)
  unfolding insert find
  insert-Distinct k v [] h d = (refl, tt)
  insert-Distinct k v ((i, w) ∷ m) h d =
      ground (arith, insert-Distinct k v m, find-insert i k v m, str_eq_iff k i, str_eq_iff i k)

  pub erase-Distinct : (k : Bytes) (m : Dict V) → Distinct m → Distinct (erase k m)
  unfolding erase
  erase-Distinct k [] d = tt
  erase-Distinct k ((i, w) ∷ m) d = ground (arith, erase-Distinct k m d.1, find-erase i k m)

  pub weight-insert :
      (f : Bytes → V → ℕ) (k : Bytes) (v : V) (m : Dict V)
      → find k m ≡ none
      → weight f (insert k v m) ≡ f k v + weight f m
  unfolding weight insert find
  weight-insert f k v [] h = refl
  weight-insert f k v ((i, w) ∷ m) h = ground (arith, weight-insert f k v m)

  erase-none : (k : Bytes) (m : Dict V) → find k m ≡ none → erase k m ≡ m
  unfolding erase find
  erase-none k [] h = refl
  erase-none k ((i, w) ∷ m) h = ground (arith, erase-none k m)

  pub weight-erase :
      (f : Bytes → V → ℕ) (k : Bytes) (v : V) (m : Dict V)
      → Distinct m
      → find k m ≡ some v
      → weight f (erase k m) + f k v ≡ weight f m
  unfolding weight erase find
  weight-erase f k v [] d h = cc
  weight-erase f k v ((i, w) ∷ m) d h = elim (Bool-cases (str_eq k i)) [
    | inl e ↦
        let same : k ≡ i = str_eq→eq k i e in
        let value : w ≡ v = ground arith in
        let gone : find k m ≡ none = rw same d.0 in
        rw (e, erase-none k m gone, value, same) (add_comm (weight f m) (f i v))
    | inr e ↦
        let found : find k m ≡ some v = ground arith in
        rw e (omega (arith, weight-erase f k v m d.1 found))
  ]
