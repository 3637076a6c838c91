-- ===== src/Wire/Bytes.antt =====
-- Bytes and the two `memcpy_u` templates of include/common.h on a little-endian host, where
-- `check_big_data` leaves `is_big_data` false. Reading is a state monad over a cursor: `index` is
-- the source's local of that name, and `rest` is the memory from `data + index` on.
use aim_to_v.Base.{
  ℕ, zero, suc, ◌+◌, ◌*◌, ◌/◌, ◌%◌, ◌^◌, ◌<◌, ◌≡◌, refl, ap, ◌∙◌, List, [], ◌∷◌, ◌++◌, length, take,
  drop, take-append, drop-append, append_assoc, arith,
}
use native.Mathlib.Nat.{pow-suc}

abbrev pub Bytes : Type 0
Bytes = List ℕ

-- The `w` bytes of an unsigned number of that size, the low one first.
unfoldable pub le_bytes : ℕ → ℕ → Bytes
le_bytes zero n = []
le_bytes (suc w) n = (n % 256) ∷ le_bytes w (n / 256)

unfoldable pub le_value : Bytes → ℕ
le_value [] = 0
le_value (b ∷ bs) = b + 256 * le_value bs

pub record Cursor : Type 0 where
  pub index : ℕ
  pub rest : Bytes

abbrev pub at : ℕ → Bytes → Cursor
at i bs = record { index = i; rest = bs }

abbrev pub Reader : Type 0 → Type 0
Reader A = Cursor → A × Cursor

infixl 5 ◌>>=◌
abbrev pub ◌>>=◌ : {A B : Type 0} → Reader A → (A → Reader B) → Reader B
◌>>=◌ m f c = f (m c).0 (m c).1

abbrev pub pure : {A : Type 0} → A → Reader A
pure a c = (a, c)

-- `index += memcpy_u(field, data + index)` for a field of `w` bytes.
unfoldable pub get_num : ℕ → Reader ℕ
get_num w c = (le_value (take w c.rest), at (c.index + w) (drop w c.rest))

-- `memcpy(field, data + index, n); index += n`
unfoldable pub get_bytes : ℕ → Reader Bytes
get_bytes n c = (take n c.rest, at (c.index + n) (drop n c.rest))

-- What consecutive writes at `data + index` leave in memory, before what was there.
abbrev pub written : List Bytes → Bytes → Bytes
written [] rest = rest
written (f ∷ fs) rest = f ++ written fs rest

pub written-append : (fs : List Bytes) (xs ys : Bytes) → written fs xs ++ ys ≡ written fs (xs ++ ys)
written-append [] xs ys = refl
written-append (f ∷ fs) xs ys =
    append_assoc f (written fs xs) ys ∙ ap (◌++◌ f) (written-append fs xs ys)

pub length-le_bytes : (w n : ℕ) → length (le_bytes w n) ≡ w
unfolding le_bytes
length-le_bytes zero n = refl
length-le_bytes (suc w) n = ap suc (length-le_bytes w (n / 256))

pub le_value-le_bytes : (w n : ℕ) → n < 256 ^ w → le_value (le_bytes w n) ≡ n
unfolding le_bytes le_value
le_value-le_bytes zero n h = omega arith
le_value-le_bytes (suc w) n h =
    let h' : n / 256 < 256 ^ w = omega (arith, pow-suc 256 w) in
    omega (arith, le_value-le_bytes w (n / 256) h')

pub get_num-le_bytes :
    (w n i : ℕ) (rest : Bytes)
    → n < 256 ^ w
    → get_num w (at i (le_bytes w n ++ rest)) ≡ (n, at (i + w) rest)
unfolding get_num
get_num-le_bytes w n i rest h = rw (
  take-append w (le_bytes w n) rest (length-le_bytes w n),
  drop-append w (le_bytes w n) rest (length-le_bytes w n),
  le_value-le_bytes w n h,
)

pub get_bytes-append :
    (n i : ℕ) (xs rest : Bytes)
    → length xs ≡ n
    → get_bytes n (at i (xs ++ rest)) ≡ (xs, at (i + n) rest)
unfolding get_bytes
get_bytes-append n i xs rest h = rw (take-append n xs rest h, drop-append n xs rest h)
