-- ===== src/Common/Times.antt =====
-- `string2time_t`, `time_t2string` and `time_t2string_m_ms` of source/common.cpp, with what `sprintf`
-- and `sscanf` make of their formats. `localtime` and `mktime` come from outside.
use aim_to_v.Base.{
  ℕ, zero, suc, ◌+◌, ◌-◌, ◌*◌, ◌/◌, ◌%◌, ◌^◌, ◌≡◌, Bool, true, false, ◌&&◌, ◌||◌, ltb, leb, ◌==◌,
  if◌then◌else◌, Option, none, some, List, [], ◌∷◌, ◌++◌, Bool-cases, inl, inr, arith,
}
use aim_to_v.Wire.Bytes.{Bytes}

-- The `int` of the fields.
pub data ℤ : Type 0 where
  pos : ℕ → ℤ
  negsuc : ℕ → ℤ

unfoldable pub plus : ℤ → ℕ → ℤ
plus (pos n) k = pos (n + k)
plus (negsuc n) k = if ltb n k then pos (k - n - 1) else negsuc (n - k)

unfoldable pub minus : ℤ → ℕ → ℤ
minus (pos n) k = if leb k n then pos (n - k) else negsuc (k - n - 1)
minus (negsuc n) k = negsuc (n + k)

pub minus-plus : (z : ℤ) (k : ℕ) → minus (plus z k) k ≡ z
unfolding minus plus
minus-plus (pos n) k = ground arith
minus-plus (negsuc n) k = elim (Bool-cases (ltb n k)) [
  | inl e ↦ ground (arith, e)
  | inr e ↦ ground (arith, e)
]

-- The six fields of `tm` that the functions use; `string2time_t` leaves the others 0.
pub record Tm : Type 0 where
  pub tm_year : ℤ
  pub tm_mon : ℤ
  pub tm_mday : ℤ
  pub tm_hour : ℤ
  pub tm_min : ℤ
  pub tm_sec : ℤ

abbrev pub digit : ℕ → ℕ
digit d = 48 + d

-- The last `w` digits of a number.
unfoldable pub fixed : ℕ → ℕ → Bytes
fixed zero n = []
fixed (suc w) n = fixed w (n / 10) ++ digit (n % 10) ∷ []

unfoldable pub digits : ℕ → ℕ → Bytes
digits zero n = []
digits (suc fuel) n =
    let rest = digits fuel (n / 10) in if n == 0 then [] else rest ++ digit (n % 10) ∷ []

-- `sprintf` with `%0wd`: an `int` has at most ten digits.
unfoldable pub padded : ℕ → ℤ → Bytes
padded w (pos n) = digits 10 (n / 10 ^ w) ++ fixed w n
padded w (negsuc n) = 45 ∷ digits 10 ((n + 1) / 10 ^ (w - 1)) ++ fixed (w - 1) (n + 1)

unfoldable pub is_digit : ℕ → Bool
is_digit c = leb 48 c && leb c 57

-- A space of the C locale.
unfoldable pub is_space : ℕ → Bool
is_space c = c == 32 || (leb 9 c && leb c 13)

unfoldable pub skip_space : Bytes → Bytes
skip_space [] = []
skip_space (c ∷ cs) = let rest = skip_space cs in if is_space c then rest else c ∷ cs

-- At most `w` digits after those that make `n`.
unfoldable pub scan_digits : ℕ → ℕ → Bytes → ℕ × Bytes
scan_digits zero n cs = (n, cs)
scan_digits (suc w) n [] = (n, [])
scan_digits (suc w) n (c ∷ cs) =
    let rest = scan_digits w (n * 10 + (c - 48)) cs in if is_digit c then rest else (n, c ∷ cs)

-- At least one digit, and at most `w`.
unfoldable pub scan_number : ℕ → Bytes → Option (ℕ × Bytes)
scan_number w [] = none
scan_number w (c ∷ cs) = if is_digit c && ltb 0 w then some (scan_digits w 0 (c ∷ cs)) else none

abbrev pub signed : Bool → ℕ → ℤ
signed false n = pos n
signed true zero = pos 0
signed true (suc n) = negsuc n

-- `sscanf` with `%0wd`: spaces, a sign, which counts for the width, and digits.
unfoldable pub scan_int : ℕ → Bytes → Option (ℤ × Bytes)
scan_int w cs = elim (skip_space cs) [
  | [] ↦ none
  | c ∷ rest ↦
      if c == 45
      then elim (scan_number (w - 1) rest) [
        | none ↦ none
        | some (n, left) ↦ some (signed true n, left)
      ]
      else if c == 43
      then elim (scan_number (w - 1) rest) [ none ↦ none | some (n, left) ↦ some (pos n, left) ]
      else elim (scan_number w (c ∷ rest)) [ none ↦ none | some (n, left) ↦ some (pos n, left) ]
]

-- What stands in the format in front of a number: nothing, an underscore, or a space, which matches
-- any number of spaces.
pub data Gap : Type 0 where
  nothing underscore space : Gap

unfoldable pub match_gap : Gap → Bytes → Option Bytes
match_gap nothing cs = some cs
match_gap space cs = some (skip_space cs)
match_gap underscore [] = none
match_gap underscore (c ∷ cs) = if c == 95 then some cs else none

-- The values up to the first that cannot be read.
unfoldable pub scan_all : List (Gap × ℕ) → Bytes → List ℤ
scan_all [] cs = []
scan_all ((gap, w) ∷ format) cs = elim (match_gap gap cs) [
  | none ↦ []
  | some after ↦ elim (scan_int w after) [ none ↦ [] | some (z, rest) ↦ z ∷ scan_all format rest ]
]

-- Fields that are not read stay 0.
abbrev pub at_or_zero : ℕ → List ℤ → ℤ
at_or_zero n [] = pos 0
at_or_zero zero (z ∷ zs) = z
at_or_zero (suc n) (z ∷ zs) = at_or_zero n zs

abbrev pub time_format : List (Gap × ℕ)
time_format =
    (nothing, 4)
    ∷ (underscore, 2)
    ∷ (underscore, 2)
    ∷ (space, 2)
    ∷ (underscore, 2)
    ∷ (underscore, 2)
    ∷ []

-- What `string2time_t` gives to `mktime`.
unfoldable pub string2tm : Bytes → Tm
string2tm text =
    let zs = scan_all time_format text in
    record {
      tm_year = minus (at_or_zero 0 zs) 1900;
      tm_mon = minus (at_or_zero 1 zs) 1;
      tm_mday = at_or_zero 2 zs;
      tm_hour = at_or_zero 3 zs;
      tm_min = at_or_zero 4 zs;
      tm_sec = at_or_zero 5 zs;
    }

unfoldable pub string2time_t : (Tm → ℕ) → Bytes → ℕ
string2time_t mktime text = mktime (string2tm text)

unfoldable pub tm2string : Tm → Bytes
tm2string tm =
    padded 4 (plus tm.tm_year 1900)
    ++ (95 ∷ padded 2 (plus tm.tm_mon 1)
        ++ (95 ∷ padded 2 tm.tm_mday
            ++ (32 ∷ padded 2 tm.tm_hour ++ (95 ∷ padded 2 tm.tm_min ++ 95 ∷ padded 2 tm.tm_sec))))

unfoldable pub time_t2string : (ℕ → Tm) → ℕ → Bytes
time_t2string localtime time = tm2string (localtime time)

unfoldable pub time_t2string_m_ms : (ℕ → Tm) → ℕ → Bytes
time_t2string_m_ms localtime time =
    let tm = localtime time in
    padded 2 (plus tm.tm_mon 1)
    ++ (47 ∷ padded 2 tm.tm_mday
        ++ (32 ∷ padded 2 tm.tm_hour ++ (58 ∷ padded 2 tm.tm_min ++ 58 ∷ padded 2 tm.tm_sec)))
