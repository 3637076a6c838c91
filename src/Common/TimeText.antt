-- ===== src/Common/TimeText.antt =====
-- The text of a time of source/common.cpp is read back.
use aim_to_v.Base.{
  ℕ, zero, suc, ◌+◌, ◌-◌, ◌*◌, ◌/◌, ◌%◌, ◌^◌, ◌<◌, ◌≤◌, ◌≡◌, refl, ap, ◌∙◌, true, leb, some, List,
  [], ◌∷◌, ◌++◌, append_assoc, append-nil, Bool-cases, inl, inr, arith,
}
use native.Mathlib.Nat.{pow-suc}
use aim_to_v.Wire.Bytes.{Bytes}
use aim_to_v.Common.Times.{
  pos, plus, minus-plus, Tm, Gap, digit, fixed, digits, padded, is_digit, is_space, skip_space,
  scan_digits, scan_number, scan_int, match_gap, scan_all, nothing, underscore, space, time_format,
  string2tm, string2time_t, tm2string, time_t2string,
}

-- The digits that `fixed` writes are read as the number.
scan_last :
    (v n : ℕ) (rest : Bytes)
    → scan_digits (suc v) (n / 10) (digit (n % 10) ∷ rest) ≡ scan_digits v n rest
unfolding scan_digits is_digit
scan_last v n rest =
    let whole : n / 10 * 10 + (digit (n % 10) - 48) ≡ n = omega arith in
    let lo : leb 48 (digit (n % 10)) ≡ true = ground arith in
    let hi : leb (digit (n % 10)) 57 ≡ true = ground arith in rw (lo, hi, whole) refl

scan_digits-fixed :
    (w v t n : ℕ) (rest : Bytes)
    → t ≡ w + v
    → n < 10 ^ w
    → scan_digits t 0 (fixed w n ++ rest) ≡ scan_digits v n rest
unfolding fixed
scan_digits-fixed zero v t n rest e h =
    let z : n ≡ 0 = omega arith in let same : t ≡ v = omega arith in rw (z, same) refl
scan_digits-fixed (suc w) v t n rest e h =
    let d = digit (n % 10) in
    let less : n / 10 < 10 ^ w = omega (arith, pow-suc 10 w) in
    let first = scan_digits-fixed w (suc v) t (n / 10) (d ∷ rest) (omega arith) less in
    rw (append_assoc (fixed w (n / 10)) (d ∷ []) rest) (first ∙ scan_last v n rest)

fixed_head : (w n : ℕ) → (c : ℕ) × (cs : Bytes) × (fixed (suc w) n ≡ c ∷ cs) × (48 ≤ c) × (c < 58)
unfolding fixed
fixed_head zero n = (digit (n % 10), [], refl, omega arith, omega arith)
fixed_head (suc w) n =
    let (c, cs, e, lo, hi) = fixed_head w (n / 10) in
    (c, cs ++ digit (n % 10) ∷ [], ap (λ (xs : Bytes). xs ++ digit (n % 10) ∷ []) e, lo, hi)

no_digits : (fuel : ℕ) → digits fuel 0 ≡ []
unfolding digits
no_digits zero = refl
no_digits (suc fuel) = refl

scan_int-padded :
    (w n : ℕ) (rest : Bytes)
    → n < 10 ^ suc w
    → n / 10 ^ suc w ≡ 0
    → scan_int (suc w) (padded (suc w) (pos n) ++ rest) ≡ some (pos n, rest)
unfolding scan_int padded skip_space is_space scan_number is_digit scan_digits
scan_int-padded w n rest h z =
    let (c, cs, e, lo, hi) = fixed_head w n in
    let none_before : digits 10 0 ≡ [] = no_digits 10 in
    let read = scan_digits-fixed (suc w) 0 (suc w) n rest (omega arith) h in
    let text : Bytes = c ∷ (cs ++ rest) in
    let first : padded (suc w) (pos n) ≡ c ∷ cs = rw (z, none_before) e in
    let start : skip_space text ≡ text = ground (arith, lo, hi) in
    let read_text : scan_digits (suc w) 0 text ≡ (n, rest) = rw e at read in
    let number : scan_number (suc w) text ≡ some (n, rest) = ground (arith, lo, hi, read_text) in
    rw first (ground (arith, start, number, lo, hi))

-- The fields of a time, as they are written.
pub record Written (tm : Tm) (year mon mday hour min sec : ℕ) : Type 0 where
  pub year_field : plus tm.tm_year 1900 ≡ pos year
  pub mon_field : plus tm.tm_mon 1 ≡ pos mon
  pub mday_field : tm.tm_mday ≡ pos mday
  pub hour_field : tm.tm_hour ≡ pos hour
  pub min_field : tm.tm_min ≡ pos min
  pub sec_field : tm.tm_sec ≡ pos sec
  pub year_width : year < 10000
  pub mon_width : mon < 100
  pub mday_width : mday < 100
  pub hour_width : hour < 100
  pub min_width : min < 100
  pub sec_width : sec < 100

scan_year :
    (n : ℕ) (rest : Bytes) → n < 10000 → scan_int 4 (padded 4 (pos n) ++ rest) ≡ some (pos n, rest)
scan_year n rest h = scan_int-padded 3 n rest h (omega arith)

scan_two :
    (n : ℕ) (rest : Bytes) → n < 100 → scan_int 2 (padded 2 (pos n) ++ rest) ≡ some (pos n, rest)
scan_two n rest h = scan_int-padded 1 n rest h (omega arith)

skip_space_twice : (cs : Bytes) → skip_space (skip_space cs) ≡ skip_space cs
unfolding skip_space
skip_space_twice [] = refl
skip_space_twice (c ∷ cs) = elim (Bool-cases (is_space c)) [
  | inl e ↦ ground (arith, e, skip_space_twice cs)
  | inr e ↦ ground (arith, e)
]

scan_int-skip_space : (w : ℕ) (cs : Bytes) → scan_int w (skip_space cs) ≡ scan_int w cs
unfolding scan_int
scan_int-skip_space w cs = rw (scan_int, skip_space_twice cs) refl

skip_one : (cs : Bytes) → skip_space (32 ∷ cs) ≡ skip_space cs
unfolding skip_space is_space
skip_one cs = refl

-- One number of a text, after its gap.
module _ (format : List (Gap × ℕ)) (n : ℕ) (rest : Bytes) where
  scan_first :
      n < 10000
      → scan_all ((nothing, 4) ∷ format) (padded 4 (pos n) ++ rest) ≡ pos n ∷ scan_all format rest
  unfolding scan_all match_gap
  scan_first h = ground (arith, scan_year n rest h)

  scan_underscore :
      n < 100
      → scan_all ((underscore, 2) ∷ format) (95 ∷ (padded 2 (pos n) ++ rest))
        ≡ pos n ∷ scan_all format rest
  unfolding scan_all match_gap
  scan_underscore h = ground (arith, scan_two n rest h)

  scan_after_space :
      n < 100
      → scan_all ((space, 2) ∷ format) (32 ∷ (padded 2 (pos n) ++ rest))
        ≡ pos n ∷ scan_all format rest
  unfolding scan_all match_gap
  scan_after_space h =
      let text : Bytes = padded 2 (pos n) ++ rest in
      let skipped : skip_space (32 ∷ text) ≡ skip_space text = skip_one text in
      ground (arith, skipped, scan_int-skip_space 2 text, scan_two n rest h)

scan_last_number :
    (n : ℕ) → n < 100 → scan_all ((underscore, 2) ∷ []) (95 ∷ padded 2 (pos n)) ≡ pos n ∷ []
unfolding scan_all
scan_last_number n h = rw (append-nil (padded 2 (pos n))) at (scan_underscore [] n [] h)

text_of : (year mon mday hour min sec : ℕ) → Bytes
text_of year mon mday hour min sec =
    padded 4 (pos year)
    ++ (95
        ∷ (padded 2 (pos mon)
            ++ (95
                ∷ (padded 2 (pos mday)
                    ++ (32
                        ∷ (padded 2 (pos hour)
                            ++ (95 ∷ (padded 2 (pos min) ++ (95 ∷ padded 2 (pos sec))))))))))

scan_all-text_of :
    (tm : Tm) (year mon mday hour min sec : ℕ)
    → Written tm year mon mday hour min sec
    → scan_all time_format (text_of year mon mday hour min sec)
      ≡ pos year ∷ pos mon ∷ pos mday ∷ pos hour ∷ pos min ∷ pos sec ∷ []
unfolding text_of
scan_all-text_of tm year mon mday hour min sec f =
    let to_sec : Bytes = 95 ∷ padded 2 (pos sec) in
    let to_min : Bytes = 95 ∷ (padded 2 (pos min) ++ to_sec) in
    let to_hour : Bytes = 32 ∷ (padded 2 (pos hour) ++ to_min) in
    let to_mday : Bytes = 95 ∷ (padded 2 (pos mday) ++ to_hour) in
    let to_mon : Bytes = 95 ∷ (padded 2 (pos mon) ++ to_mday) in
    rw
      (
        scan_first
            ((underscore, 2)
              ∷ (underscore, 2)
              ∷ (space, 2)
              ∷ (underscore, 2)
              ∷ (underscore, 2)
              ∷ [])
            year to_mon f.year_width,
        scan_underscore ((underscore, 2) ∷ (space, 2) ∷ (underscore, 2) ∷ (underscore, 2) ∷ []) mon
            to_mday f.mon_width,
        scan_underscore ((space, 2) ∷ (underscore, 2) ∷ (underscore, 2) ∷ []) mday to_hour
            f.mday_width,
        scan_after_space ((underscore, 2) ∷ (underscore, 2) ∷ []) hour to_min f.hour_width,
        scan_underscore ((underscore, 2) ∷ []) min to_sec f.min_width,
        scan_last_number sec f.sec_width,
      )
      refl

pub string2tm-tm2string :
    (tm : Tm) (year mon mday hour min sec : ℕ)
    → Written tm year mon mday hour min sec
    → string2tm (tm2string tm) ≡ tm
unfolding string2tm tm2string text_of
string2tm-tm2string tm year mon mday hour min sec f =
    let text : tm2string tm ≡ text_of year mon mday hour min sec =
      rw (f.year_field, f.mon_field, f.mday_field, f.hour_field, f.min_field, f.sec_field) refl in
    let y = minus-plus tm.tm_year 1900 in
    let m = minus-plus tm.tm_mon 1 in
    ground (
      arith,
      text,
      scan_all-text_of tm year mon mday hour min sec f,
      y,
      m,
      f.year_field,
      f.mon_field,
      f.mday_field,
      f.hour_field,
      f.min_field,
      f.sec_field,
    )

-- A time whose year has at most four digits and whose other fields at most two, all of them not
-- negative as they are written, written by time_t2string is read back by string2time_t, where
-- mktime takes the fields of localtime back to the time.
pub string2time_t-time_t2string :
    (localtime : ℕ → Tm) (mktime : Tm → ℕ) (time year mon mday hour min sec : ℕ)
    → Written (localtime time) year mon mday hour min sec
    → mktime (localtime time) ≡ time
    → string2time_t mktime (time_t2string localtime time) ≡ time
unfolding string2time_t time_t2string
string2time_t-time_t2string localtime mktime time year mon mday hour min sec f e =
    rw (string2tm-tm2string (localtime time) year mon mday hour min sec f) e
