-- ===== src/Common/Tests.antt =====
-- Times of source/common.cpp in the first minute of 2022.
use aim_to_v.Base.{ℕ, ◌≡◌, refl, [], ◌∷◌, arith}
use aim_to_v.Common.Times.{
  ℤ, pos, negsuc, Tm, string2tm, string2time_t, time_t2string, time_t2string_m_ms,
}
use aim_to_v.Common.TimeText.{string2time_t-time_t2string}

abbrev new_year : ℕ → Tm
new_year time = record {
  tm_year = pos 122;
  tm_mon = pos 0;
  tm_mday = pos 1;
  tm_hour = pos 0;
  tm_min = pos 0;
  tm_sec = pos time;
}

abbrev second_of : Tm → ℕ
second_of tm = elim tm.tm_sec [ pos n ↦ n | negsuc n ↦ 0 ]

-- "2022_01_01 00_00_42"
new_year_text :
    time_t2string new_year 42
    ≡ 50 ∷ 48 ∷ 50 ∷ 50 ∷ 95 ∷ 48 ∷ 49 ∷ 95 ∷ 48 ∷ 49 ∷ 32 ∷ 48 ∷ 48 ∷ 95 ∷ 48 ∷ 48 ∷ 95 ∷ 52 ∷ 50
      ∷ []
unfolding time_t2string aim_to_v.Common.Times.tm2string aim_to_v.Common.Times.padded
    aim_to_v.Common.Times.plus aim_to_v.Common.Times.digits aim_to_v.Common.Times.fixed
new_year_text = refl

-- "01/01 00:00:42"
new_year_short :
    time_t2string_m_ms new_year 42
    ≡ 48 ∷ 49 ∷ 47 ∷ 48 ∷ 49 ∷ 32 ∷ 48 ∷ 48 ∷ 58 ∷ 48 ∷ 48 ∷ 58 ∷ 52 ∷ 50 ∷ []
unfolding time_t2string_m_ms aim_to_v.Common.Times.padded aim_to_v.Common.Times.plus
    aim_to_v.Common.Times.digits aim_to_v.Common.Times.fixed
new_year_short = refl

-- "2022_3": two fields are read.
part_of_a_time : string2tm (50 ∷ 48 ∷ 50 ∷ 50 ∷ 95 ∷ 51 ∷ []) ≡ record {
  tm_year = pos 122;
  tm_mon = pos 2;
  tm_mday = pos 0;
  tm_hour = pos 0;
  tm_min = pos 0;
  tm_sec = pos 0;
}
unfolding string2tm aim_to_v.Common.Times.minus aim_to_v.Common.Times.scan_all
    aim_to_v.Common.Times.match_gap aim_to_v.Common.Times.scan_int aim_to_v.Common.Times.skip_space
    aim_to_v.Common.Times.is_space aim_to_v.Common.Times.scan_number aim_to_v.Common.Times.is_digit
    aim_to_v.Common.Times.scan_digits
part_of_a_time = refl

string2time_t-time_t2string_example : string2time_t second_of (time_t2string new_year 42) ≡ 42
unfolding aim_to_v.Common.Times.plus
string2time_t-time_t2string_example =
    string2time_t-time_t2string new_year second_of 42 2022 1 1 0 0 42
      (record {
        year_field = refl;
        mon_field = refl;
        mday_field = refl;
        hour_field = refl;
        min_field = refl;
        sec_field = refl;
        year_width = omega arith;
        mon_width = omega arith;
        mday_width = omega arith;
        hour_width = omega arith;
        min_width = omega arith;
        sec_width = omega arith;
      })
      refl
