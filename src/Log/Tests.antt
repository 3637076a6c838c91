-- ===== src/Log/Tests.antt =====
-- Messages to the log of source/common.cpp on two days.
use aim_to_v.Base.{◌≡◌, refl, true, some, List, [], ◌∷◌, ◌++◌, arith}
use aim_to_v.Wire.Bytes.{Bytes}
use aim_to_v.Log.{
  LogSystem, Message, FileOp, fopen, fclose, fwrite, new_log_system, log_all, log_print_s, log_line,
  same_day, suffix,
}
use aim_to_v.Log.Files.{OneFile, log_all-OneFile}
use aim_to_v.Log.Lines.{log_print_s_writes}

abbrev day_1 : Bytes
day_1 = 50 ∷ 48 ∷ 50 ∷ 50 ∷ 95 ∷ 48 ∷ 49 ∷ 95 ∷ 48 ∷ 49 ∷ 32 ∷ 48 ∷ []

abbrev day_2 : Bytes
day_2 = 50 ∷ 48 ∷ 50 ∷ 50 ∷ 95 ∷ 48 ∷ 49 ∷ 95 ∷ 48 ∷ 50 ∷ 32 ∷ 48 ∷ []

abbrev message_on : Bytes → Message
message_on day = record {
  file_name = 97 ∷ [];
  line_num = 49 ∷ [];
  func = 102 ∷ [];
  body = 104 ∷ 105 ∷ [];
  time_str = day;
  exe_dir = 47 ∷ [];
  opens = true;
}

abbrev line_on : Bytes → Bytes
line_on day = log_line 1 (message_on day)

abbrev first_log : Bytes
first_log = 47 ∷ day_1 ++ suffix

abbrev second_log : Bytes
second_log = 47 ∷ day_2 ++ suffix

abbrev after_both : LogSystem
after_both = record (new_log_system day_1) {
  fp = some second_log;
  log_time_str = day_2;
  ops =
      fwrite second_log (line_on day_2)
      ∷ fopen second_log
      ∷ fclose first_log
      ∷ fwrite first_log (line_on day_1)
      ∷ fopen first_log
      ∷ [];
}

two_days :
    log_all ((1, message_on day_1) ∷ (1, message_on day_2) ∷ []) (new_log_system day_1)
    ≡ some after_both
unfolding log_all log_print_s new_log_system aim_to_v.Log.log_print_v aim_to_v.Log.level_name
    log_line aim_to_v.Log.write_line aim_to_v.Log.open_file aim_to_v.Log.turn_day same_day
two_days = refl

log_all-OneFile_example : OneFile (47 ∷ []) after_both
log_all-OneFile_example =
    log_all-OneFile (47 ∷ []) day_1 ((1, message_on day_1) ∷ (1, message_on day_2) ∷ []) after_both
      (refl, (refl, tt)) two_days

log_print_s_writes_example :
    (s' : LogSystem) × (day : Bytes) × (earlier : List FileOp) × (log_print_s 1
        (message_on day_2)
        after_both
      ≡ some s')
    × (same_day day day_2 ≡ true)
    × (s'.ops ≡ fwrite (47 ∷ day ++ suffix) (line_on day_2) ∷ earlier)
unfolding new_log_system log_line aim_to_v.Log.level_name
log_print_s_writes_example =
    log_print_s_writes (47 ∷ []) 1 (message_on day_2) after_both
      (log_all-OneFile (47 ∷ []) day_1 ((1, message_on day_1) ∷ (1, message_on day_2) ∷ [])
        after_both (refl, (refl, tt)) two_days)
      refl (omega arith) (omega arith) (omega arith) (omega arith) refl
