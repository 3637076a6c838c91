-- ===== src/Log/Files.antt =====
-- The log's file of source/common.cpp: one at a time, and the one of the day.
use aim_to_v.Base.{
  ℕ, ◌≡◌, refl, true, ltb, Option, none, some, List, [], ◌∷◌, ◌++◌, take, Option-cases, Bool-cases,
  inl, inr, arith,
}
use aim_to_v.Wire.Bytes.{Bytes}
use aim_to_v.Common.{str_eq}
use aim_to_v.Log.{
  LogSystem, Message, FileOp, fopen, fclose, fwrite, new_log_system, log_line, same_day, turn_day,
  open_file, write_line, log_print_v, log_print_s, log_all, suffix,
}

-- The file that is open after these operations; `Orderly` says that each operation is one that the
-- file before it allows.
abbrev pub open_after : List FileOp → Option Bytes
open_after [] = none
open_after (fopen path ∷ earlier) = some path
open_after (fclose path ∷ earlier) = none
open_after (fwrite path line ∷ earlier) = open_after earlier

abbrev pub Orderly : List FileOp → Type 0
Orderly [] = Unit
Orderly (fopen path ∷ earlier) = (open_after earlier ≡ none) × Orderly earlier
Orderly (fclose path ∷ earlier) = (open_after earlier ≡ some path) × Orderly earlier
Orderly (fwrite path line ∷ earlier) = (open_after earlier ≡ some path) × Orderly earlier

-- The operations are in order, and the file that is open carries the directory and the time that
-- the log keeps.
pub record OneFile (dir : Bytes) (s : LogSystem) : Type 0 where
  pub current : open_after s.ops ≡ s.fp
  pub order : Orderly s.ops
  pub dated : (path : Bytes) → s.fp ≡ some path → path ≡ dir ++ (s.log_time_str ++ suffix)

str_eq_refl : (cs : Bytes) → str_eq cs cs ≡ true
str_eq_refl [] = refl
str_eq_refl (c ∷ cs) = ground (arith, str_eq_refl cs)

same_day_refl : (t : Bytes) → same_day t t ≡ true
unfolding same_day
same_day_refl t = str_eq_refl (take 10 t)

module _ (dir : Bytes) (m : Message) where
  pub turn_day-OneFile : (s : LogSystem) → OneFile dir s → OneFile dir (turn_day m s)
  unfolding turn_day
  turn_day-OneFile s h = elim (Bool-cases (same_day s.log_time_str m.time_str)) [
    | inl e ↦ rw e h
    | inr e ↦ elim (Option-cases s.fp) [
      | inl none_open ↦
          rw (e, none_open)
            (record {
              current = ground (arith, h.current);
              order = h.order;
              dated = λ path f. absurd (ground arith);
            })
      | inr (path, is_open) ↦
          rw (e, is_open)
            (record {
              current = refl;
              order = (ground (arith, h.current), h.order);
              dated = λ path f. absurd (ground arith);
            })
    ]
  ]

  pub turn_day_lem : (s : LogSystem) → same_day (turn_day m s).log_time_str m.time_str ≡ true
  unfolding turn_day
  turn_day_lem s = elim (Bool-cases (same_day s.log_time_str m.time_str)) [
    | inl e ↦ rw (e, e) refl
    | inr e ↦
        let same : (turn_day m s).log_time_str ≡ m.time_str = ground (arith, e) in
        rw same (same_day_refl m.time_str)
  ]

  open_file-OneFile :
      (s : LogSystem) → m.exe_dir ≡ dir → OneFile dir s → OneFile dir (open_file m s)
  unfolding open_file
  open_file-OneFile s d h = elim (Option-cases s.fp) [
    | inr (path, is_open) ↦ let same : open_file m s ≡ s = ground (arith, is_open) in rw same h
    | inl none_open ↦ elim (Bool-cases m.opens) [
      | inl opens ↦
          rw (none_open, opens, d)
            (record {
              current = refl;
              order = (ground (arith, h.current), h.order);
              dated = λ path f. ground (arith, f);
            })
      | inr fails ↦ let same : open_file m s ≡ s = ground (arith, none_open, fails) in rw same h
    ]
  ]

  write_line-OneFile :
      (line : Bytes) (s : LogSystem) → OneFile dir s → OneFile dir (write_line line s)
  unfolding write_line
  write_line-OneFile line s h = elim (Option-cases s.fp) [
    | inl none_open ↦ let same : write_line line s ≡ s = ground (arith, none_open) in rw same h
    | inr (path, is_open) ↦
        let same : write_line line s ≡ record s { ops = fwrite path line ∷ s.ops } =
          ground (arith, is_open) in
        rw same (record {
          current = h.current;
          order = (ground (arith, h.current, is_open), h.order);
          dated = h.dated;
        })
  ]

  log_print_v-OneFile :
      (level : ℕ) (s s' : LogSystem)
      → m.exe_dir ≡ dir
      → log_print_v level m s ≡ some s'
      → OneFile dir s
      → OneFile dir s'
  unfolding log_print_v
  log_print_v-OneFile level s s' d h one =
      let same : s' ≡ write_line (log_line level m) (open_file m (turn_day m s)) =
        ground (arith, h) in
      rw same (
        write_line-OneFile (log_line level m) (open_file m (turn_day m s))
          (open_file-OneFile (turn_day m s) d (turn_day-OneFile s one)))

  log_print_s-OneFile :
      (level : ℕ) (s s' : LogSystem)
      → m.exe_dir ≡ dir
      → log_print_s level m s ≡ some s'
      → OneFile dir s
      → OneFile dir s'
  unfolding log_print_s
  log_print_s-OneFile level s s' d h one = elim (Bool-cases (ltb s.print_level level)) [
    | inl quiet ↦ let same : s' ≡ s = ground (arith, quiet) in rw same one
    | inr e ↦ log_print_v-OneFile level s s' d (ground (arith, e)) one
  ]

abbrev pub AllFrom : Bytes → List (ℕ × Message) → Type 0
AllFrom dir [] = Unit
AllFrom dir ((level, m) ∷ ms) = (m.exe_dir ≡ dir) × AllFrom dir ms

log_all_keeps :
    (dir : Bytes) (ms : List (ℕ × Message)) (s s' : LogSystem)
    → AllFrom dir ms
    → log_all ms s ≡ some s'
    → OneFile dir s
    → OneFile dir s'
unfolding log_all
log_all_keeps dir [] s s' f h one = let same : s' ≡ s = ground (arith, h) in rw same one
log_all_keeps dir ((level, m) ∷ ms) s s' f h one = elim (Option-cases (log_print_s level m s)) [
  | inl e ↦ absurd (ground arith)
  | inr (s1, e) ↦
      log_all_keeps dir ms s1 s' f.1 (ground (arith, e))
        (log_print_s-OneFile dir m level s s1 f.0 e one)
]

-- After any messages with a defined result and the same directory, to a new log, a file was
-- opened only where none was open, written and closed only while it was open, and the file that
-- is open now is named by the directory and the time that the log keeps.
pub log_all-OneFile :
    (dir time_str : Bytes) (ms : List (ℕ × Message)) (s : LogSystem)
    → AllFrom dir ms
    → log_all ms (new_log_system time_str) ≡ some s
    → OneFile dir s
unfolding new_log_system
log_all-OneFile dir time_str ms s f h =
    log_all_keeps dir ms (new_log_system time_str) s f h
      (record { current = refl; order = tt; dated = λ path e. absurd (ground arith) })
