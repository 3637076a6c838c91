-- ===== src/Log/Lines.antt =====
-- What becomes of a message to the log of source/common.cpp.
use aim_to_v.Base.{
  ℕ, ◌<◌, ◌≤◌, ◌≡◌, true, none, some, List, [], ◌∷◌, ◌++◌, length, Option-cases, inl, inr,
  length-append, arith,
}
use aim_to_v.Wire.Bytes.{Bytes}
use aim_to_v.Log.{
  LogSystem, Message, FileOp, fwrite, log_line, level_name, same_day, turn_day, open_file,
  write_line, log_print_v, log_print_s, log_debug, log_buf_size, suffix,
}
use aim_to_v.Log.Files.{OneFile, turn_day-OneFile, turn_day_lem}

level_name_known : (level : ℕ) → level ≤ log_debug → (name : Bytes) × (level_name level ≡ some name)
unfolding level_name
level_name_known level h = elim (Option-cases (level_name level)) [
  | inl e ↦ absurd (ground arith)
  | inr (name, e) ↦ (name, e)
]

length-log_line :
    (level : ℕ) (m : Message) → level ≤ log_debug → length m.body < length (log_line level m)
unfolding log_line
length-log_line level m h =
    let (name, e) = level_name_known level h in
    let line : Bytes =
      m.time_str
      ++ (name
          ++ (m.file_name ++ (44 ∷ m.line_num ++ (44 ∷ m.func ++ (44 ∷ m.body ++ 10 ∷ []))))) in
    let same : log_line level m ≡ line = ground (arith, e) in
    rw same (
      omega (
        arith,
        length-append m.time_str (
            name
            ++ (m.file_name ++ (44 ∷ m.line_num ++ (44 ∷ m.func ++ (44 ∷ m.body ++ 10 ∷ []))))),
        length-append name
            (m.file_name ++ (44 ∷ m.line_num ++ (44 ∷ m.func ++ (44 ∷ m.body ++ 10 ∷ [])))),
        length-append m.file_name (44 ∷ m.line_num ++ (44 ∷ m.func ++ (44 ∷ m.body ++ 10 ∷ []))),
        length-append m.line_num (44 ∷ m.func ++ (44 ∷ m.body ++ 10 ∷ [])),
        length-append m.func (44 ∷ m.body ++ 10 ∷ []),
        length-append m.body (10 ∷ []),
      ))

open_file_lem :
    (dir : Bytes) (m : Message) (t : LogSystem)
    → OneFile dir t
    → m.exe_dir ≡ dir
    → m.opens ≡ true
    → (open_file m t).fp ≡ some (dir ++ (t.log_time_str ++ suffix))
unfolding open_file
open_file_lem dir m t one d opens = elim (Option-cases t.fp) [
  | inl none_open ↦ ground (arith, none_open, opens, d)
  | inr (path, is_open) ↦ ground (arith, is_open, one.dated path is_open)
]

-- What becomes of a message that passes the filter and fits its buffer.
module _ (dir : Bytes) (level : ℕ) (m : Message) (s : LogSystem) where
  -- A message of a known level within the filter, with a body of at most 1024 bytes and a line
  -- shorter than the buffer, to a log in order and with a file that can be opened, is written
  -- last, as its line, to a file named by the directory and a time of the message's day.
  pub log_print_s_writes :
      OneFile dir s
      → m.exe_dir ≡ dir
      → level ≤ log_debug
      → level ≤ s.print_level
      → length m.body ≤ 1024
      → length (log_line level m) < log_buf_size
      → m.opens ≡ true
      → (s' : LogSystem) × (day : Bytes) × (earlier : List FileOp) × (log_print_s level m s
          ≡ some s')
        × (same_day day m.time_str ≡ true)
        × (s'.ops ≡ fwrite (dir ++ (day ++ suffix)) (log_line level m) ∷ earlier)
  unfolding log_print_s log_print_v write_line
  log_print_s_writes one d known shown short fits opens =
      let (name, e) = level_name_known level known in
      let t = turn_day m s in
      let fp : (open_file m t).fp ≡ some (dir ++ (t.log_time_str ++ suffix)) =
        open_file_lem dir m t (turn_day-OneFile dir m s one) d opens in
      (
        write_line (log_line level m) (open_file m t),
        t.log_time_str,
        (open_file m t).ops,
        ground (arith, e, shown, short, fits),
        turn_day_lem dir m s,
        ground (arith, fp),
      )

  pub log_print_s_overlong :
      level ≤ log_debug
      → level ≤ s.print_level
      → 1024 < length m.body
      → log_print_s level m s ≡ none
  unfolding log_print_s log_print_v
  log_print_s_overlong known shown long =
      let (name, e) = level_name_known level known in
      ground (arith, e, shown, long, length-log_line level m known)
