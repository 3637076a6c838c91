-- ===== src/Log.antt =====
-- `LogSystem` of include/log.h and source/common.cpp: the level filter, the line and the file of the
-- day. What `vsnprintf` makes of a message, the time as text and what `fopen` gives come from outside.
pub mod Files
pub mod Lines
mod Tests
use aim_to_v.Base.{
  ℕ, zero, suc, ◌+◌, Bool, true, false, not, ltb, ◌==◌, if◌then◌else◌, Option, none, some, List, [],
  ◌∷◌, ◌++◌, length, take, map,
}
use aim_to_v.Wire.Bytes.{Bytes}
use aim_to_v.Common.{str_eq}

abbrev pub log_system : ℕ
log_system = 0

abbrev pub log_error : ℕ
log_error = 1

abbrev pub log_waring : ℕ
log_waring = 2

abbrev pub log_info : ℕ
log_info = 3

abbrev pub log_debug : ℕ
log_debug = 4

abbrev pub log_max : ℕ
log_max = 5

pub data FileOp : Type 0 where
  fopen fclose : Bytes → FileOp
  fwrite : Bytes → Bytes → FileOp

-- `fp_` is the path of the open file, and the last operation comes first.
pub record LogSystem : Type 0 where
  pub print_level : ℕ
  pub fp : Option Bytes
  pub log_time_str : Bytes
  pub ops : List FileOp

unfoldable pub new_log_system : Bytes → LogSystem
new_log_system time_str = record {
  print_level = log_max;
  fp = none;
  log_time_str = time_str;
  ops = [];
}

unfoldable pub set_print_log_level : ℕ → LogSystem → LogSystem
set_print_log_level level s = record s { print_level = level }

-- A message, where it comes from, and what the world has ready for it: the formatted body, the line
-- number in digits, the time, the directory of the program, and whether the file can be opened.
pub record Message : Type 0 where
  pub file_name : Bytes
  pub line_num : Bytes
  pub func : Bytes
  pub body : Bytes
  pub time_str : Bytes
  pub exe_dir : Bytes
  pub opens : Bool

-- " LOG_SYSTEM:" and so on.
unfoldable pub level_name : ℕ → Option Bytes
level_name level =
    if level == log_system
    then some (32 ∷ 76 ∷ 79 ∷ 71 ∷ 95 ∷ 83 ∷ 89 ∷ 83 ∷ 84 ∷ 69 ∷ 77 ∷ 58 ∷ [])
    else if level == log_error
    then some (32 ∷ 76 ∷ 79 ∷ 71 ∷ 95 ∷ 69 ∷ 82 ∷ 82 ∷ 79 ∷ 82 ∷ 58 ∷ [])
    else if level == log_waring
    then some (32 ∷ 76 ∷ 79 ∷ 71 ∷ 95 ∷ 87 ∷ 65 ∷ 82 ∷ 73 ∷ 78 ∷ 71 ∷ 58 ∷ [])
    else if level == log_info
    then some (32 ∷ 76 ∷ 79 ∷ 71 ∷ 95 ∷ 73 ∷ 78 ∷ 70 ∷ 79 ∷ 58 ∷ [])
    else if level == log_debug
    then some (32 ∷ 76 ∷ 79 ∷ 71 ∷ 95 ∷ 68 ∷ 69 ∷ 66 ∷ 85 ∷ 71 ∷ 58 ∷ [])
    else none

-- `"%s LOG_...:%s,%d,%s,%s\n"`; no level, no text.
unfoldable pub log_line : ℕ → Message → Bytes
log_line level m = elim (level_name level) [
  | none ↦ []
  | some name ↦
      m.time_str
      ++ (name ++ (m.file_name ++ (44 ∷ m.line_num ++ (44 ∷ m.func ++ (44 ∷ m.body ++ 10 ∷ [])))))
]

abbrev pub suffix : Bytes
suffix = 46 ∷ 108 ∷ 111 ∷ 103 ∷ []

-- `strncmp(a, b, 10) == 0`
unfoldable pub same_day : Bytes → Bytes → Bool
same_day a b = str_eq (take 10 a) (take 10 b)

-- Another day: the file of the last one is closed.
unfoldable pub turn_day : Message → LogSystem → LogSystem
turn_day m s = if same_day s.log_time_str m.time_str then s else record s {
  log_time_str = m.time_str;
  fp = none;
  ops = elim s.fp [ none ↦ s.ops | some path ↦ fclose path ∷ s.ops ];
}

-- `if (!fp_) fp_ = fopen(...)`
unfoldable pub open_file : Message → LogSystem → LogSystem
open_file m s = elim s.fp [
  | some path ↦ s
  | none ↦
      let path = m.exe_dir ++ (s.log_time_str ++ suffix) in
      if m.opens then record s { fp = some path; ops = fopen path ∷ s.ops } else s
]

unfoldable pub write_line : Bytes → LogSystem → LogSystem
write_line line s = elim s.fp [ none ↦ s | some path ↦ record s { ops = fwrite path line ∷ s.ops } ]

abbrev pub log_buf_size : ℕ
log_buf_size = 2048

-- `none` is a line beyond its buffer: `log_buf`, or for a long body the one character that
-- `new char(size + 1024)` makes. `sprintf` writes a NUL after the line.
unfoldable pub log_print_v : ℕ → Message → LogSystem → Option LogSystem
log_print_v level m s =
    let line = log_line level m in
    let room = if ltb 1024 (length m.body) then 1 else log_buf_size in
    let written : ℕ = elim (level_name level) [ none ↦ 0 | some name ↦ length line + 1 ] in
    if ltb room written then none else some (write_line line (open_file m (turn_day m s)))

unfoldable pub log_print_s : ℕ → Message → LogSystem → Option LogSystem
log_print_s level m s = if ltb s.print_level level then some s else log_print_v level m s

-- Messages one after the other.
unfoldable pub log_all : List (ℕ × Message) → LogSystem → Option LogSystem
log_all [] s = some s
log_all ((level, m) ∷ ms) s = elim (log_print_s level m s) [ none ↦ none | some s' ↦ log_all ms s' ]
