-- ===== src/Main/Init.antt =====
-- `init` of source/main.cpp: the log's level, and one line of the log about the configuration. The
-- link to the program, the files and what `vsnprintf` makes of the line come from outside.
use aim_to_v.Base.{Option, List, [], ◌∷◌, ◌++◌}
use aim_to_v.Wire.Bytes.{Bytes}
use aim_to_v.Common.{get_exe_dir}
use aim_to_v.Config.{open_config, read_config}
use aim_to_v.Log.{LogSystem, Message, set_print_log_level, log_print_s, log_debug, log_info}

-- "config.ini"
abbrev pub config_name : Bytes
config_name = 99 ∷ 111 ∷ 110 ∷ 102 ∷ 105 ∷ 103 ∷ 46 ∷ 105 ∷ 110 ∷ 105 ∷ []

-- "test1" and so on.
abbrev test_key : Bytes → Bytes
test_key number = 116 ∷ 101 ∷ 115 ∷ 116 ∷ number

module _ (split : Bytes → Bytes → List Bytes) (files : Bytes → Option Bytes)
    (report : Bytes → Bytes → Bytes → Message) where
  unfoldable pub init : Option Bytes → LogSystem → Option LogSystem
  init link s =
      let exe_path = get_exe_dir link ++ config_name in
      let cfg = open_config split exe_path (files exe_path) in
      log_print_s log_info
        (report (read_config (test_key (49 ∷ [])) cfg) (read_config (test_key (50 ∷ [])) cfg)
          (read_config (test_key (51 ∷ [])) cfg))
        (set_print_log_level log_debug s)
