-- ===== src/Main/Tests.antt =====
-- A run of `main` of source/main.cpp, with one second in the main loop.
use aim_to_v.Base.{ℕ, ◌≡◌, refl, [], ◌∷◌, arith}
use aim_to_v.Sys.{Answer, World, nothing, returned}
use aim_to_v.Sys.Hoare.{Runs}
use aim_to_v.Main.{main}
use aim_to_v.Main.Orderly.{LeftOrderly, main-LeftOrderly}

abbrev gives : ℕ → Answer
gives n = record nothing { value = n }

abbrev before : World
before = record {
  answers =
      record nothing { value = 3; value2 = 4 }
      ∷ gives 0
      ∷ gives 0
      ∷ gives 0
      ∷ gives 0
      ∷ gives 1
      ∷ gives 0
      ∷ [];
  trace = [];
}

main_returns : (main 9 before).0 ≡ returned tt
unfolding main aim_to_v.Sys.◌>>=◌ aim_to_v.Sys.emit aim_to_v.Sys.call aim_to_v.Sys.setnonblocking
    aim_to_v.Sys.pure aim_to_v.Main.run_threads aim_to_v.Main.main_loop aim_to_v.Sys.running
    aim_to_v.Main.close_pipe
main_returns = refl

main-LeftOrderly_example : Runs (main 9) before (λ u. LeftOrderly before)
main-LeftOrderly_example = main-LeftOrderly 9 before refl tt (omega arith)
