-- ===== src/Http/Tests.antt =====
-- Reads of source/http_server.cpp that fit the buffer.
use aim_to_v.Base.{◌≡◌, ◌↔◌, ◌≤◌, refl, [], ◌∷◌, arith}
use aim_to_v.Sys.{nothing, returned}
use aim_to_v.Http.{bufsiz, read_all}
use aim_to_v.Http.Reading.{world, reads, read_all_defined_iff}

read_all_defined_iff_example :
    ((read_all 4 5 0 (world (reads (100 ∷ 8000 ∷ 500 ∷ []) (nothing ∷ [])) [])).0 ≡ returned tt)
    ↔ (8600 ≤ bufsiz)
read_all_defined_iff_example =
    read_all_defined_iff 5 nothing [] refl 4 (100 ∷ 8000 ∷ 500 ∷ []) []
      (omega arith, (omega arith, (omega arith, tt))) (omega arith)
