-- ===== src/Checks/Splitters.antt =====
-- The splitters of repo/splitter at concrete inputs.
use kopia.Prelude.{ℕ, ◌≡◌, refl, List, [], ◌∷◌, ◌++◌, some, arith}
use kopia.Checks.Parameters.{sum_hash, sum_hash-IsWindowed}
use kopia.Splitter.Rolling.{
  RollingSplitter, next_split_point, fast_path, split_loop, finish_loop, split_over_max, roll_all,
}
use kopia.Splitter.Rolling.Scan.{IsReady, SameResult, scan}
use kopia.Splitter.Rolling.Refinement.{next_split_point-scan}
use kopia.Splitter.Rolling.Segments.{Cut, next_split_point-Cut}
use kopia.Splitter.Rolling.Streaming.{next_split_point-append, and_then}

-- segments of 2 to 8 bytes, cut where the sum is a multiple of 4
abbrev small : RollingSplitter sum_hash
small = record { rh = []; mask = 3; count = 0; min_size = 2; max_size = 8 }

small-IsReady : IsReady sum_hash small
small-IsReady = omega arith

abbrev text : List ℕ
text = 1 ∷ 2 ∷ 2 ∷ 3 ∷ 1 ∷ []

next_split_point_runs : (next_split_point sum_hash small text).0 ≡ some 4
unfolding next_split_point fast_path split_loop finish_loop split_over_max roll_all
next_split_point_runs = refl

next_split_point-scan_example :
    SameResult sum_hash (next_split_point sum_hash small text) (scan sum_hash small 0 text)
next_split_point-scan_example =
    next_split_point-scan sum_hash sum_hash-IsWindowed small text small-IsReady

next_split_point-Cut_example :
    Cut sum_hash small 0 5
      (next_split_point sum_hash small text).0
      (next_split_point sum_hash small text).1.count
    × ((next_split_point sum_hash small text).1.min_size ≡ 2)
    × ((next_split_point sum_hash small text).1.max_size ≡ 8)
next_split_point-Cut_example =
    next_split_point-Cut sum_hash sum_hash-IsWindowed small text small-IsReady

next_split_point-append_example :
    SameResult sum_hash (next_split_point sum_hash small (text ++ text)) (
      and_then sum_hash
        (next_split_point sum_hash small text)
        5
        (λ t. next_split_point sum_hash t text))
next_split_point-append_example =
    next_split_point-append sum_hash sum_hash-IsWindowed small text text small-IsReady
