-- ===== src/Packs/Examples.antt =====
-- Runs of the calculator, and each theorem of this part at an input.
use pack_service.Base.{◌≡◌, refl, List, [], ◌∷◌, Outcome, returns, panics, ◌>>=◌}
use pack_service.Base.Int.{ℤ, pos}
use pack_service.Packs.{PackResult}
use pack_service.Packs.Table.{
  DpState, get_dp_state, put_dp_state, relax_at, relax, relax_all, has_better, exits, round, fill,
  find_min,
}
use pack_service.Packs.Breakdown.{
  small_order, index_sizes, count_pack, backtrack, collect, build_result,
}
use pack_service.Base.Machine.{add_int, sub_int}
use pack_service.Packs.Calculator.{calculate_core, pooled_core, solve}

program : Unit {0}
unfolding get_dp_state put_dp_state relax_at relax relax_all has_better exits round fill find_min
    small_order index_sizes count_pack backtrack collect build_result calculate_core pooled_core
    solve add_int sub_int
program = tt

abbrev idle : DpState
idle = record { dp = record { cells = []; spare = [] }; parent = record { cells = []; spare = [] } }

abbrev result_of : Outcome (DpState × PackResult) → Outcome PackResult
result_of m = m >>= λ r. returns r.1

abbrev sizes : List ℤ
sizes = pos 9 ∷ pos 5 ∷ pos 4 ∷ []

twelve :
    result_of (calculate_core idle 12 sizes (pos 4))
    ≡ returns (record {
      ordered_items = pos 12;
      total_items = pos 12;
      packs = record { size = pos 4; quantity = 3 } ∷ [];
    })
unfolding program
twelve = refl

eleven :
    result_of (calculate_core idle 11 sizes (pos 4))
    ≡ returns (record {
      ordered_items = pos 11;
      total_items = pos 12;
      packs = record { size = pos 4; quantity = 3 } ∷ [];
    })
unfolding program
eleven = refl

-- A size near the largest `int` makes `i + packSize` negative, and the read of `dp` panics.
panicking :
    result_of (calculate_core idle 3 (pos 9223372036854775807 ∷ pos 1 ∷ []) (pos 1)) ≡ panics
unfolding program
panicking = refl
