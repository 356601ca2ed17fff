-- ===== src/Tests/Work.antt =====
-- Budgets, loops, and the trees of the batch analyzer.
use yet_another_reuse_distan.Prelude.{
  ℕ, ◌+◌, ◌*◌, ◌≤◌, ◌<◌, ◌≡◌, ◌↔◌, refl, true, [], ◌∷◌, ok, arith,
}
use yet_another_reuse_distan.Trace.Budget.{
  ExpansionBudget, enter_loops, sum, AllWithin, enter_loops_iff,
}
use yet_another_reuse_distan.Trace.Loop.{
  pos, negsuc, place, InRange, loop_iteration_count, loop_iteration_count_up,
  loop_iteration_count_down,
}
use yet_another_reuse_distan.Rd.Fenwick.{update}
use yet_another_reuse_distan.Batch.Csrd.{add, add-update}

abbrev fresh : ExpansionBudget
fresh = record {
  limits = record { expanded_nodes = 100; inline_call_depth = 8 };
  loop_limits = record { single_loop_iterations = 10; cumulative_loop_iterations = 20 };
  expanded_nodes = 0;
  loop_iterations = 3;
  maximum_inline_depth = 0;
}

abbrev charged : ExpansionBudget
charged = record fresh { loop_iterations = 15 }

enter_loops_iff_example : (enter_loops fresh (7 ∷ 5 ∷ []) ≡ ok charged) ↔ (
    (charged ≡ record fresh { loop_iterations = 3 + sum (7 ∷ 5 ∷ []) })
    × AllWithin 10 (7 ∷ 5 ∷ [])
    × (3 + sum (7 ∷ 5 ∷ []) ≤ 20))
enter_loops_iff_example = enter_loops_iff fresh charged (7 ∷ 5 ∷ []) (omega arith) (omega arith)

-- From -4 up to 9 by 3, and down again.
loop_iteration_count_up_example :
    (n : ℕ) × (loop_iteration_count (negsuc 3) (pos 9) (pos 3) ≡ ok n)
    × ((i : ℕ) → (i < n) ↔ (place (negsuc 3) + i * 3 < place (pos 9)))
loop_iteration_count_up_example =
    loop_iteration_count_up (negsuc 3) (pos 9) 2 (unfold InRange in omega arith)
      (unfold InRange in omega arith)

loop_iteration_count_down_example :
    (n : ℕ) × (loop_iteration_count (pos 9) (negsuc 3) (negsuc 2) ≡ ok n)
    × ((i : ℕ) → (i < n) ↔ (place (negsuc 3) + i * (2 + 1) < place (pos 9)))
loop_iteration_count_down_example =
    loop_iteration_count_down (pos 9) (negsuc 3) 2 (unfold InRange in omega arith)
      (unfold InRange in omega arith) (unfold InRange in omega arith)

add-update_example : add (0 ∷ 1 ∷ 1 ∷ 0 ∷ 1 ∷ []) 3 true ≡ update 4 (0 ∷ 1 ∷ 1 ∷ 0 ∷ 1 ∷ []) 3 true
add-update_example = add-update 4 3 true (0 ∷ 1 ∷ 1 ∷ 0 ∷ 1 ∷ []) refl (omega arith) (omega arith)
