-- ===== src/Tests/Visits.antt =====
-- Witnesses: passes over a module.
use tyr.Prelude.{ℕ, suc, ◌≡◌, true, [], ◌∷◌, not}
use tyr.Passes.{Pass, visit, run_passes}
use tyr.Passes.Answers.{
  conj, run_calls, struct_calls, run_pass_calls, visit-run_calls, run_passes-run_pass_calls,
}
use tyr.Tests.{point}

-- A pass that counts its calls, and fails on each field that is a count.
abbrev counting : Pass ℕ
counting = record {
  run_on_field = λ f n. (not f.is_count, suc n);
  run_on_struct = λ x n. (true, suc n);
  run_on_module = λ n. (true, suc n);
}

visit-run_calls_example : visit counting (point ∷ []) 0 ≡ (
  conj (run_calls counting (struct_calls (point ∷ [])) 0).0,
  (run_calls counting (struct_calls (point ∷ [])) 0).1,
)
visit-run_calls_example = visit-run_calls counting (point ∷ []) 0

run_passes-run_pass_calls_example : run_passes (counting ∷ counting ∷ []) (point ∷ []) true 0 ≡ (
  conj (run_pass_calls (point ∷ []) (counting ∷ counting ∷ []) 0).0,
  (run_pass_calls (point ∷ []) (counting ∷ counting ∷ []) 0).1,
)
run_passes-run_pass_calls_example =
    run_passes-run_pass_calls (point ∷ []) (counting ∷ counting ∷ []) 0
