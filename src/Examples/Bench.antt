-- ===== src/Examples/Bench.antt =====
-- `bench_switch` and `test_simple` of examples/test.c end, for every number of actors and of rounds.
use sherry.Base.{ℕ, zero, suc, ◌+◌, ◌*◌, ◌<◌, refl, true, false, arith}
use sherry.Uv.{Uv}
use sherry.Step.{steps, boot}
use sherry.Queues.{Surely}
use sherry.Stops.{Ends}
use sherry.Stops.Run.{Emptied, boot-Emptied}
use sherry.Examples.{testf, test_rounds, test_simple}

test_rounds-Ends : (prefix i n : ℕ) → Ends false (test_rounds prefix i n) (n * 2 + 1)
unfolding test_rounds
test_rounds-Ends prefix i zero = (refl, omega arith)
test_rounds-Ends prefix i (suc n) =
    (n * 2 + 2, omega arith, (n * 2 + 1, omega arith, test_rounds-Ends prefix (i + 1) n))

testf-Ends : (prefix rounds : ℕ) → Ends false (testf prefix rounds) (rounds * 2 + 1)
unfolding testf
testf-Ends prefix rounds = test_rounds-Ends prefix 1 rounds

test_simple-Ends : Ends true test_simple 53
unfolding test_simple
test_simple-Ends = (
  11,
  40,
  omega arith,
  testf-Ends 1 5,
  λ _. (
    7,
    31,
    omega arith,
    testf-Ends 2 3,
    λ _. (
      21,
      8,
      omega arith,
      testf-Ends 3 10,
      λ _. (5, 1, omega arith, testf-Ends 4 2, λ _. (refl, omega arith)),
    ),
  ),
)

module _ {Loop : Type 0} (uv : Uv Loop) where
  -- `test_simple` has ended after 215 steps.
  test_simple-Emptied : (n : ℕ) → 214 < n → Surely Emptied (steps uv n (boot uv test_simple))
  test_simple-Emptied n lt = boot-Emptied uv test_simple 53 n test_simple-Ends (omega (arith, lt))
