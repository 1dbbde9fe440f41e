-- ===== src/Tests/Retry.antt =====
-- layer1/retry_client.py, at a function that fails twice and then returns.
use live_system_intelligence.Prelude.{
  ℕ, suc, true, ap, ◌+◌, ◌-◌, ◌*◌, ◌≤◌, max, String, ltb, if◌then◌else◌, ◌≡◌, refl, arith,
}
use live_system_intelligence.Exec.{Error, ok, err, Exec}
use live_system_intelligence.Retry.{
  Timing, default_policy, with_attempts, backoff_delay, retry_loop, pause, with_retry,
}
use live_system_intelligence.Retry.Calls.{tries, with_retry-eq-tries}
use live_system_intelligence.Retry.Recovery.{Succeeded, with_retry-Succeeded}
use live_system_intelligence.Retry.Backoff.{IsTimed, with_retry-slept}

-- The calls made, and the time slept.
abbrev Counters : Type 0
Counters = ℕ × ℕ

abbrev timing : Timing Counters
timing = record { uniform = λ d w. (d, w); sleep = λ d w. (w.0, w.1 + d) }

abbrev broken : Error
broken = record { kind = "ServiceUnavailable"; message = "try again" }

abbrev flaky : Exec Counters String
flaky w = (if ltb w.0 2 then err broken else ok "done", (w.0 + 1, w.1))

flaky_run : with_retry timing default_policy flaky (0, 0) ≡ (ok "done", (3, 3000))
unfolding with_retry retry_loop pause backoff_delay
flaky_run = refl

two_attempts : with_retry timing (with_attempts 2) flaky (0, 0) ≡ (err broken, (2, 1000))
unfolding with_retry retry_loop pause backoff_delay
two_attempts = refl

with_retry-eq-tries_example :
    with_retry timing default_policy flaky (0, 0) ≡ tries timing default_policy 3 0 flaky (0, 0)
with_retry-eq-tries_example = with_retry-eq-tries timing default_policy flaky (0, 0)

timing_quiet : (n : ℕ) (w : Counters) → (pause timing default_policy n w).0 ≡ w.0
unfolding pause
timing_quiet n w = refl

timing-IsTimed : IsTimed timing (λ w. w.1)
timing-IsTimed = record {
  uniform_le = λ d w. omega arith;
  uniform_takes = λ d w. refl;
  sleep_takes = λ d w. refl;
}

with_retry-slept_example :
    (with_retry timing default_policy flaky (0, 0)).1.1 ≤ 0 + (max 1 4 - 1) * 30000
with_retry-slept_example =
    with_retry-slept timing default_policy (λ w. w.1) timing-IsTimed flaky (λ w. refl) (0, 0)

fails :
    (n : ℕ) (w : Counters)
    → 2 - w.0 ≡ suc n
    → (e : Error) × (true ≡ true) × ((flaky w).0 ≡ err e) × (2 - (flaky w).1.0 ≡ n)
fails n w h = (broken, refl, ground (arith, h), omega (arith, h))

works : (w : Counters) → 2 - w.0 ≡ 0 → Succeeded (flaky w).0
works w h = ("done", ground (arith, h))

with_retry-Succeeded_example : Succeeded (with_retry timing default_policy flaky (0, 0)).0
with_retry-Succeeded_example =
    with_retry-Succeeded timing default_policy flaky (λ w. 2 - w.0)
      (record { works = works; fails = fails; quiet = λ n w. ap (λ m. 2 - m) (timing_quiet n w) })
      (0, 0) (omega arith)
