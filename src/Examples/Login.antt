-- ===== src/Examples/Login.antt =====
-- internal/httpapi/login_limiter_test.go and its neighbours.
use fragata.Base.{
  ◌+◌, ◌-◌, ◌≤◌, ◌≡◌, refl, false, List, [], ◌∷◌, codes, length, lookup, IsMap, arith, pos,
  bytes_eq, leb,
}
use fragata.Login.{
  LoginLimiter, new_login_limiter, Texts, ip_key, pair_key, allow, fail, longer,
  max_tracked_login_buckets,
}
use fragata.Login.Capacity.{Call, allows, fails, succeeds, steps, length-steps}
use fragata.Login.Waits.{wait, allow-wait}
use fragata.Login.Lockout.{recent_failures, fail-lockout}

abbrev plain : Texts
plain = record { trim_space = λ s. s; to_lower = λ s. s; digest = λ s. s }

abbrev twice_failed : LoginLimiter
twice_failed = record {
  buckets =
      (codes "ip:a", record { failures = 100 ∷ 200 ∷ []; blocked_until = 0; last_seen = 200 }) ∷ [];
  max_attempts = 3;
  window = 1000;
  block_duration = 5000;
}

twice_failed-IsMap : IsMap twice_failed.buckets
unfolding lookup
twice_failed-IsMap = (refl, tt)

recent : 3 ≤ length (recent_failures 300 (ip_key plain (codes "a")) twice_failed) + 1
unfolding recent_failures ip_key lookup bytes_eq
recent = omega arith

fail-lockout_example :
    let verdict =
      (allow plain
        (codes "a")
        (codes "root")
        400
        (fail plain (codes "a") (codes "bob") 300 twice_failed).0).1 in
    (verdict.allowed ≡ false) × (300 + 5000 - 400 ≤ verdict.retry_after)
fail-lockout_example =
    fail-lockout plain (codes "a") (codes "bob") 300 twice_failed 400 (codes "root")
      twice_failed-IsMap (omega arith) recent (omega arith) (omega arith)

allow-wait_example :
    let longest =
      longer
        (wait 400 (ip_key plain (codes "a")) twice_failed)
        (wait 400 (pair_key plain (codes "a") (codes "bob")) twice_failed) in
    ((allow plain (codes "a") (codes "bob") 400 twice_failed).1.retry_after ≡ longest)
    × ((allow plain (codes "a") (codes "bob") 400 twice_failed).1.allowed ≡ leb longest 0)
allow-wait_example =
    allow-wait plain (codes "a") (codes "bob") 400 twice_failed twice_failed-IsMap (omega arith)

abbrev visits : List Call
visits =
    fails 1 (codes "a") (codes "bob")
    ∷ allows 2 (codes "b") (codes "root")
    ∷ succeeds (codes "a") (codes "bob")
    ∷ []

length-steps_example :
    length (steps plain twice_failed visits).buckets ≤ max_tracked_login_buckets + 2
length-steps_example = length-steps plain twice_failed visits (omega arith)

fresh : (new_login_limiter (pos 0) (pos 0) (pos 0)).block_duration ≡ 600_000_000_000
unfolding new_login_limiter
fresh = refl
