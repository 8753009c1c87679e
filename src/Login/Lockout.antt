-- ===== src/Login/Lockout.antt =====
-- What `Fail` of internal/httpapi/login_limiter.go does to later attempts.
use fragata.Base.{
  ℕ, ◌+◌, ◌-◌, ◌≤◌, ◌<◌, ◌≡◌, refl, ap, ◌∙◌, true, false, List, [], ◌∷◌, none, some, Bytes,
  bytes_eq, bytes_eq_iff, length, length-append, keep, lookup, insert, delete, lookup-insert,
  lookup-delete, length-insert-le, IsMap, insert-IsMap, delete-IsMap, arith, ltb,
}
use fragata.Login.{
  LoginBucket, LoginLimiter, max_tracked_login_buckets, bucket_or_new, bucket_locked,
  prune_failures_locked, failed_bucket, cleanup_locked, is_stale, fail_key, fail_keys, login_keys,
  ip_key, pair_key, Texts, Verdict, allow, fail, success, delete_keys,
}
use fragata.Login.Waits.{wait_of, wait, lookup-cleanup, cleanup-IsMap, allow-wait}
use fragata.Login.Capacity.{length-fail, length-delete_keys}

-- The failures of an address that still count.
unfoldable pub recent_failures : ℕ → Bytes → LoginLimiter → List ℕ
recent_failures now key l =
    keep (λ at. ltb now (at + l.window)) (bucket_or_new (lookup key l.buckets)).failures

keys_differ :
    (texts : Texts) (ip ip' username : Bytes)
    → bytes_eq (pair_key texts ip username) (ip_key texts ip') ≡ false
unfolding pair_key ip_key bytes_eq
keys_differ texts ip ip' username = refl

-- The bucket of a key after a failure that reaches the limit.
failed_bucket-blocked :
    (now : ℕ) (key : Bytes) (l : LoginLimiter)
    → l.max_attempts ≤ length (recent_failures now key l) + 1
    → let b = prune_failures_locked l.window now (bucket_locked now (lookup key l.buckets)) in
      (failed_bucket l now b).blocked_until ≡ now + l.block_duration
unfolding failed_bucket prune_failures_locked bucket_locked recent_failures
failed_bucket-blocked now key l h =
    let counted = length-append (recent_failures now key l) (now ∷ []) in ground (arith, counted)

module _ (texts : Texts) (ip username : Bytes) (now : ℕ) (l : LoginLimiter) where
  abbrev failed_ip : LoginBucket
  failed_ip =
      failed_bucket l now (
        prune_failures_locked l.window now (bucket_locked now (lookup (ip_key texts ip) l.buckets)))

  abbrev after_keys : LoginLimiter
  after_keys = (fail_keys now (login_keys texts ip username) (l, 0)).0

  lookup-after_keys : lookup (ip_key texts ip) after_keys.buckets ≡ some failed_ip
  unfolding fail_keys fail_key login_keys
  lookup-after_keys =
      let self : bytes_eq (ip_key texts ip) (ip_key texts ip) ≡ true =
        (bytes_eq_iff (ip_key texts ip) (ip_key texts ip)).1 refl in
      lookup-insert (pair_key texts ip username) (ip_key texts ip) _ _
      ∙ rw (keys_differ texts ip ip username)
          (lookup-insert (ip_key texts ip) (ip_key texts ip) failed_ip l.buckets ∙ rw self)

  after_keys-IsMap : IsMap l.buckets → IsMap after_keys.buckets
  unfolding fail_keys fail_key login_keys
  after_keys-IsMap m = insert-IsMap _ _ _ (insert-IsMap _ _ l.buckets m)

  length-after_keys : length after_keys.buckets ≤ length l.buckets + 2
  unfolding fail_keys fail_key login_keys
  length-after_keys = omega (
    arith,
    length-insert-le (ip_key texts ip) failed_ip l.buckets,
    length-insert-le (pair_key texts ip username) _ (insert (ip_key texts ip) failed_ip l.buckets),
  )

  not_stale :
      failed_ip.blocked_until ≡ now + l.block_duration
      → 0 < l.block_duration
      → is_stale after_keys now failed_ip ≡ false
  unfolding is_stale
  not_stale e h = ground arith

  fail-IsMap : IsMap l.buckets → IsMap (fail texts ip username now l).0.buckets
  unfolding fail
  fail-IsMap m = cleanup-IsMap now after_keys (after_keys-IsMap m)

  wait-fail :
      (later : ℕ)
      → IsMap l.buckets
      → length l.buckets + 2 ≤ max_tracked_login_buckets
      → l.max_attempts ≤ length (recent_failures now (ip_key texts ip) l) + 1
      → now ≤ later
      → later < now + l.block_duration
      → wait later (ip_key texts ip) (fail texts ip username now l).0
        ≡ now + l.block_duration - later
  unfolding fail
  wait-fail later m room many start open_ =
      let until = failed_bucket-blocked now (ip_key texts ip) l many in
      let kept =
        lookup-cleanup now (ip_key texts ip) after_keys (after_keys-IsMap m)
          (omega (arith, length-after_keys)) in
      let found : lookup (ip_key texts ip) (cleanup_locked now after_keys).buckets
          ≡ some failed_ip =
        kept ∙ rw lookup-after_keys (rw (not_stale until (omega arith))) in
      ap (wait_of later) found ∙ rw until (ground arith)

  -- An address that fails once more within the window, when its failures there then reach the limit,
  -- is refused at its next call: at any time within the block duration, and for any account, `Allow`
  -- right after that failure denies the attempt with at least the time left. The clock does not go
  -- back, and the map has room for two buckets. Nothing is said of an attempt after other calls,
  -- which may put the address out of a full map.
  pub fail-lockout :
      (later : ℕ) (username' : Bytes)
      → IsMap l.buckets
      → length l.buckets + 2 ≤ max_tracked_login_buckets
      → l.max_attempts ≤ length (recent_failures now (ip_key texts ip) l) + 1
      → now ≤ later
      → later < now + l.block_duration
      → let verdict = (allow texts ip username' later (fail texts ip username now l).0).1 in
        (verdict.allowed ≡ false) × (now + l.block_duration - later ≤ verdict.retry_after)
  fail-lockout later username' m room many start open_ =
      let l' = (fail texts ip username now l).0 in
      let waited = wait-fail later m room many start open_ in
      let said =
        allow-wait texts ip username' later l' (fail-IsMap m)
          (length-fail texts now ip username l) in
      (said.1 ∙ ground (arith, waited), rw said.0 (ground (arith, waited)))

verdict :
    (v : Verdict)
    → v.allowed ≡ true
    → v.retry_after ≡ 0
    → v ≡ record { allowed = true; retry_after = 0 }
verdict v a r = ground arith

module _ (texts : Texts) (ip username : Bytes) (l : LoginLimiter) where
  wait-success :
      (now : ℕ)
      → (wait now (ip_key texts ip) (success texts ip username l) ≡ 0)
        × (wait now (pair_key texts ip username) (success texts ip username l) ≡ 0)
  unfolding success delete_keys login_keys
  wait-success now =
      let k₁ = ip_key texts ip in
      let k₂ = pair_key texts ip username in
      let rest = delete k₁ l.buckets in
      let gone : lookup k₁ (delete k₂ rest) ≡ none =
        ground
          (arith, lookup-delete k₂ k₁ rest, lookup-delete k₁ k₁ l.buckets, bytes_eq_iff k₁ k₁) in
      let gone_too : lookup k₂ (delete k₂ rest) ≡ none =
        ground (arith, lookup-delete k₂ k₂ rest, bytes_eq_iff k₂ k₂) in
      (ap (wait_of now) gone, ap (wait_of now) gone_too)

  success-IsMap : IsMap l.buckets → IsMap (success texts ip username l).buckets
  unfolding success delete_keys login_keys
  success-IsMap m = delete-IsMap _ _ (delete-IsMap _ l.buckets m)

  length-success : length (success texts ip username l).buckets ≤ length l.buckets
  unfolding success
  length-success = length-delete_keys (login_keys texts ip username) l.buckets

  -- After a successful login the same address and account are allowed at once, whatever was counted
  -- or blocked before, while the map is within its limit.
  pub allow-success :
      (now : ℕ)
      → IsMap l.buckets
      → length l.buckets ≤ max_tracked_login_buckets
      → (allow texts ip username now (success texts ip username l)).1
        ≡ record { allowed = true; retry_after = 0 }
  allow-success now m h =
      let (first, second) = wait-success now in
      let said =
        allow-wait texts ip username now (success texts ip username l) (success-IsMap m)
          (omega (arith, length-success)) in
      verdict _ (rw (first, second) at said.1) (rw (first, second) at said.0)
