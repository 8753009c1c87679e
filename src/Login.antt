-- ===== src/Login.antt =====
-- internal/httpapi/login_limiter.go: failed logins are counted by address and by pair of address and
-- account. Times are numbers of nanoseconds; comparisons with `now - d` are written `… + d < now`.
pub mod Capacity
pub mod Waits
pub mod Lockout
use fragata.Base.{
  ℕ, zero, suc, ◌+◌, ◌-◌, ◌*◌, Bool, true, false, not, ◌&&◌, ◌||◌, ℤ, pos, lt_int, pos_part, List,
  [], ◌∷◌, ◌++◌, Option, none, some, Bytes, codes, bytes_eq, length, keep, Table, lookup, insert,
  delete, keep_entries, ltb, leb, if◌then◌else◌,
}

pub record LoginBucket : Type 0 where
  pub failures : List ℕ
  pub blocked_until : ℕ
  pub last_seen : ℕ

pub record LoginLimiter : Type 0 where
  pub buckets : Table LoginBucket
  pub max_attempts : ℕ
  pub window : ℕ
  pub block_duration : ℕ

abbrev pub minute : ℕ
minute = 60_000_000_000

abbrev pub max_tracked_login_buckets : ℕ
max_tracked_login_buckets = 10_000

abbrev pub positive_or : ℤ → ℕ → ℕ
positive_or n default = if lt_int n (pos 1) then default else pos_part n

unfoldable pub new_login_limiter : ℤ → ℤ → ℤ → LoginLimiter
new_login_limiter max_attempts window block_duration = record {
  buckets = [];
  max_attempts = positive_or max_attempts 5;
  window = positive_or window minute;
  block_duration = positive_or block_duration (10 * minute);
}

-- strings.TrimSpace, strings.ToLower, and SHA-256 in hexadecimal.
pub record Texts : Type 0 where
  pub trim_space : Bytes → Bytes
  pub to_lower : Bytes → Bytes
  pub digest : Bytes → Bytes

abbrev pub or_unknown : Bytes → Bytes
or_unknown [] = codes "unknown"
or_unknown (x ∷ xs) = x ∷ xs

module _ (texts : Texts) where
  open texts use {trim_space, to_lower, digest}

  unfoldable pub ip_key : Bytes → Bytes
  ip_key ip = codes "ip:" ++ or_unknown (trim_space ip)

  unfoldable pub pair_key : Bytes → Bytes → Bytes
  pair_key ip username =
      codes "pair:" ++ digest (or_unknown (trim_space ip) ++ (0 ∷ to_lower (trim_space username)))

  unfoldable pub login_keys : Bytes → Bytes → List Bytes
  login_keys ip username = ip_key ip ∷ pair_key ip username ∷ []

abbrev pub new_bucket : LoginBucket
new_bucket = record { failures = []; blocked_until = 0; last_seen = 0 }

abbrev pub bucket_or_new : Option LoginBucket → LoginBucket
bucket_or_new none = new_bucket
bucket_or_new (some b) = b

-- `bucketLocked`: the bucket as it stands in the map after the call.
unfoldable pub bucket_locked : ℕ → Option LoginBucket → LoginBucket
bucket_locked now o = record (bucket_or_new o) { last_seen = now }

unfoldable pub prune_failures_locked : ℕ → ℕ → LoginBucket → LoginBucket
prune_failures_locked window now b = record b {
  failures = keep (λ at. ltb now (at + window)) b.failures;
  blocked_until = if ltb now b.blocked_until then b.blocked_until else 0;
}

-- The loop that looks for the least recently seen bucket, from the best one so far.
unfoldable pub oldest_from : Bytes → ℕ → Table LoginBucket → Bytes
oldest_from oldest_key oldest [] = oldest_key
oldest_from oldest_key oldest ((key, b) ∷ rest) =
    let older = bytes_eq oldest_key [] || ltb b.last_seen oldest in
    oldest_from (if older then key else oldest_key) (if older then b.last_seen else oldest) rest

-- The loop of evictions, on as much fuel as there are buckets.
unfoldable pub evict : ℕ → Table LoginBucket → Table LoginBucket
evict zero t = t
evict (suc fuel) t = elim (ltb max_tracked_login_buckets (length t)) [
  | true ↦ evict fuel (delete (oldest_from [] 0 t) t)
  | false ↦ t
]

-- Seen before now - (window + block + 1 minute), and not blocked.
unfoldable pub is_stale : LoginLimiter → ℕ → LoginBucket → Bool
is_stale l now b =
    ltb (b.last_seen + (l.window + l.block_duration + minute)) now && not (ltb now b.blocked_until)

unfoldable pub cleanup_locked : ℕ → LoginLimiter → LoginLimiter
cleanup_locked now l =
    let kept = keep_entries (λ b. not (is_stale l now b)) l.buckets in
    record l { buckets = evict (length kept) kept }

abbrev pub longer : ℕ → ℕ → ℕ
longer retry wait = if ltb retry wait then wait else retry

-- One round of the loop of `Allow`.
unfoldable pub allow_key : ℕ → Bytes → LoginLimiter × ℕ → LoginLimiter × ℕ
allow_key now key (l, retry) =
    let b = prune_failures_locked l.window now (bucket_locked now (lookup key l.buckets)) in
    (
      record l { buckets = insert key b l.buckets },
      if ltb now b.blocked_until then longer retry (b.blocked_until - now) else retry,
    )

unfoldable pub allow_keys : ℕ → List Bytes → LoginLimiter × ℕ → LoginLimiter × ℕ
allow_keys now [] s = s
allow_keys now (key ∷ keys) s = allow_keys now keys (allow_key now key s)

-- The bucket after one more failure.
unfoldable pub failed_bucket : LoginLimiter → ℕ → LoginBucket → LoginBucket
failed_bucket l now b =
    let failures = b.failures ++ now ∷ [] in
    record b {
      failures = failures;
      last_seen = now;
      blocked_until =
          if leb l.max_attempts (length failures) then now + l.block_duration else b.blocked_until;
    }

-- One round of the loop of `Fail`.
unfoldable pub fail_key : ℕ → Bytes → LoginLimiter × ℕ → LoginLimiter × ℕ
fail_key now key (l, retry) =
    let b = prune_failures_locked l.window now (bucket_locked now (lookup key l.buckets)) in
    let failed = failed_bucket l now b in
    (
      record l { buckets = insert key failed l.buckets },
      if leb l.max_attempts (length failed.failures) then longer retry l.block_duration else retry,
    )

unfoldable pub fail_keys : ℕ → List Bytes → LoginLimiter × ℕ → LoginLimiter × ℕ
fail_keys now [] s = s
fail_keys now (key ∷ keys) s = fail_keys now keys (fail_key now key s)

unfoldable pub delete_keys : List Bytes → Table LoginBucket → Table LoginBucket
delete_keys [] t = t
delete_keys (key ∷ keys) t = delete_keys keys (delete key t)

pub record Verdict : Type 0 where
  pub allowed : Bool
  pub retry_after : ℕ

module _ (texts : Texts) (ip username : Bytes) where
  unfoldable pub allow : ℕ → LoginLimiter → LoginLimiter × Verdict
  allow now l =
      let (l', retry) = allow_keys now (login_keys texts ip username) (cleanup_locked now l, 0) in
      (l', record { allowed = leb retry 0; retry_after = retry })

  unfoldable pub fail : ℕ → LoginLimiter → LoginLimiter × ℕ
  fail now l =
      let (l', retry) = fail_keys now (login_keys texts ip username) (l, 0) in
      (cleanup_locked now l', retry)

  unfoldable pub success : LoginLimiter → LoginLimiter
  success l = record l { buckets = delete_keys (login_keys texts ip username) l.buckets }
