-- ===== src/Login/Waits.antt =====
-- What `Allow` of internal/httpapi/login_limiter.go answers.
use fragata.Base.{
  ℕ, zero, suc, ◌-◌, ◌≤◌, ◌≡◌, refl, ap, ◌∙◌, inl, inr, Bool, false, not, [], ◌∷◌, Option, none,
  some, Bytes, bytes_eq, bytes_eq_iff, length, Table, lookup, keep_entries, lookup-insert,
  lookup-keep_entries, value_if, IsMap, delete-IsMap, keep_entries-IsMap, arith, ltb, leb,
  if◌then◌else◌, Bool-cases,
}
use fragata.Login.{
  LoginBucket, LoginLimiter, max_tracked_login_buckets, bucket_locked, prune_failures_locked, evict,
  cleanup_locked, is_stale, longer, allow_key, allow_keys, login_keys, ip_key, pair_key, Texts,
  allow,
}

-- How long a bucket blocks its key.
abbrev pub wait_of : ℕ → Option LoginBucket → ℕ
wait_of now none = 0
wait_of now (some b) = if ltb now b.blocked_until then b.blocked_until - now else 0

abbrev pub wait : ℕ → Bytes → LoginLimiter → ℕ
wait now key l = wait_of now (lookup key l.buckets)

length-keep_entries :
    (p : LoginBucket → Bool) (t : Table LoginBucket) → length (keep_entries p t) ≤ length t
unfolding keep_entries
length-keep_entries p [] = omega arith
length-keep_entries p ((k, b) ∷ t) = ground (arith, length-keep_entries p t)

-- Nothing is evicted from a map within the limit.
evict-small :
    (fuel : ℕ) (t : Table LoginBucket) → length t ≤ max_tracked_login_buckets → evict fuel t ≡ t
unfolding evict
evict-small zero t h = refl
evict-small (suc fuel) t h =
    let within : ltb max_tracked_login_buckets (length t) ≡ false = ground arith in
    rw (within, evict)

pub lookup-cleanup :
    (now : ℕ) (key : Bytes) (l : LoginLimiter)
    → IsMap l.buckets
    → length l.buckets ≤ max_tracked_login_buckets
    → lookup key (cleanup_locked now l).buckets
      ≡ value_if (λ b. not (is_stale l now b)) (lookup key l.buckets)
unfolding cleanup_locked
lookup-cleanup now key l m h =
    let kept = keep_entries (λ b. not (is_stale l now b)) l.buckets in
    rw
      (evict-small (length kept) kept
        (omega (arith, length-keep_entries (λ b. not (is_stale l now b)) l.buckets)))
      (lookup-keep_entries (λ b. not (is_stale l now b)) key l.buckets m)

evict-IsMap : (fuel : ℕ) (t : Table LoginBucket) → IsMap t → IsMap (evict fuel t)
unfolding evict
evict-IsMap zero t m = m
evict-IsMap (suc fuel) t m = elim (Bool-cases (ltb max_tracked_login_buckets (length t))) [
  | inl e ↦ rw (e, evict) (evict-IsMap fuel _ (delete-IsMap _ t m))
  | inr e ↦ rw (e, evict) m
]

pub cleanup-IsMap :
    (now : ℕ) (l : LoginLimiter) → IsMap l.buckets → IsMap (cleanup_locked now l).buckets
unfolding cleanup_locked
cleanup-IsMap now l m = evict-IsMap _ _ (keep_entries-IsMap _ l.buckets m)

wait_of-stale :
    (l : LoginLimiter) (now : ℕ) (o : Option LoginBucket)
    → wait_of now (value_if (λ b. not (is_stale l now b)) o) ≡ wait_of now o
unfolding is_stale
wait_of-stale l now none = refl
wait_of-stale l now (some b) = ground arith

wait_of-pruned :
    (window now : ℕ) (o : Option LoginBucket)
    → wait_of now (some (prune_failures_locked window now (bucket_locked now o))) ≡ wait_of now o
unfolding prune_failures_locked bucket_locked
wait_of-pruned window now none = ground arith
wait_of-pruned window now (some b) = ground arith

wait-allow_key :
    (now : ℕ) (key j : Bytes) (s : LoginLimiter × ℕ)
    → wait now j (allow_key now key s).0 ≡ wait now j s.0
unfolding allow_key
wait-allow_key now key j (l, retry) =
    let b = prune_failures_locked l.window now (bucket_locked now (lookup key l.buckets)) in
    rw (lookup-insert key j b l.buckets) (elim (Bool-cases (bytes_eq key j)) [
      | inl e ↦ rw e (
          wait_of-pruned l.window now (lookup key l.buckets)
          ∙ ap (λ k. wait now k l) ((bytes_eq_iff key j).0 e))
      | inr e ↦ rw e
    ])

retry-allow_key :
    (now : ℕ) (key : Bytes) (s : LoginLimiter × ℕ)
    → (allow_key now key s).1 ≡ longer s.1 (wait now key s.0)
unfolding allow_key
retry-allow_key now key (l, retry) =
    ground (arith, wait_of-pruned l.window now (lookup key l.buckets))

-- Within the limit of buckets, `Allow` reports the longer of the waits of the address and of the
-- pair, as the buckets stand before the call, and allows the attempt exactly when both are zero.
pub allow-wait :
    (texts : Texts) (ip username : Bytes) (now : ℕ) (l : LoginLimiter)
    → IsMap l.buckets
    → length l.buckets ≤ max_tracked_login_buckets
    → let longest =
        longer (wait now (ip_key texts ip) l) (wait now (pair_key texts ip username) l) in
      ((allow texts ip username now l).1.retry_after ≡ longest)
      × ((allow texts ip username now l).1.allowed ≡ leb longest 0)
unfolding allow allow_keys login_keys
allow-wait texts ip username now l m h =
    let k₁ = ip_key texts ip in
    let k₂ = pair_key texts ip username in
    let start : LoginLimiter × ℕ = (cleanup_locked now l, 0) in
    let unchanged : (key : Bytes) → wait now key (cleanup_locked now l) ≡ wait now key l = λ key.
      ap (wait_of now) (lookup-cleanup now key l m h)
      ∙ wait_of-stale l now (lookup key l.buckets) in
    let first = retry-allow_key now k₁ start in
    let second = retry-allow_key now k₂ (allow_key now k₁ start) in
    let carried = wait-allow_key now k₁ k₂ start in
    let total : (allow_key now k₂ (allow_key now k₁ start)).1
        ≡ longer (wait now k₁ l) (wait now k₂ l) =
      ground (arith, first, second, carried, unchanged k₁, unchanged k₂) in
    (total, ap (λ retry. leb retry 0) total)
