-- ===== src/Login/Capacity.antt =====
-- How many buckets internal/httpapi/login_limiter.go keeps.
use fragata.Base.{
  ℕ, zero, suc, ◌+◌, ◌≤◌, ◌<◌, ◌≡◌, ◌≢◌, refl, sym, inl, inr, ◌⊎◌, Bool, true, false, ◌||◌, List,
  [], ◌∷◌, none, some, Bytes, bytes_eq, bytes_eq_iff, length, Table, lookup, delete,
  length-insert-le, length-delete-le, arith, ltb, if◌then◌else◌, Bool-cases, ltb→le, ltb→lt,
}
use fragata.Login.{
  LoginBucket, LoginLimiter, max_tracked_login_buckets, oldest_from, evict, cleanup_locked,
  allow_key, allow_keys, login_keys, ip_key, pair_key, delete_keys, Texts, allow, fail, success,
}

some_ne_none : {b : LoginBucket} → some b ≢ none
some_ne_none e = cc

lookup-cons_ne_none :
    (j k : Bytes) (b : LoginBucket) (t : Table LoginBucket)
    → (j ≡ k) ⊎ (lookup j t ≢ none)
    → lookup j ((k, b) ∷ t) ≢ none
unfolding lookup
lookup-cons_ne_none j k b t h = elim (Bool-cases (bytes_eq k j)) [
  | inl e ↦ rw e some_ne_none
  | inr e ↦ rw e (elim h [
    | inl same ↦ let t : bytes_eq k j ≡ true = (bytes_eq_iff k j).1 (sym same) in absurd (cc)
    | inr found ↦ found
  ])
]

-- The bucket that is evicted is one of the map.
lookup-oldest_from :
    (key : Bytes) (time : ℕ) (t : Table LoginBucket)
    → (oldest_from key time t ≡ key) ⊎ (lookup (oldest_from key time t) t ≢ none)
unfolding oldest_from
lookup-oldest_from key time [] = inl refl
lookup-oldest_from key time ((k, b) ∷ rest) = go (bytes_eq key [] || ltb b.last_seen time) (
    lookup-oldest_from (if bytes_eq key [] || ltb b.last_seen time then k else key)
      (if bytes_eq key [] || ltb b.last_seen time then b.last_seen else time) rest)
  where
    go :
        (older : Bool)
        → let found =
            oldest_from (if older then k else key) (if older then b.last_seen else time) rest in
          (found ≡ (if older then k else key)) ⊎ (lookup found rest ≢ none)
          → (found ≡ key) ⊎ (lookup found ((k, b) ∷ rest) ≢ none)
    go true h = inr (lookup-cons_ne_none _ k b rest h)
    go false (inl e) = inl e
    go false (inr h) = inr (lookup-cons_ne_none _ k b rest (inr h))

length-delete-lt :
    (key : Bytes) (t : Table LoginBucket) → lookup key t ≢ none → length (delete key t) < length t
unfolding lookup delete
length-delete-lt key [] h = absurd (h refl)
length-delete-lt key ((k, b) ∷ t) h = elim (Bool-cases (bytes_eq k key)) [
  | inl e ↦ rw e (omega (arith, length-delete-le key t))
  | inr e ↦ rw e (omega (arith, length-delete-lt key t (rw e at h)))
]

length-evict_round :
    (t : Table LoginBucket) → 0 < length t → length (delete (oldest_from [] 0 t) t) < length t
unfolding oldest_from bytes_eq
length-evict_round [] h = absurd (omega arith)
length-evict_round ((k, b) ∷ t) h =
    length-delete-lt _ ((k, b) ∷ t)
      (lookup-cons_ne_none _ k b t (lookup-oldest_from k b.last_seen t))

-- As many rounds as there are buckets are enough.
pub length-evict :
    (fuel : ℕ) (t : Table LoginBucket)
    → length t ≤ fuel + max_tracked_login_buckets
    → length (evict fuel t) ≤ max_tracked_login_buckets
unfolding evict
length-evict zero t h = omega arith
length-evict (suc fuel) t h = elim (Bool-cases (ltb max_tracked_login_buckets (length t))) [
  | inl e ↦
      rw (e, evict)
        (length-evict fuel _
          (omega (arith, ltb→lt _ _ e, length-evict_round t (omega (arith, ltb→lt _ _ e)))))
  | inr e ↦ rw (e, evict) (ltb→le _ _ e)
]

abbrev pub size : LoginLimiter → ℕ
size l = length l.buckets

length-cleanup :
    (now : ℕ) (l : LoginLimiter) → size (cleanup_locked now l) ≤ max_tracked_login_buckets
unfolding cleanup_locked
length-cleanup now l = length-evict _ _ (omega arith)

length-allow_key :
    (now : ℕ) (key : Bytes) (s : LoginLimiter × ℕ) → size (allow_key now key s).0 ≤ size s.0 + 1
unfolding allow_key
length-allow_key now key (l, retry) = length-insert-le key _ l.buckets

pub length-delete_keys :
    (keys : List Bytes) (t : Table LoginBucket) → length (delete_keys keys t) ≤ length t
unfolding delete_keys
length-delete_keys [] t = omega arith
length-delete_keys (key ∷ keys) t =
    omega (arith, length-delete_keys keys (delete key t), length-delete-le key t)

-- What a client can make the limiter do, and when.
pub data Call : Type 0 where
  allows : ℕ → Bytes → Bytes → Call
  fails : ℕ → Bytes → Bytes → Call
  succeeds : Bytes → Bytes → Call

module _ (texts : Texts) where
  pub step : LoginLimiter → Call → LoginLimiter
  step l (allows now ip username) = (allow texts ip username now l).0
  step l (fails now ip username) = (fail texts ip username now l).0
  step l (succeeds ip username) = success texts ip username l

  pub steps : LoginLimiter → List Call → LoginLimiter
  steps l [] = l
  steps l (c ∷ cs) = steps (step l c) cs

  length-step :
      (l : LoginLimiter) (c : Call)
      → size l ≤ max_tracked_login_buckets + 2
      → size (step l c) ≤ max_tracked_login_buckets + 2
  unfolding step allow fail success login_keys allow_keys
  length-step l (allows now ip username) h =
      let first : LoginLimiter × ℕ = (cleanup_locked now l, 0) in
      let second = allow_key now (ip_key texts ip) first in
      omega (
        arith,
        length-cleanup now l,
        length-allow_key now (ip_key texts ip) first,
        length-allow_key now (pair_key texts ip username) second,
      )
  length-step l (fails now ip username) h = omega (arith, length-cleanup now _)
  length-step l (succeeds ip username) h =
      omega (arith, length-delete_keys (login_keys texts ip username) l.buckets)

  -- Whatever calls arrive, the limiter never holds more than two buckets above its limit of 10000:
  -- the two that a check of a new client opens after its cleanup.
  pub length-steps :
      (l : LoginLimiter) (cs : List Call)
      → length l.buckets ≤ max_tracked_login_buckets + 2
      → length (steps l cs).buckets ≤ max_tracked_login_buckets + 2
  unfolding steps
  length-steps l [] h = h
  length-steps l (c ∷ cs) h = length-steps (step l c) cs (length-step l c h)

  -- A recorded failure leaves at most 10000 buckets, however many there were.
  pub length-fail :
      (now : ℕ) (ip username : Bytes) (l : LoginLimiter)
      → length (fail texts ip username now l).0.buckets ≤ max_tracked_login_buckets
  unfolding fail
  length-fail now ip username l = length-cleanup now _
