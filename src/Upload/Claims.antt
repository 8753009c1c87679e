-- ===== src/Upload/Claims.antt =====
-- internal/upload/uploader.go: who works on what.
use fragata.Base.{
  ℕ, zero, suc, ◌≡◌, refl, sym, ap, subst, ◌∙◌, inl, inr, Bool, true, false, List, [], ◌∷◌, ◌++◌,
  Option, none, some, Bytes, bytes_eq, bytes_eq_iff, lookup, insert, delete, lookup-insert,
  lookup-delete, arith, get_elem?, remove_at, split_if, split_option, Bool-cases, All,
}
use fragata.Model.{UploadJob}
use fragata.Store.Disk.{Library}
use fragata.Upload.{SftpConfig, Tools}
use fragata.Upload.Workers.{
  Claims, is_busy, next_job, release, System, Step, taking, ending, saving, end_work, work,
  work_all,
}

-- The first job of the list that is not busy, and all others where they were.
abbrev pub Finds : ℕ → Claims → List UploadJob → Option (UploadJob × Claims) → Type 0
Finds now claimed jobs none = All (λ job. is_busy now claimed job ≡ true) jobs
Finds now claimed jobs (some (job, claimed')) =
    (before : List UploadJob) × (after : List UploadJob) × (jobs ≡ before ++ job ∷ after)
    × All (λ other. is_busy now claimed other ≡ true) before
    × (is_busy now claimed job ≡ false)
    × (claimed' ≡ insert job.id tt claimed)

-- A worker gets the first job in the list that is due and that no worker has, and claims it; it gets
-- none where all are busy.
pub next_job-Finds :
    (now : ℕ) (jobs : List UploadJob) (claimed : Claims)
    → Finds now claimed jobs (next_job now jobs claimed)
unfolding next_job
next_job-Finds now [] claimed = tt
next_job-Finds now (job ∷ jobs) claimed =
    split_if (Finds now claimed (job ∷ jobs)) (is_busy now claimed job) _ _
      (λ busy. behind busy (next_job now jobs claimed) (next_job-Finds now jobs claimed))
      (λ free. ([], jobs, refl, tt, free, refl))
  where
    behind :
        is_busy now claimed job ≡ true
        → (o : Option (UploadJob × Claims)) → Finds now claimed jobs o
        → Finds now claimed (job ∷ jobs) o
    behind busy none h = (busy, h)
    behind busy (some (found, claimed')) (before, after, e, all, free, same) =
        (job ∷ before, after, ap (◌∷◌ job) e, (busy, all), free, same)

abbrev Differs : Bytes → UploadJob → Type 0
Differs id job = bytes_eq id job.id ≡ false

-- No two jobs of the list are one.
abbrev AreDistinct : List UploadJob → Type 0
AreDistinct [] = Unit
AreDistinct (job ∷ jobs) = All (Differs job.id) jobs × AreDistinct jobs

abbrev IsClaimed : Claims → UploadJob → Type 0
IsClaimed claimed job = lookup job.id claimed ≡ some tt

differs-sym : (p q : Bytes) → bytes_eq p q ≡ false → bytes_eq q p ≡ false
differs-sym p q h = ground (arith, bytes_eq_iff p q, bytes_eq_iff q p)

All-remove_at :
    (P : UploadJob → Type 0) (jobs : List UploadJob) (i : ℕ) → All P jobs → All P (remove_at jobs i)
All-remove_at P [] i all = tt
All-remove_at P (job ∷ jobs) zero all = all.1
All-remove_at P (job ∷ jobs) (suc i) all = (all.0, All-remove_at P jobs i all.1)

All-member :
    (P : UploadJob → Type 0) (jobs : List UploadJob) (i : ℕ) (job : UploadJob)
    → All P jobs
    → get_elem? jobs i ≡ some job
    → P job
All-member P [] i job all e = absurd (cc)
All-member P (j ∷ jobs) zero job all e = let same : j ≡ job = cc in subst P same all.0
All-member P (j ∷ jobs) (suc i) job all e = All-member P jobs i job all.1 e

-- The others differ from a job that is taken out.
AreDistinct-remove_at :
    (jobs : List UploadJob) (i : ℕ) (job : UploadJob)
    → AreDistinct jobs
    → get_elem? jobs i ≡ some job
    → AreDistinct (remove_at jobs i) × All (Differs job.id) (remove_at jobs i)
AreDistinct-remove_at [] i job h e = absurd (cc)
AreDistinct-remove_at (j ∷ jobs) zero job h e =
    let same : j ≡ job = cc in (h.1, subst (λ x. All (Differs x.id) jobs) same h.0)
AreDistinct-remove_at (j ∷ jobs) (suc i) job h e =
    let rest = AreDistinct-remove_at jobs i job h.1 e in
    let apart : Differs j.id job = All-member (Differs j.id) jobs i job h.0 e in
    ((All-remove_at (Differs j.id) jobs i h.0, rest.0), (differs-sym j.id job.id apart, rest.1))

-- Claims on the others stay when one is given up, and all stay when one is made.
still-IsClaimed :
    (id : Bytes) (claimed : Claims) (jobs : List UploadJob)
    → All (Differs id) jobs
    → All (IsClaimed claimed) jobs
    → All (IsClaimed (delete id claimed)) jobs
still-IsClaimed id claimed [] apart all = tt
still-IsClaimed id claimed (job ∷ jobs) apart all = (
  lookup-delete id job.id claimed ∙ rw apart.0 all.0,
  still-IsClaimed id claimed jobs apart.1 all.1,
)

also-IsClaimed :
    (id : Bytes) (claimed : Claims) (jobs : List UploadJob)
    → All (IsClaimed claimed) jobs
    → All (IsClaimed (insert id tt claimed)) jobs
also-IsClaimed id claimed [] all = tt
also-IsClaimed id claimed (job ∷ jobs) all =
    (added (bytes_eq id job.id) refl, also-IsClaimed id claimed jobs all.1)
  where
    added : (b : Bool) → bytes_eq id job.id ≡ b → lookup job.id (insert id tt claimed) ≡ some tt
    added true e = lookup-insert id job.id tt claimed ∙ rw e refl
    added false e = lookup-insert id job.id tt claimed ∙ rw e all.0

unclaimed-Differs :
    (id : Bytes) (claimed : Claims) (jobs : List UploadJob)
    → lookup id claimed ≡ none
    → All (IsClaimed claimed) jobs
    → All (Differs id) jobs
unclaimed-Differs id claimed [] free all = tt
unclaimed-Differs id claimed (job ∷ jobs) free all = (
  elim (Bool-cases (bytes_eq id job.id)) [
    | inl e ↦
        let same : id ≡ job.id = (bytes_eq_iff id job.id).0 e in
        absurd (cc (ap (λ x. lookup x claimed) same, free, all.0))
    | inr e ↦ e
  ],
  unclaimed-Differs id claimed jobs free all.1,
)

not_busy-free :
    (now : ℕ) (claimed : Claims) (job : UploadJob)
    → is_busy now claimed job ≡ false
    → lookup job.id claimed ≡ none
not_busy-free now claimed job h = ground (arith, h)

module _ (lib : Library) (key : Bytes) (tools : Tools) (legacy : SftpConfig) where
  -- Every job that a worker has is claimed, and no two workers have the same.
  abbrev pub IsOrderly : System lib key tools legacy → Type 0
  IsOrderly s = All (IsClaimed s.claimed) s.working × AreDistinct s.working

  take-IsOrderly :
      (now : ℕ) (jobs : List UploadJob) (s : System lib key tools legacy)
      → IsOrderly s
      → IsOrderly (work lib key tools legacy (taking now jobs) s)
  unfolding work
  take-IsOrderly now jobs s h =
      taken (next_job now jobs s.claimed) (next_job-Finds now jobs s.claimed)
    where
      taken :
          (o : Option (UploadJob × Claims))
          → Finds now s.claimed jobs o
          → IsOrderly (elim o as (λ _. System lib key tools legacy) [
            | none ↦ s
            | some (job, claimed) ↦ record s { claimed = claimed; working = job ∷ s.working }
          ])
      taken none f = h
      taken (some (job, claimed)) (before, after, e, all, free, same) =
          let unclaimed = not_busy-free now s.claimed job free in
          subst (λ c. All (IsClaimed c) (job ∷ s.working) × AreDistinct (job ∷ s.working))
            (sym same)
            (
              (
                lookup-insert job.id job.id tt s.claimed
                    ∙ rw ((bytes_eq_iff job.id job.id).1 refl) refl,
                also-IsClaimed job.id s.claimed s.working h.0,
              ),
              (unclaimed-Differs job.id s.claimed s.working unclaimed h.0, h.1),
            )

  work-IsOrderly :
      (step : Step lib key tools legacy) (s : System lib key tools legacy)
      → IsOrderly s
      → IsOrderly (work lib key tools legacy step s)
  unfolding work end_work release
  work-IsOrderly (taking now jobs) s h = take-IsOrderly now jobs s h
  work-IsOrderly (ending i re) s h =
      split_option IsOrderly (get_elem? s.working i) _ _ (λ e. h)
        (λ job e.
          let rest = AreDistinct-remove_at s.working i job h.1 e in
          (
            still-IsClaimed job.id s.claimed (remove_at s.working i) rest.1
                (All-remove_at (IsClaimed s.claimed) s.working i h.0),
            rest.0,
          ))
  work-IsOrderly (saving i os now text) s h =
      split_option IsOrderly (get_elem? s.failing i) _ _ (λ e. h) (λ job e. h)

  -- Whatever lists of jobs the workers have read, and in whatever order they take, end and fail: no two
  -- of them ever work on the same job at a time, and every job that one of them has is claimed.
  pub work_all-IsOrderly :
      (steps : List (Step lib key tools legacy)) (s : System lib key tools legacy)
      → IsOrderly s
      → IsOrderly (work_all lib key tools legacy steps s)
  unfolding work_all
  work_all-IsOrderly [] s h = h
  work_all-IsOrderly (step ∷ steps) s h =
      work_all-IsOrderly steps (work lib key tools legacy step s) (work-IsOrderly step s h)
