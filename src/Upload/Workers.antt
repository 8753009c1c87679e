-- ===== src/Upload/Workers.antt =====
-- internal/upload/uploader.go: the queue and the workers on it.
use mathlib.Core.Option
use fragata.Base.{
  ℤ, pos, negsuc, ℕ, zero, suc, ◌+◌, Bool, true, false, not, ◌&&◌, ◌||◌, List, [], ◌∷◌, ◌++◌,
  Option, none, some, Bytes, Table, lookup, insert, delete, length, ltb, get_elem?, remove_at,
  lt_int, pos_part, if◌then◌else◌,
}
use fragata.Hub.{is_nil}
use fragata.Model.{UploadJob, SftpProfile, State}
use fragata.Store.Disk.{Library, Answers}
use fragata.Store.Commands.{Store, save_upload_job}
use fragata.Store.Commands
use fragata.Upload.{
  SftpConfig, Tools, UploadError, no_profile, cannot_stat, no_id, store_failed, profile_config,
  ConfigError, validate_config, profile_to_config, environment_profile_id, backoff, truncate,
}
use fragata.Upload.Transfer.{World, Replies, process}

abbrev pub Claims : Type 0
Claims = Table (Unit {0})

-- Not yet due, or claimed by a worker.
abbrev pub is_busy : ℕ → Claims → UploadJob → Bool
is_busy now claimed job =
    ltb now job.next_attempt
    || elim (lookup job.id claimed) as (λ _. Bool) [ none ↦ false | some u ↦ true ]

-- `nextJob` on the jobs that it has read from the store, with the claim that it makes.
unfoldable pub next_job : ℕ → List UploadJob → Claims → Option (UploadJob × Claims)
next_job now [] claimed = none
next_job now (job ∷ jobs) claimed =
    let later = next_job now jobs claimed in
    if is_busy now claimed job then later else some (job, insert job.id tt claimed)

unfoldable pub release : Bytes → Claims → Claims
release id claimed = delete id claimed

unfoldable pub add_one : ℤ → ℤ
add_one (pos n) = pos (n + 1)
add_one (negsuc zero) = pos 0
add_one (negsuc (suc n)) = negsuc n

-- The job as it is queued after an error with this text.
unfoldable pub failed_job : Tools → ℕ → Bytes → UploadJob → UploadJob
failed_job tools now text job =
    let attempts = add_one job.attempts in
    record job {
      attempts = attempts;
      last_error = truncate tools text 800;
      next_attempt = now + backoff attempts;
    }

module _ (lib : Library) (key : Bytes) (tools : Tools) (legacy : SftpConfig) where
  -- `fail`, which ignores an error of the store.
  unfoldable pub fail : Answers → ℕ → Bytes → UploadJob → Store → Store
  fail os now text job st =
      (Commands.run lib key os (save_upload_job (failed_job tools now text job)) st).0

  -- `Enqueue` of the file at a path that is there or not, with the random number that it reads.
  unfoldable pub enqueue :
      Answers
      → ℕ
      → Option Bytes
      → Bytes
      → Bytes
      → Bytes
      → Bytes
      → World
      → Store × Option UploadError
  enqueue os now random camera_id profile_id local_path relative w =
      let resolved =
        if is_nil profile_id && legacy.enabled then environment_profile_id else profile_id in
      let saved : UploadJob → Store × Option UploadError = λ job.
        let result = Commands.run lib key os (save_upload_job job) w.store in
        (result.0, Option.map store_failed result.1) in
      let found : Option Bytes = lookup local_path w.local in
      elim (profile_config tools legacy w.store.content profile_id)
        as (λ _. Store × Option UploadError) [
          | none ↦ (w.store, some no_profile)
          | some cfg ↦ elim found as (λ _. Store × Option UploadError) [
            | none ↦ (w.store, some cannot_stat)
            | some content ↦ elim random as (λ _. Store × Option UploadError) [
              | none ↦ (w.store, some no_id)
              | some id ↦ saved (record {
                id = id;
                camera_id = camera_id;
                sftp_profile_id = resolved;
                local_path = local_path;
                remote_path = tools.join cfg.remote_base_dir relative;
                sha256 = [];
                size = pos (length content);
                attempts = pos 0;
                next_attempt = now;
                created_at = now;
                completed_at = 0;
                last_error = [];
              })
            ]
          ]
        ]

  -- The workers: the jobs they have in hand, and those whose error is still to be saved.
  pub record System : Type 0 where
    pub world : World
    pub claimed : Claims
    pub working : List UploadJob
    pub failing : List UploadJob

  -- What a worker does next: it takes a job of a list that it has read, ends the work on one that it
  -- has, or saves an error.
  pub data Step : Type 0 where
    taking : ℕ → List UploadJob → Step
    ending : ℕ → Replies → Step
    saving : ℕ → Answers → ℕ → Bytes → Step

  abbrev pub with_failing : Option UploadError → UploadJob → List UploadJob → List UploadJob
  with_failing none job failing = failing
  with_failing (some e) job failing = failing ++ job ∷ []

  -- The claim is given up before the error is saved.
  unfoldable pub end_work : Replies → ℕ → UploadJob → System → System
  end_work re i job s =
      let result = process lib key tools legacy re job s.world in
      record {
        world = result.0;
        claimed = release job.id s.claimed;
        working = remove_at s.working i;
        failing = with_failing result.1 job s.failing;
      }

  unfoldable pub work : Step → System → System
  work (taking now jobs) s = elim (next_job now jobs s.claimed) as (λ _. System) [
    | none ↦ s
    | some (job, claimed) ↦ record s { claimed = claimed; working = job ∷ s.working }
  ]
  work (ending i re) s = elim (get_elem? s.working i) as (λ _. System) [
    | none ↦ s
    | some job ↦ end_work re i job s
  ]
  work (saving i os now text) s = elim (get_elem? s.failing i) as (λ _. System) [
    | none ↦ s
    | some job ↦ record s {
      world = record (s.world) { store = fail os now text job s.world.store };
      failing = remove_at s.failing i;
    }
  ]

  unfoldable pub work_all : List Step → System → System
  work_all [] s = s
  work_all (step ∷ steps) s = work_all steps (work step s)

-- The number of workers that `New` sets.
unfoldable worker_count : SftpConfig → ℕ
worker_count legacy = if lt_int legacy.workers (pos 1) then 1 else pos_part legacy.workers

unfoldable is_enabled : Tools → SftpConfig → State → Bytes → Bool
is_enabled tools legacy s profile_id =
    elim (profile_config tools legacy s profile_id) as (λ _. Bool) [
      | none ↦ false
      | some cfg ↦ true
    ]

data TestError : Type 0 where
  bad_config : ConfigError → TestError
  not_connected no_base_directory : TestError

-- `Test`, with the answers of the connection and of `MkdirAll`.
unfoldable test_profile : Tools → Bool → Bool → SftpProfile → Option TestError
test_profile tools connect_ok mkdir_ok profile =
    elim (validate_config tools (profile_to_config profile)) as (λ _. Option TestError) [
      | some e ↦ some (bad_config e)
      | none ↦
          if not connect_ok
          then some not_connected
          else if not mkdir_ok
          then some no_base_directory
          else none
    ]
