-- ===== src/Upload.antt =====
-- internal/upload/uploader.go: the queue of recordings for an SFTP server, and the transfer of one.
pub mod Transfer
pub mod Files
pub mod Whole
pub mod Attempts
pub mod Series
pub mod Workers
pub mod Claims
pub mod Waits
pub mod Succeeds
use fragata.Base.{
  ℤ, pos, lt_int, pos_part, ℕ, ◌+◌, ◌-◌, ◌*◌, ◌^◌, Bool, true, false, not, ◌&&◌, ◌||◌, List, [],
  ◌∷◌, ◌++◌, Option, none, some, Bytes, codes, bytes_eq, Table, lookup, length, take, ltb, leb,
  if◌then◌else◌, ◌%◌, negsuc,
}
use fragata.Hub.{is_nil}
use fragata.Model.{UploadJob, SftpProfile, State}
use fragata.Store.Disk.{StoreError}

pub record SftpConfig : Type 0 where
  pub enabled : Bool
  pub host : Bytes
  pub port : ℤ
  pub user : Bytes
  pub password : Bytes
  pub private_key_path : Bytes
  pub known_hosts_path : Bytes
  pub remote_base_dir : Bytes
  pub workers : ℤ
  pub timeout : ℤ
  pub delete_local : Bool

-- crypto/sha256 with encoding/hex, and functions of strings and path.
pub record Tools : Type 0 where
  pub sha256 : Bytes → Bytes
  pub trim : Bytes → Bytes
  pub fields : Bytes → List Bytes
  pub equal_fold : Bytes → Bytes → Bool
  pub base : Bytes → Bytes
  pub join : Bytes → Bytes → Bytes

pub data ConfigError : Type 0 where
  disabled no_host bad_port no_secret no_known_hosts no_directory : ConfigError

unfoldable pub validate_config : Tools → SftpConfig → Option ConfigError
validate_config tools cfg =
    if not cfg.enabled
    then some disabled
    else if is_nil (tools.trim cfg.host) || is_nil (tools.trim cfg.user)
    then some no_host
    else if lt_int cfg.port (pos 1) || lt_int (pos 65_535) cfg.port
    then some bad_port
    else if is_nil cfg.private_key_path && is_nil cfg.password
    then some no_secret
    else if is_nil cfg.known_hosts_path
    then some no_known_hosts
    else if is_nil (tools.trim cfg.remote_base_dir)
    then some no_directory
    else none

-- A `time.Duration` of so many seconds, in 64 bits.
unfoldable pub signed64 : ℕ → ℤ
signed64 n = if ltb n (2 ^ 63) then pos n else negsuc (2 ^ 64 - 1 - n)

unfoldable pub seconds : ℤ → ℤ
seconds (pos n) = signed64 (n * 1_000_000_000 % 2 ^ 64)
seconds (negsuc n) = signed64 ((2 ^ 64 - (n + 1) * 1_000_000_000 % 2 ^ 64) % 2 ^ 64)

unfoldable pub profile_to_config : SftpProfile → SftpConfig
profile_to_config profile =
    let timeout = seconds profile.timeout_seconds in
    record {
      enabled = true;
      host = profile.host;
      port = profile.port;
      user = profile.user;
      password = profile.password;
      private_key_path = profile.private_key_path;
      known_hosts_path = profile.known_hosts_path;
      remote_base_dir = profile.remote_base_dir;
      workers = pos 1;
      timeout = if lt_int timeout (pos 1) then pos 30_000_000_000 else timeout;
      delete_local = profile.delete_local;
    }

abbrev pub environment_profile_id : Bytes
environment_profile_id = codes "__environment__"

abbrev if_valid : Tools → SftpConfig → Option SftpConfig
if_valid tools cfg = elim (validate_config tools cfg) as (λ _. Option SftpConfig) [
  | none ↦ some cfg
  | some e ↦ none
]

-- The configuration that a job's profile stands for, on the settings of the environment and the store.
unfoldable pub profile_config : Tools → SftpConfig → State → Bytes → Option SftpConfig
profile_config tools legacy s id =
    let found : Option SftpProfile = lookup id s.sftp_profiles in
    let stored : Option SftpConfig = elim found as (λ _. Option SftpConfig) [
      | none ↦ none
      | some profile ↦ if profile.enabled then if_valid tools (profile_to_config profile) else none
    ] in
    if is_nil id || bytes_eq id environment_profile_id
    then (if legacy.enabled then if_valid tools legacy else none)
    else stored

-- The wait before the next attempt, in nanoseconds.
unfoldable pub backoff : ℤ → ℕ
backoff attempts =
    let count =
      if lt_int attempts (pos 1)
      then 1
      else if lt_int (pos 8) attempts
      then 8
      else pos_part attempts in
    2 ^ (count - 1) * 30_000_000_000

unfoldable pub truncate : Tools → Bytes → ℕ → Bytes
truncate tools value max =
    let trimmed = tools.trim value in if leb (length trimmed) max then trimmed else take max trimmed

pub data UploadError : Type 0 where
  cancelled no_profile cannot_open cannot_read cannot_seek cannot_connect : UploadError
  no_directory_made cannot_create copy_failed close_failed wrong_size not_confirmed : UploadError
  rename_failed no_checksum checksum_failed checksum_rename_failed cannot_remove : UploadError
  cannot_stat no_id : UploadError
  store_failed : StoreError → UploadError
