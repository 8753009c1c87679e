-- ===== src/Store/Disk.antt =====
-- How internal/store/store.go writes its state to disk and reads it back. AES-GCM, base64, JSON and
-- the source of random nonces are the library's: a parameter, with what the code relies on as laws.
use mathlib.Core.List.{Permᴰ}
use fragata.Base.{
  IsMap, ℕ, ◌+◌, ◌<◌, ◌≡◌, ◌≢◌, ℤ, pos, lt_int, Bool, true, false, ◌&&◌, ◌||◌, not, [], ◌∷◌, ◌++◌,
  Option, none, some, Bytes, codes, bytes_eq, length, take, drop, ltb, leb, if◌then◌else◌, Table,
}
use fragata.Model.{Camera, SftpProfile, RetentionPolicy, State}
use fragata.Model

pub data StoreError : Type 0 where
  bad_key bad_cipher no_random bad_json : StoreError
  write_failed open_failed sync_failed close_failed rename_failed read_failed : StoreError
  short_ciphertext bad_base64 bad_tag : StoreError

pub data Result {ℓ} (A : Type ℓ) : Type ℓ where
  ok : A → Result A
  err : StoreError → Result A

infixl 5 ◌>>=◌
abbrev pub ◌>>=◌ {ℓ κ} : {A : Type ℓ} {B : Type κ} → Result A → (A → Result B) → Result B
ok a >>= f = f a
err e >>= f = err e

abbrev pub or_fail {ℓ} : {A : Type ℓ} → Option A → StoreError → Result A
or_fail none e = err e
or_fail (some a) e = ok a

pub record EncryptedCamera : Type 0 where
  pub camera : Camera
  pub password_cipher : Bytes

pub record EncryptedSftpProfile : Type 0 where
  pub profile : SftpProfile
  pub password_cipher : Bytes

pub record DiskState : Type 0 where
  pub version : ℤ
  pub cameras : Table EncryptedCamera
  pub sessions : Table Model.Session
  pub upload_queue : Table Model.UploadJob
  pub sftp_profiles : Table EncryptedSftpProfile
  pub retention : RetentionPolicy
  pub events : Table Model.DetectionEvent

-- crypto/aes, crypto/cipher, encoding/base64 and encoding/json. `is_text` says that every string of a
-- state is valid UTF-8; `json.Marshal` replaces what is not.
pub record Library : Type 0 where
  pub new_gcm : Bytes → Bool
  pub nonce_size : ℕ
  pub seal : Bytes → Bytes → Bytes → Bytes
  pub open_sealed : Bytes → Bytes → Bytes → Option Bytes
  pub encode_base64 : Bytes → Bytes
  pub decode_base64 : Bytes → Option Bytes
  pub marshal : DiskState → Option Bytes
  pub unmarshal : Bytes → Option DiskState
  pub is_text : DiskState → Bool

-- The tables have each key once, as Go's maps do.
pub record HasTables (d : DiskState) : Type 0 where
  pub cameras : IsMap d.cameras
  pub sessions : IsMap d.sessions
  pub upload_queue : IsMap d.upload_queue
  pub sftp_profiles : IsMap d.sftp_profiles
  pub events : IsMap d.events

-- The same state with the entries of its tables in some other order.
pub record SameEntries (d d' : DiskState) : Type 0 where
  pub version : d.version ≡ d'.version
  pub cameras : Permᴰ d.cameras d'.cameras
  pub sessions : Permᴰ d.sessions d'.sessions
  pub upload_queue : Permᴰ d.upload_queue d'.upload_queue
  pub sftp_profiles : Permᴰ d.sftp_profiles d'.sftp_profiles
  pub retention : d.retention ≡ d'.retention
  pub events : Permᴰ d.events d'.events

-- Sealing is undone under the same key and nonce, base64 is undone by decoding, and base64 text of a
-- nonempty string is not empty. A state whose strings are text comes back from its JSON, with the line
-- break that the store adds, with its maps' entries in whatever order.
pub record Laws (lib : Library) : Type 0 where
  pub open-seal :
      (key nonce plain : Bytes) → lib.open_sealed key nonce (lib.seal key nonce plain) ≡ some plain
  pub decode-encode : (raw : Bytes) → lib.decode_base64 (lib.encode_base64 raw) ≡ some raw
  pub nonce_some : 0 < lib.nonce_size
  pub unmarshal-marshal :
      (d : DiskState) (b : Bytes)
      → lib.is_text d ≡ true
      → HasTables d
      → lib.marshal d ≡ some b
      → (d' : DiskState) × (lib.unmarshal (b ++ b'\n' ∷ []) ≡ some d') × SameEntries d d'
  pub encode_nonempty : (x : ℕ) (raw : Bytes) → lib.encode_base64 (x ∷ raw) ≢ []

-- The file at the store's path, and the temporary file beside it.
pub record Disk : Type 0 where
  pub state_file : Option Bytes
  pub tmp_file : Option Bytes

-- What the operating system answers during one operation: `random n` is its n-th read of a nonce,
-- and a failed write leaves `partial`.
pub record Answers : Type 0 where
  pub random : ℕ → Option Bytes
  pub read_ok : Bool
  pub write_ok : Bool
  pub partial : Bytes
  pub open_ok : Bool
  pub sync_ok : Bool
  pub close_ok : Bool
  pub rename_ok : Bool

-- The calls at the end of `persistLocked`.
unfoldable pub replace_file : Answers → Bytes → Disk → Disk × Option StoreError
replace_file os b disk =
    let written = record disk { tmp_file = some b } in
    if not os.write_ok
    then (record disk { tmp_file = some os.partial }, some write_failed)
    else if not os.open_ok
    then (written, some open_failed)
    else if not os.sync_ok
    then (written, some sync_failed)
    else if not os.close_ok
    then (written, some close_failed)
    else if not os.rename_ok
    then (written, some rename_failed)
    else (record written { state_file = some b; tmp_file = none }, none)

module _ (lib : Library) (key : Bytes) where
  open lib use {new_gcm, nonce_size, seal, open_sealed, encode_base64, decode_base64, marshal}

  -- `encrypt`, with the number of the nonce that it reads.
  unfoldable pub encrypt : Answers → ℕ → Bytes → Result Bytes
  encrypt os n plain =
      if new_gcm key
      then (or_fail (os.random n) no_random >>= λ nonce.
          ok (encode_base64 (nonce ++ seal key nonce plain)))
      else err bad_cipher

  unfoldable pub decrypt : Bytes → Result Bytes
  decrypt encoded = or_fail (decode_base64 encoded) bad_base64 >>= λ b.
      if new_gcm key
      then if ltb (length b) nonce_size
        then err short_ciphertext
        else or_fail (open_sealed key (take nonce_size b) (drop nonce_size b)) bad_tag
      else err bad_cipher

  -- A password is encrypted unless it is empty; the result counts the nonces read.
  unfoldable pub encrypt_password : Answers → ℕ → Bytes → Result (Bytes × ℕ)
  unfolding encrypt
  encrypt_password os n [] = ok ([], n)
  encrypt_password os n (x ∷ xs) = encrypt os n (x ∷ xs) >>= λ cipher. ok (cipher, n + 1)

  unfoldable pub decrypt_password : Bytes → Bytes → Result Bytes
  decrypt_password stored [] = ok stored
  decrypt_password stored (x ∷ xs) = decrypt (x ∷ xs)

  -- The loops of `persistLocked`.
  unfoldable pub encrypt_cameras : Answers → ℕ → Table Camera → Result (Table EncryptedCamera × ℕ)
  encrypt_cameras os n [] = ok ([], n)
  encrypt_cameras os n ((id, c) ∷ t) = encrypt_password os n c.password >>= λ (cipher, m).
      encrypt_cameras os m t >>= λ (rest, k).
      ok ((id, record { camera = record c { password = [] }; password_cipher = cipher }) ∷ rest, k)

  unfoldable pub encrypt_profiles :
      Answers → ℕ → Table SftpProfile → Result (Table EncryptedSftpProfile × ℕ)
  encrypt_profiles os n [] = ok ([], n)
  encrypt_profiles os n ((id, p) ∷ t) = encrypt_password os n p.password >>= λ (cipher, m).
      encrypt_profiles os m t >>= λ (rest, k).
      ok ((id, record { profile = record p { password = [] }; password_cipher = cipher }) ∷ rest, k)

  unfoldable pub encode_state : Answers → State → Result DiskState
  encode_state os s = encrypt_cameras os 0 s.cameras >>= λ (cameras, m).
      encrypt_profiles os m s.sftp_profiles >>= λ (profiles, k). ok (record {
        version = s.version;
        cameras = cameras;
        sessions = s.sessions;
        upload_queue = s.upload_queue;
        sftp_profiles = profiles;
        retention = s.retention;
        events = s.events;
      })

  -- `persistLocked`: a failure to encode touches no file.
  unfoldable pub persist : Answers → State → Disk → Disk × Option StoreError
  persist os s disk = elim (encode_state os s) [
    | err e ↦ (disk, some e)
    | ok d ↦ elim (marshal d) [
      | none ↦ (disk, some bad_json)
      | some b ↦ replace_file os (b ++ b'\n' ∷ []) disk
    ]
  ]

  -- The loops of `load`.
  unfoldable pub decrypt_cameras : Table EncryptedCamera → Result (Table Camera)
  decrypt_cameras [] = ok []
  decrypt_cameras ((id, e) ∷ t) =
      decrypt_password e.camera.password e.password_cipher >>= λ password.
      decrypt_cameras t >>= λ rest. ok ((id, record (e.camera) { password = password }) ∷ rest)

  unfoldable pub decrypt_profiles : Table EncryptedSftpProfile → Result (Table SftpProfile)
  decrypt_profiles [] = ok []
  decrypt_profiles ((id, e) ∷ t) =
      decrypt_password e.profile.password e.password_cipher >>= λ password.
      decrypt_profiles t >>= λ rest. ok ((id, record (e.profile) { password = password }) ∷ rest)

abbrev pub default_retention : RetentionPolicy
default_retention = record { enabled = false; value = pos 30; unit = codes "days"; updated_at = 0 }

unfoldable pub is_unit : Bytes → Bool
is_unit unit =
    bytes_eq unit (codes "days") || bytes_eq unit (codes "months") || bytes_eq unit (codes "years")

-- An invalid policy is replaced when the state is read.
unfoldable pub checked_retention : RetentionPolicy → RetentionPolicy
unfolding is_unit
checked_retention p =
    if lt_int p.value (pos 1) || not (is_unit p.unit) then default_retention else p

unfoldable pub checked_version : ℤ → ℤ
checked_version v = if lt_int v (pos 4) then pos 4 else v

unfoldable pub empty_state : State
empty_state = record {
  version = pos 4;
  cameras = [];
  sessions = [];
  upload_queue = [];
  sftp_profiles = [];
  retention = default_retention;
  events = [];
}

module _ (lib : Library) (key : Bytes) where
  -- The decoding half of `load`.
  unfoldable pub decode_state : DiskState → Result State
  decode_state d = decrypt_cameras lib key d.cameras >>= λ cameras.
      decrypt_profiles lib key d.sftp_profiles >>= λ profiles. ok (record {
        version = checked_version d.version;
        cameras = cameras;
        sessions = d.sessions;
        upload_queue = d.upload_queue;
        sftp_profiles = profiles;
        retention = checked_retention d.retention;
        events = d.events;
      })

  abbrev pub opened : State → Disk × Option StoreError → Disk × Result State
  opened s (disk, none) = (disk, ok s)
  opened s (disk, some e) = (disk, err e)

  -- The rest of `load`, on the decoded file.
  unfoldable pub migrate : Answers → Disk → Result DiskState → Disk × Result State
  migrate os disk (err e) = (disk, err e)
  migrate os disk (ok d) = elim (decode_state d) [
    | err e ↦ (disk, err e)
    | ok s ↦
        let rewritten = opened s (persist lib key os s disk) in
        if lt_int d.version (pos 4) then rewritten else (disk, ok s)
  ]

  -- `load`: a missing file is written from the fresh state, an old version is rewritten.
  unfoldable pub load : Answers → Disk → Disk × Result State
  load os disk = elim disk.state_file [
    | none ↦ opened empty_state (persist lib key os empty_state disk)
    | some b ↦
        if os.read_ok
        then migrate os disk (or_fail (lib.unmarshal b) bad_json)
        else (disk, err read_failed)
  ]

  -- `Open`, over a directory that could be made.
  unfoldable pub open_store : Answers → Disk → Disk × Result State
  open_store os disk =
      if leb 32 (length key) && leb (length key) 32 then load os disk else (disk, err bad_key)
