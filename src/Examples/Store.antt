-- ===== src/Examples/Store.antt =====
-- internal/store/store_test.go and its neighbours.
use mathlib.Core.List.Permᴰ
use fragata.Base.{
  subst, ℕ, ◌≡◌, ◌≢◌, refl, sym, true, false, [], ◌∷◌, none, some, Bytes, bytes_eq, codes, arith,
  pos, replicate, lookup, insert,
}
use native.Mathlib.Decide.{ℕ_discrete}
use mathlib.Core.Bool.{decide, decide_iff}
use fragata.Model.{Camera, Session, State}
use fragata.Store.Disk.{
  rename_failed, ok, DiskState, Library, Laws, SameEntries, Answers, replace_file, encrypt,
  encrypt_password, encrypt_cameras, encrypt_profiles, encode_state, persist, open_store,
  checked_retention, default_retention,
}
use fragata.Store.Commands.{Store, save_camera, change, is_idle, run}
use fragata.Store.Undo.{SameState, HasMaps}
use fragata.Store.Atomic.{run-atomic}
use fragata.Store.Order.{Reordered}
use fragata.Store.Reload.{ReadsFully}
use fragata.Store.Reopen.{IsCurrent, HoldsText, open_store-run}

abbrev camera : Camera
camera = record {
  id = codes "cam1";
  name = [];
  host = [];
  username = [];
  password = codes "secreto";
  rtsp_url = [];
  live_rtsp_url = [];
  profile_token = [];
  live_profile_token = [];
  manufacturer = [];
  model = [];
  serial_number = [];
  firmware_version = [];
  codec = [];
  width = pos 0;
  height = pos 0;
  live_codec = [];
  live_width = pos 0;
  live_height = pos 0;
  folder_name = [];
  enabled = false;
  record_enabled = false;
  segment_duration_seconds = pos 0;
  upload = false;
  sftp_profile_id = [];
  audio_codec = [];
  audio_sample_rate = pos 0;
  audio_channels = pos 0;
  detection_enabled = false;
  created_at = 0;
  updated_at = 0;
}

abbrev start : State
start = record {
  version = pos 4;
  cameras = [];
  sessions = [];
  upload_queue = [];
  sftp_profiles = [];
  retention = default_retention;
  events = [];
}

abbrev session_of : Bytes → Session
session_of id = record { id = id; csrf_token = []; created_at = 0; expires_at = 5 }

abbrev with_sessions : State
with_sessions = record start {
  sessions = (codes "a", session_of (codes "a")) ∷ (codes "b", session_of (codes "b")) ∷ [];
}

-- The disk form of the state with the sessions and the camera, its password under a nonce of one byte.
abbrev with_camera : DiskState
with_camera = record {
  version = pos 4;
  cameras =
      (
        codes "cam1",
        record { camera = record camera { password = [] }; password_cipher = 7 ∷ codes "secreto" },
      )
      ∷ [];
  sessions = with_sessions.sessions;
  upload_queue = [];
  sftp_profiles = [];
  retention = default_retention;
  events = [];
}

-- The same, as it is read.
abbrev other_order : DiskState
other_order = record with_camera {
  sessions = (codes "b", session_of (codes "b")) ∷ (codes "a", session_of (codes "a")) ∷ [];
}

DiskState-discrete : Discrete DiskState
DiskState-discrete = hlevel ℕ_discrete

-- A cipher that hides nothing, and a JSON that knows the one document above, which it reads in the other
-- order.
abbrev toy : Library
toy = record {
  new_gcm = λ key. true;
  nonce_size = 1;
  seal = λ key nonce plain. plain;
  open_sealed = λ key nonce sealed. some sealed;
  encode_base64 = λ raw. raw;
  decode_base64 = λ text. some text;
  marshal = λ d. some [];
  unmarshal = λ b. some other_order;
  is_text = λ d. decide (DiskState-discrete d with_camera);
}

cons_ne_nil : (x : ℕ) (xs : Bytes) → x ∷ xs ≢ []
cons_ne_nil x xs e = cc

is_text_known : (d : DiskState) → toy.is_text d ≡ true → d ≡ with_camera
is_text_known d h = (decide_iff (DiskState-discrete d with_camera)).0 h

same_entries : SameEntries with_camera other_order
same_entries = record {
  version = refl;
  cameras = Permᴰ.refl _;
  sessions = Permᴰ.swap refl refl;
  upload_queue = Permᴰ.refl _;
  sftp_profiles = Permᴰ.refl _;
  retention = refl;
  events = Permᴰ.refl _;
}

toy-Laws : Laws toy
toy-Laws = record {
  open-seal = λ key nonce plain. refl;
  decode-encode = λ raw. refl;
  nonce_some = omega arith;
  unmarshal-marshal = λ d b t keys m. (
    other_order,
    refl,
    subst (λ x. SameEntries x other_order) (sym (is_text_known d t)) same_entries,
  );
  encode_nonempty = cons_ne_nil;
}

abbrev os : Answers
os = record {
  random = λ n. some (7 ∷ []);
  read_ok = true;
  write_ok = true;
  partial = [];
  open_ok = true;
  sync_ok = true;
  close_ok = true;
  rename_ok = true;
}

abbrev key : Bytes
key = replicate 32 1

abbrev fresh : Store
fresh = record { content = start; disk = record { state_file = none; tmp_file = none } }

abbrev visited_store : Store
visited_store = record { content = with_sessions; disk = fresh.disk }

with_sessions-HasMaps : HasMaps with_sessions
unfolding lookup bytes_eq
with_sessions-HasMaps = record {
  cameras = tt;
  sessions = (refl, (refl, tt));
  upload_queue = tt;
  sftp_profiles = tt;
  events = tt;
}

some_injective : (a b : Bytes) → some a ≡ some b → a ≡ b
some_injective a b e = cc

os-ReadsFully : ReadsFully toy os
os-ReadsFully = record { size = λ n nonce e. rw (← some_injective _ nonce e) }

saved : (run toy key os (save_camera camera) visited_store).1 ≡ none
unfolding run change is_idle persist encode_state encrypt_cameras encrypt_profiles encrypt_password
    encrypt replace_file insert
saved = refl

saved_content :
    (run toy key os (save_camera camera) visited_store).0.content
    ≡ record with_sessions { cameras = (codes "cam1", camera) ∷ [] }
unfolding run change is_idle persist encode_state encrypt_cameras encrypt_profiles encrypt_password
    encrypt replace_file insert
saved_content = refl

encoded_known : (d : DiskState) → ok with_camera ≡ ok d → toy.is_text d ≡ true
encoded_known d e =
    let same : with_camera ≡ d = cc in (decide_iff (DiskState-discrete d with_camera)).1 (sym same)

saved_text : HoldsText toy key os (run toy key os (save_camera camera) visited_store).0.content
unfolding run change is_idle persist encode_state encrypt_cameras encrypt_profiles encrypt_password
    encrypt replace_file insert
saved_text = encoded_known

saved-IsCurrent : IsCurrent (run toy key os (save_camera camera) visited_store).0.content
unfolding run change is_idle persist encode_state encrypt_cameras encrypt_profiles encrypt_password
    encrypt replace_file insert checked_retention bytes_eq
saved-IsCurrent = record { version = refl; retention = refl }

not_idle : is_idle visited_store.content (save_camera camera) ≡ false
unfolding is_idle
not_idle = refl

start-HasMaps : HasMaps start
start-HasMaps = record {
  cameras = tt;
  sessions = tt;
  upload_queue = tt;
  sftp_profiles = tt;
  events = tt;
}

open_store-run_example :
    (s' : State) × (open_store toy key os (run toy key os (save_camera camera) visited_store).0.disk
      ≡ ((run toy key os (save_camera camera) visited_store).0.disk, ok s'))
    × Reordered (run toy key os (save_camera camera) visited_store).0.content s'
open_store-run_example =
    open_store-run toy toy-Laws key os os-ReadsFully (save_camera camera) visited_store os not_idle
      saved refl refl with_sessions-HasMaps saved_text saved-IsCurrent

abbrev stuck : Answers
stuck = record os { rename_ok = false }

not_saved : (run toy key stuck (save_camera camera) fresh).1 ≡ some rename_failed
unfolding run change is_idle persist encode_state encrypt_cameras encrypt_profiles encrypt_password
    encrypt replace_file insert
not_saved = refl

run-atomic_example :
    SameState (run toy key stuck (save_camera camera) fresh).0.content start
    × ((run toy key stuck (save_camera camera) fresh).0.disk.state_file ≡ none)
run-atomic_example =
    run-atomic toy key stuck (save_camera camera) fresh rename_failed start-HasMaps not_saved

abbrev visit : Session
visit = record { id = codes "s"; csrf_token = []; created_at = 0; expires_at = 5 }

abbrev visited : State
visited = record start { sessions = (codes "s", visit) ∷ [] }

visited-HasMaps : HasMaps visited
unfolding lookup
visited-HasMaps = record {
  cameras = tt;
  sessions = (refl, tt);
  upload_queue = tt;
  sftp_profiles = tt;
  events = tt;
}
