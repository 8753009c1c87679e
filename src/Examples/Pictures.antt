-- ===== src/Examples/Pictures.antt =====
-- internal/retention/cleaner_test.go: an old event goes with its picture, a new one stays.
use fragata.Base.{
  ℕ, ◌≡◌, refl, pos, false, List, [], ◌∷◌, ◌++◌, none, some, Bytes, bytes_eq, codes, Table, lookup,
  insert, delete,
}
use fragata.Model.{State, DetectionEvent}
use fragata.Store.Disk.{
  replace_file, encode_state, encrypt_cameras, encrypt_profiles, persist, default_retention,
}
use fragata.Store.Commands.{Store, is_idle, run, change, delete_detection_events_change, remove_ids}
use fragata.Store.Undo.{HasMaps}
use fragata.Retention.Events.{
  PathTools, is_inside, events_before, picture_path, sweep_event, sweep_all, cleanup_events,
}
use fragata.Retention.Prunes.{cleanup_events-keeps}
use fragata.Examples.Upload.{toy, os}

abbrev tools : PathTools
tools = record {
  trim_space = λ s. s;
  from_slash = λ s. s;
  to_slash = λ s. s;
  split = λ s. s ∷ [];
  join = joined;
  absolute = λ path. some path;
}
  where
    joined : List Bytes → Bytes
    joined [] = []
    joined (part ∷ []) = part
    joined (part ∷ (other ∷ parts)) = part ++ codes "/" ++ joined (other ∷ parts)

abbrev event : Bytes → Bytes → ℕ → DetectionEvent
event id picture created = record {
  id = id;
  camera_id = [];
  camera_name = [];
  event_type = [];
  source = [];
  onvif_topic = [];
  confidence = 0;
  motion_score = 0;
  snapshot_path = picture;
  snapshot_width = pos 0;
  snapshot_height = pos 0;
  recording_path = [];
  recording_started_at = 0;
  recording_offset_millis = pos 0;
  created_at = created;
}

abbrev settings : State
settings = record {
  version = pos 4;
  cameras = [];
  sessions = [];
  upload_queue = [];
  sftp_profiles = [];
  retention = default_retention;
  events =
      (codes "old", event (codes "old") (codes "p1") 1)
      ∷ (codes "new", event (codes "new") (codes "p2") 9)
      ∷ [];
}

abbrev store : Store
store = record { content = settings; disk = record { state_file = none; tmp_file = none } }

abbrev pictures : Table Bytes
pictures = (codes "ev/p1", 1 ∷ []) ∷ (codes "ev/p2", 2 ∷ []) ∷ (codes "doc", 3 ∷ []) ∷ []

abbrev cleaned : Store × Table Bytes × ℕ
cleaned = cleanup_events tools toy [] os (λ path. false) (codes "ev") 5 store pictures

settings-HasMaps : HasMaps settings
unfolding lookup bytes_eq
settings-HasMaps = record {
  cameras = tt;
  sessions = tt;
  upload_queue = tt;
  sftp_profiles = tt;
  events = (refl, (refl, tt));
}

cleanup_events-keeps_example :
    (lookup (codes "new") cleaned.0.content.events ≡ lookup (codes "new") settings.events)
    × (lookup (codes "doc") cleaned.1 ≡ lookup (codes "doc") pictures)
unfolding lookup bytes_eq is_inside
cleanup_events-keeps_example =
    cleanup_events-keeps tools toy [] os (λ path. false) (codes "ev") (codes "ev") 5 store pictures
      (codes "new") (codes "doc") settings-HasMaps (refl, (refl, tt)) refl refl refl

old-gone :
    (lookup (codes "old") cleaned.0.content.events ≡ none)
    × (lookup (codes "ev/p1") cleaned.1 ≡ none)
unfolding cleanup_events sweep_all sweep_event picture_path events_before is_inside run is_idle
    change delete_detection_events_change remove_ids persist encode_state encrypt_cameras
    encrypt_profiles replace_file lookup insert delete bytes_eq
old-gone = (refl, refl)
