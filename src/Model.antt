-- ===== src/Model.antt =====
-- The data that internal/model/model.go declares and internal/store keeps. A `time.Time` is a number
-- of nanoseconds, an `int` a signed integer, and a `float64`, which is only stored, its bit pattern.
use fragata.Base.{ℕ, ℤ, Bool, Bytes, Table}

pub record Camera : Type 0 where
  pub id : Bytes
  pub name : Bytes
  pub host : Bytes
  pub username : Bytes
  pub password : Bytes
  pub rtsp_url : Bytes
  pub live_rtsp_url : Bytes
  pub profile_token : Bytes
  pub live_profile_token : Bytes
  pub manufacturer : Bytes
  pub model : Bytes
  pub serial_number : Bytes
  pub firmware_version : Bytes
  pub codec : Bytes
  pub width : ℤ
  pub height : ℤ
  pub live_codec : Bytes
  pub live_width : ℤ
  pub live_height : ℤ
  pub folder_name : Bytes
  pub enabled : Bool
  pub record_enabled : Bool
  pub segment_duration_seconds : ℤ
  pub upload : Bool
  pub sftp_profile_id : Bytes
  pub audio_codec : Bytes
  pub audio_sample_rate : ℤ
  pub audio_channels : ℤ
  pub detection_enabled : Bool
  pub created_at : ℕ
  pub updated_at : ℕ

pub record DetectionEvent : Type 0 where
  pub id : Bytes
  pub camera_id : Bytes
  pub camera_name : Bytes
  pub event_type : Bytes
  pub source : Bytes
  pub onvif_topic : Bytes
  pub confidence : ℕ
  pub motion_score : ℕ
  pub snapshot_path : Bytes
  pub snapshot_width : ℤ
  pub snapshot_height : ℤ
  pub recording_path : Bytes
  pub recording_started_at : ℕ
  pub recording_offset_millis : ℤ
  pub created_at : ℕ

pub record Session : Type 0 where
  pub id : Bytes
  pub csrf_token : Bytes
  pub created_at : ℕ
  pub expires_at : ℕ

pub record UploadJob : Type 0 where
  pub id : Bytes
  pub camera_id : Bytes
  pub sftp_profile_id : Bytes
  pub local_path : Bytes
  pub remote_path : Bytes
  pub sha256 : Bytes
  pub size : ℤ
  pub attempts : ℤ
  pub next_attempt : ℕ
  pub created_at : ℕ
  pub completed_at : ℕ
  pub last_error : Bytes

pub record SftpProfile : Type 0 where
  pub id : Bytes
  pub name : Bytes
  pub enabled : Bool
  pub host : Bytes
  pub port : ℤ
  pub user : Bytes
  pub password : Bytes
  pub private_key_path : Bytes
  pub known_hosts_path : Bytes
  pub remote_base_dir : Bytes
  pub delete_local : Bool
  pub timeout_seconds : ℤ
  pub created_at : ℕ
  pub updated_at : ℕ

pub record RetentionPolicy : Type 0 where
  pub enabled : Bool
  pub value : ℤ
  pub unit : Bytes
  pub updated_at : ℕ

pub record State : Type 0 where
  pub version : ℤ
  pub cameras : Table Camera
  pub sessions : Table Session
  pub upload_queue : Table UploadJob
  pub sftp_profiles : Table SftpProfile
  pub retention : RetentionPolicy
  pub events : Table DetectionEvent
