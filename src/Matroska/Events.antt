-- ===== src/Matroska/Events.antt =====
-- The frames of a recording, from what the recorder hands to internal/matroska/writer.go.
use fragata.Base.{
  ℤ, pos, pos_part, lt_int, Bool, not, ◌||◌, List, [], ◌∷◌, ◌++◌, Bytes, Option, none, some, ℕ,
  if◌then◌else◌,
}
use fragata.Hub.{AccessUnit, AudioPacket, is_nil}
use fragata.Matroska.Writer.{milliseconds, sub64, frame}
use fragata.Matroska.Frames.{Frame}

abbrev pub frame_at : ℕ → ℕ → ℕ → Bytes → Frame
frame_at track absolute flags payload = record {
  track = track;
  time = absolute;
  flags = flags;
  payload = payload;
}

-- What the recorder hands to the writer.
pub data Event (P : Type 0) : Type 0 where
  video : AccessUnit → Event P
  audio : AudioPacket P → Event P

-- A time since the origin, in milliseconds.
abbrev pub since : ℤ → ℤ → ℤ
since origin pts = milliseconds (sub64 pts origin)

abbrev pub origin_or : Option ℤ → ℤ → ℤ
origin_or none pts = pts
origin_or (some origin) pts = origin

abbrev pub video_origin : Option ℤ → AccessUnit → Option ℤ
video_origin origin au = if is_nil au.nalus then origin else some (origin_or origin au.pts)

-- The first unit with media sets the origin.
unfoldable pub origin_after : {P : Type 0} → Option ℤ → Event P → Option ℤ
origin_after origin (video au) = video_origin origin au
origin_after origin (audio packet) = origin

-- The sound that is recorded: what comes with a known codec, after the origin.
unfoldable pub audio_frames : {P : Type 0} → Bool → Option ℤ → AudioPacket P → List Frame
audio_frames heard none packet = []
audio_frames heard (some origin) packet =
    if not heard || is_nil packet.payload
    then []
    else if lt_int (since origin packet.pts) (pos 0)
    then []
    else frame_at 0x82 (pos_part (since origin packet.pts)) 0x80 packet.payload ∷ []

-- A picture, with all its units.
unfoldable pub video_frames : Option ℤ → AccessUnit → List Frame
video_frames origin au =
    if is_nil au.nalus
    then []
    else frame_at 0x81 (pos_part (since (origin_or origin au.pts) au.pts))
        (if au.key_frame then 0x80 else 0) (frame au.nalus)
      ∷ []

unfoldable pub frames_of_event : {P : Type 0} → Bool → Option ℤ → Event P → List Frame
frames_of_event heard origin (video au) = video_frames origin au
frames_of_event heard origin (audio packet) = audio_frames heard origin packet

unfoldable pub frames_of : {P : Type 0} → Bool → Option ℤ → List (Event P) → List Frame
frames_of heard origin [] = []
frames_of heard origin (e ∷ events) =
    frames_of_event heard origin e ++ frames_of heard (origin_after origin e) events
