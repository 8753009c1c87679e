-- ===== src/Livestream/Reader.antt =====
-- internal/livestream/manager.go: the reader of FFmpeg's output, box by box, and the texts it needs.
use mathlib.Core.Option
use fragata.Base.{
  ℕ, suc, ◌+◌, ◌-◌, ◌/◌, ◌%◌, Bool, true, false, ◌&&◌, [], ◌∷◌, ◌++◌, map, Bytes, bytes_eq, codes,
  Option, none, some, length, take, drop, ltb, ◌==◌, if◌then◌else◌,
}
use fragata.Hub.{is_nil}

pub record Metadata : Type 0 where
  pub mime : Bytes
  pub mode : Bytes
  pub has_audio : Bool
  pub transport : Bytes

unfoldable pub is_prefix : Bytes → Bytes → Bool
is_prefix [] s = true
is_prefix (x ∷ xs) [] = false
is_prefix (x ∷ xs) (y ∷ ys) = x == y && is_prefix xs ys

-- `bytes.Index` and `strings.Index`, and `strings.LastIndex`, for a text that is not empty.
unfoldable pub index : Bytes → Bytes → Option ℕ
index needle [] = none
index needle (b ∷ s) =
    let later = Option.map suc (index needle s) in
    if is_prefix needle (b ∷ s) then some 0 else later

unfoldable pub last_index : Bytes → Bytes → Option ℕ
last_index needle [] = none
last_index needle (b ∷ s) = elim (last_index needle s) [
  | some i ↦ some (suc i)
  | none ↦ if is_prefix needle (b ∷ s) then some 0 else none
]

abbrev contains : Bytes → Bytes → Bool
contains needle s = elim (index needle s) [ none ↦ false | some i ↦ true ]

-- The verb `%02X` on a byte.
abbrev hex_digit : ℕ → ℕ
hex_digit d = if ltb d 10 then 48 + d else 55 + d

abbrev hex_byte : ℕ → Bytes
hex_byte b = hex_digit (b / 16) ∷ hex_digit (b % 16) ∷ []

abbrev upper : ℕ → ℕ
upper c = if ltb 96 c && ltb c 123 then c - 32 else c

-- The mode that `ffmpegArgs` answers with, for a codec without spaces around it.
unfoldable pub ffmpeg_mode : Bytes → Bytes
ffmpeg_mode codec =
    if bytes_eq (map upper codec) (codes "H264") then codes "copy" else codes "transcode"

unfoldable pub h264_codec : Bytes → Bytes
h264_codec init_segment = codes "avc1." ++ hex_all init_segment
  where
    hex_all : Bytes → Bytes
    hex_all [] = []
    hex_all (b ∷ bytes) = hex_byte b ++ hex_all bytes

-- `none` is its error.
unfoldable pub metadata_from_init : Bytes → Bytes → Option Metadata
metadata_from_init init_segment mode =
    let sound = contains (codes "mp4a") init_segment in
    elim (index (codes "avcC") init_segment) [
      | none ↦ none
      | some avc ↦
          if ltb (length init_segment) (avc + 8)
          then none
          else some (record {
            mime =
                codes "video/mp4; codecs=\""
                ++ h264_codec (take 3 (drop (avc + 5) init_segment))
                ++ (if sound then codes ", mp4a.40.2" else [])
                ++ codes "\"";
            mode = mode;
            has_audio = sound;
            transport = codes "http-fmp4";
          })
    ]

-- The variables of `readMP4`.
pub record Reader : Type 0 where
  pub init_segment : Bytes
  pub fragment : Bytes
  pub prefix : Bytes
  pub ready : Bool

abbrev pub new_reader : Reader
new_reader = record { init_segment = []; fragment = []; prefix = []; ready = false }

-- The call that a box leads to; the last is the end of `readMP4` with an error.
pub data Reading : Type 0 where
  quiet : Reading
  makes_ready : Bytes → Bytes → Reading
  sends : Bytes → Reading
  breaks : Reading

-- The first fragment begins. `encode` is `json.Marshal`.
unfoldable pub begin_media : (Metadata → Option Bytes) → Bytes → Bytes → Reader → Reader × Reading
begin_media encode mode content r =
    elim (Option.bind (metadata_from_init r.init_segment mode) encode) [
      | none ↦ (r, breaks)
      | some encoded ↦ (
        record r { ready = true; fragment = r.fragment ++ content },
        makes_ready encoded r.init_segment,
      )
    ]

unfoldable pub on_media : Bytes → Bytes → Reader → Reader × Reading
on_media kind content r =
    if bytes_eq kind (codes "moof")
    then (record r { fragment = r.prefix ++ content; prefix = [] }, quiet)
    else if bytes_eq kind (codes "mdat")
    then (if is_nil r.fragment
        then (r, quiet)
        else (record r { fragment = [] }, sends (r.fragment ++ content)))
    else if is_nil r.fragment
    then (record r { prefix = r.prefix ++ content }, quiet)
    else (record r { fragment = r.fragment ++ content }, quiet)

-- One turn of the loop in `readMP4`.
unfoldable pub on_box :
    (Metadata → Option Bytes) → Bytes → Bytes → Bytes → Reader → Reader × Reading
on_box encode mode kind content r =
    if r.ready
    then on_media kind content r
    else if bytes_eq kind (codes "moof")
    then begin_media encode mode content r
    else (record r { init_segment = r.init_segment ++ content }, quiet)

unfoldable pub redact_url : Bytes → Bytes
redact_url value = elim (index (codes "@") value) as (λ _. Bytes) [
  | none ↦ value
  | some at ↦ elim (last_index (codes "://") (take at value)) as (λ _. Bytes) [
    | none ↦ value
    | some scheme ↦ take (scheme + 3) value ++ codes "***:***" ++ drop at value
  ]
]
