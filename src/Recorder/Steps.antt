-- ===== src/Recorder/Steps.antt =====
-- internal/recording/recorder.go: `Run` as steps, one for each case of its `select`. The queue to the
-- finalizer is the list of all requests made, since its capacity only delays the recorder.
use fragata.Base.{
  ℕ, ◌+◌, Bool, true, false, not, ◌&&◌, ◌||◌, ℤ, pos, pos_part, lt_int, List, [], ◌∷◌, ◌++◌, Option,
  none, some, ltb, leb, ◌==◌, length, if◌then◌else◌,
}
use mathlib.Core.Option
use fragata.Hub.Operations.{subscribe_access_units, subscribe_audio}
use fragata.Hub.{Hub, Info, AccessUnit, AudioPacket}
use fragata.Matroska.Ebml.{Outcome, ok, err, panicked}
use fragata.Matroska.Writer.{Writer, write_access_unit, write_audio, is_h264, is_h265, close}
use fragata.Recorder.Segments.{
  Segment, not_rotated, not_written, sound_not_written, Effect, reported, preserved, Opening,
  opened, refused, crashed, Texts, Settings, Moment, with_first, start, announce,
}

-- The recorder while it runs. `requests` are the segments handed to the finalizer, the first first.
pub record Recorder : Type 0 where
  pub current : Option Segment
  pub requests : List (Segment × ℕ)
  pub effects : List Effect
  pub finished : Bool

abbrev pub new_recorder : Recorder
new_recorder = record { current = none; requests = []; effects = []; finished = false }

-- What a case of the `select` receives; `none` is a closed channel.
pub data Input (P : Type 0) : Type 0 where
  cancelled : Input P
  unit_in : Option AccessUnit → Input P
  sound_in : Option (AudioPacket P) → Input P

abbrev pub with_effects : List Effect → Recorder → Recorder
with_effects effects r = record r { effects = r.effects ++ effects }

-- A segment sent to the finalizer, which is no longer the current one.
abbrev pub request : Moment → Segment → Recorder → Recorder
request m seg r = record r { current = none; requests = r.requests ++ (seg, m.cut_at) ∷ [] }

unfoldable pub cut : Moment → Recorder → Recorder
cut m r = elim r.current [ none ↦ r | some seg ↦ request m seg r ]

unfoldable pub finish_all : Moment → Recorder → Recorder
finish_all m r = record (cut m r) { finished = true }

-- The tests of a generation against the current segment's.
abbrev pub is_end_of : ℕ → Option Segment → Bool
is_end_of generation none = false
is_end_of generation (some seg) = generation == 0 || seg.generation == generation

abbrev pub differ : ℕ → ℕ → Bool
differ generation other = not (generation == 0) && (not (other == 0) && not (other == generation))

abbrev pub is_other : ℕ → Option Segment → Bool
is_other generation none = false
is_other generation (some seg) = differ generation seg.generation

unfoldable pub current_duration : Option ℤ → ℤ → ℤ
current_duration none fixed = fixed
current_duration (some value) fixed = if lt_int (pos 0) value then value else fixed

unfoldable pub ready : Info → Bool
ready info =
    if lt_int info.width (pos 1) || lt_int info.height (pos 1)
    then false
    else if is_h264 info
    then leb 4 (length info.sps) && ltb 0 (length info.pps)
    else if is_h265 info
    then ltb 0 (length info.vps) && (ltb 0 (length info.sps) && ltb 0 (length info.pps))
    else false

-- The first segment of a recording, or one after a break.
unfoldable pub begin_with : Opening → Recorder → Option Recorder
begin_with (opened seg) r =
    let (seg', effects) = announce seg in
    some (with_effects effects (record r { current = some seg' }))
begin_with (refused effects e) r = some (with_effects (effects ++ reported e ∷ []) r)
begin_with crashed r = none

-- `preservePartial`, which closes the writer whatever comes of it.
unfoldable pub preserve : Segment → Outcome (Unit {0}) × Writer → Recorder → Option Recorder
preserve seg (ok _, w) r = some (with_effects (preserved (record seg { writer = w }) ∷ []) r)
preserve seg (err e, w) r = some (with_effects (preserved (record seg { writer = w }) ∷ []) r)
preserve seg (panicked, w) r = none

-- A unit of the current segment. A segment whose write fails is left as its partial file.
unfoldable pub after_write : Segment → Outcome (Unit {0}) × Writer → Recorder → Option Recorder
after_write seg (ok _, w) r = some (record r { current = some (record seg { writer = w }) })
after_write seg (err e, w) r =
    preserve seg (close w)
      (with_effects (reported (not_written e) ∷ []) (record r { current = none }))
after_write seg (panicked, w) r = none

unfoldable pub write_unit : AccessUnit → Segment → Recorder → Option Recorder
write_unit au seg r = after_write seg (write_access_unit au seg.writer) r

-- The next segment is opened and has its first unit before the current one is given up.
unfoldable pub rotate_with : Moment → AccessUnit → Segment → Opening → Recorder → Option Recorder
rotate_with m au seg (opened next) r =
    let (next', effects) = announce next in
    some (record (with_effects effects (request m seg r)) { current = some next' })
rotate_with m au seg (refused effects e) r =
    write_unit au seg (with_effects (effects ++ reported (not_rotated e) ∷ []) r)
rotate_with m au seg crashed r = none

unfoldable pub is_rotation : ℤ → Moment → AccessUnit → Segment → Bool
is_rotation duration m au seg =
    au.key_frame
    && (lt_int (pos 0) duration && leb (seg.started_at + pos_part duration) m.checked_at)

unfoldable pub after_sound : Segment → Outcome (Unit {0}) × Writer → Recorder → Option Recorder
after_sound seg (ok _, w) r = some (record r { current = some (record seg { writer = w }) })
after_sound seg (err e, w) r = some (
    with_effects (reported (sound_not_written e) ∷ [])
      (record r { current = some (record seg { writer = w }) }))
after_sound seg (panicked, w) r = none

module _ {P : Type 0} where
  unfoldable pub take_sound : AudioPacket P → Recorder → Option Recorder
  take_sound packet r = elim r.current [
    | none ↦ some r
    | some seg ↦
        let written = after_sound seg (write_audio packet seg.writer) r in
        if is_other packet.generation (some seg) then some r else written
  ]

  unfoldable pub on_sound : Moment → AudioPacket P → Recorder → Option Recorder
  on_sound m packet r =
      let taken = take_sound packet r in
      if packet.discontinuity
      then some (if is_end_of packet.generation r.current then cut m r else r)
      else taken

module _ (texts : Texts) (float64_bits : ℤ → ℕ) (settings : Settings) where
  unfoldable pub open_with : Moment → AccessUnit → Opening
  open_with m au = with_first au (start texts float64_bits settings m au.generation)

  -- The unit once it is known to be of the current segment's source.
  unfoldable pub take_unit : Moment → AccessUnit → Recorder → Option Recorder
  take_unit m au r = elim r.current [
    | none ↦
        let begun = begin_with (open_with m au) r in
        if not au.key_frame || not (ready m.info) then some r else begun
    | some seg ↦
        let rotated = rotate_with m au seg (open_with m au) r in
        let written = write_unit au seg r in
        if is_rotation (current_duration m.provided settings.segment_duration) m au seg
        then rotated
        else written
  ]

  unfoldable pub on_unit : Moment → AccessUnit → Recorder → Option Recorder
  on_unit m au r =
      let taken = take_unit m au (if is_other au.generation r.current then cut m r else r) in
      if au.discontinuity
      then some (if is_end_of au.generation r.current then cut m r else r)
      else taken

  -- `none` is a panic of the writer.
  unfoldable pub step : {P : Type 0} → Moment → Input P → Recorder → Option Recorder
  step m cancelled r = some (finish_all m r)
  step m (unit_in none) r = some (finish_all m r)
  step m (unit_in (some au)) r = on_unit m au r
  step m (sound_in none) r = some r
  step m (sound_in (some packet)) r = on_sound m packet r

  unfoldable pub run_all : {P : Type 0} → List (Moment × Input P) → Recorder → Option Recorder
  run_all [] r = some r
  run_all ((m, input) ∷ inputs) r =
      let next : Option Recorder = elim (step m input r) [
        | none ↦ none
        | some r' ↦ run_all inputs r'
      ] in
      if r.finished then some r else next

-- The start of `Run`: its two subscriptions, or `none` where it refuses to run or the hub cannot
-- open them.
unfoldable pub subscribe : {P : Type 0} → Settings → Option ℤ → Hub P → Option (Hub P)
subscribe settings provided h =
    let heard =
      Option.map (subscribe_audio (pos 4096) true) (subscribe_access_units (pos 2048) true h) in
    if lt_int (current_duration provided settings.segment_duration) (pos 1) then none else heard
