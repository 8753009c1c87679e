-- ===== src/Livestream/Manager.antt =====
-- internal/livestream/manager.go: the streams of the cameras and their viewers. A critical section is
-- one step; what a goroutine still does behind one is a task, and tasks run in any order. Streams
-- stay in a heap and are named by their place in it.
use fragata.Base.{
  ℕ, ◌+◌, ◌-◌, Bool, true, false, ◌||◌, ℤ, pos, pos_part, lt_int, List, [], ◌∷◌, ◌++◌, Bytes,
  bytes_eq, Option, none, some, Table, lookup, insert, delete, length, get_elem?, ltb, leb,
  if◌then◌else◌, set,
}
use fragata.Hub.{is_nil}
use fragata.Livestream.Reader.{Reader, new_reader}

pub record Source : Type 0 where
  pub id : Bytes
  pub url : Bytes
  pub video_codec : Bytes

pub data FrameKind : Type 0 where
  metadata_frame init_frame media_frame error_frame : FrameKind

pub record Frame : Type 0 where
  pub kind : FrameKind
  pub content : Bytes

-- A viewer and the frames in its channel. `is_closing` is a `close` that has entered the `once` and
-- waits for the stream's lock.
pub record Subscriber : Type 0 where
  pub id : ℕ
  pub frames : List Frame
  pub is_closing : Bool

-- `reader` has the variables of the goroutine that reads FFmpeg's output, and `ended` are the subscribers whose channel is closed; leaving the map uses up their `once`.
pub record Stream : Type 0 where
  pub source : Source
  pub subscribers : List Subscriber
  pub ended : List Subscriber
  pub metadata : Bytes
  pub init_segment : Bytes
  pub ready : Bool
  pub stopped : Bool
  pub idle_timer : Bool
  pub reader : Reader

-- What a goroutine does next: the second part of `Subscribe`, `releaseViewers`, the same before
-- `removeStream` at the end of `fail`, and `removeStream`.
pub data Task : Type 0 where
  joining : ℕ → ℕ → Task
  releasing : ℕ → Task
  failing : ℕ → ℕ → Task
  removing : ℕ → Task

pub record Manager : Type 0 where
  pub ffmpeg_path : Bytes
  pub max_viewers : ℕ
  pub max_streams : ℕ
  pub streams : Table ℕ
  pub viewers : ℕ
  pub active : ℕ
  pub heap : List Stream
  pub tasks : List Task
  pub next_id : ℕ

pub data LiveError : Type 0 where
  no_ffmpeg incomplete_source too_many_viewers too_many_streams : LiveError

-- What a call of `Subscribe` meets in its first part; one that waits does so for ever.
pub data Reply : Type 0 where
  accepted waits : Reply
  rejected : LiveError → Reply

abbrev at_least_one : ℤ → ℕ
at_least_one n = if lt_int n (pos 1) then 1 else pos_part n

-- `New`; the path is trimmed by its caller in the model, and the idle time has no place in it, since a
-- timer may fire at any time.
unfoldable pub new_manager : Bytes → ℤ → ℤ → Manager
new_manager ffmpeg_path max_viewers max_streams = record {
  ffmpeg_path = ffmpeg_path;
  max_viewers = at_least_one max_viewers;
  max_streams = at_least_one max_streams;
  streams = [];
  viewers = 0;
  active = 0;
  heap = [];
  tasks = [];
  next_id = 0;
}

-- A send that does not wait, to a channel of 8.
abbrev pub try_send : Frame → Subscriber → Option Subscriber
try_send f sub =
    if ltb (length sub.frames) 8 then some (record sub { frames = sub.frames ++ f ∷ [] }) else none

-- The last message to a subscriber whose channel is then closed.
abbrev tell : Frame → Subscriber → Subscriber
tell f sub = elim (try_send f sub) [ none ↦ sub | some told ↦ told ]

unfoldable pub tell_all : Frame → List Subscriber → List Subscriber
tell_all f [] = []
tell_all f (sub ∷ subs) = tell f sub ∷ tell_all f subs

abbrev pub put_stream : ℕ → Stream → Manager → Manager
put_stream n s m = record m { heap = set m.heap n s }

abbrev pub add_task : Task → Manager → Manager
add_task t m = record m { tasks = m.tasks ++ t ∷ [] }

-- A stream that stops, with all its subscribers told and their channels closed.
abbrev pub stopped_stream : Bytes → Stream → Stream
stopped_stream reason s = record s {
  stopped = true;
  subscribers = [];
  ended = s.ended ++ tell_all (record { kind = error_frame; content = reason }) s.subscribers;
}

-- Whether a `once` of these subscribers is entered. The holder of the stream's lock who calls it then
-- waits for a `close` that waits for this lock.
unfoldable pub any_closing : List Subscriber → Bool
any_closing [] = false
any_closing (sub ∷ subs) = sub.is_closing || any_closing subs

-- `stopLockedByManager`; `none` is a `once` that it waits for with both locks held.
unfoldable pub stop_locked : Bytes → ℕ → Stream → Manager → Option Manager
stop_locked reason n s m =
    if s.stopped
    then some m
    else if any_closing s.subscribers
    then none
    else some (record (put_stream n (stopped_stream reason s) m) {
      viewers = m.viewers - length s.subscribers;
      streams = delete s.source.id m.streams;
      active = m.active - 1;
    })

-- The first part of `Subscribe` on a stream: the viewer is counted before it joins.
abbrev pub count_viewer : ℕ → Manager → Manager
count_viewer n m = record (add_task (joining n m.next_id) m) {
  viewers = m.viewers + 1;
  next_id = m.next_id + 1;
}

abbrev pub new_stream : Source → Stream
new_stream source = record {
  source = source;
  subscribers = [];
  ended = [];
  metadata = [];
  init_segment = [];
  ready = false;
  stopped = false;
  idle_timer = false;
  reader = new_reader;
}

abbrev pub with_new_stream : Source → Manager → Manager
with_new_stream source m = record m {
  heap = m.heap ++ new_stream source ∷ [];
  streams = insert source.id (length m.heap) m.streams;
  active = m.active + 1;
}

unfoldable pub start_stream : Source → Manager → Manager × Reply
start_stream source m =
    let n = length m.heap in
    if leb m.max_streams m.active
    then (m, rejected too_many_streams)
    else (count_viewer n (with_new_stream source m), accepted)

-- The stream at hand is used, or stopped where the camera has another address now.
unfoldable pub use_stream : Bytes → Source → ℕ → Stream → Manager → Manager × Reply
use_stream reason source n s m =
    let restarted : Manager × Reply = elim (stop_locked reason n s m) [
      | none ↦ (m, waits)
      | some m' ↦ start_stream source m'
    ] in
    if bytes_eq s.source.url source.url then (count_viewer n m, accepted) else restarted

-- The first part of `Subscribe`, under the manager's lock. Texts are trimmed by the caller.
unfoldable pub subscribe : Bytes → Source → Manager → Manager × Reply
subscribe reason source m =
    let found : Option ℕ = lookup source.id m.streams in
    let chosen : Manager × Reply = elim found [
      | none ↦ start_stream source m
      | some n ↦ elim (get_elem? m.heap n) as (λ _. Manager × Reply) [
        | none ↦ start_stream source m
        | some s ↦ use_stream reason source n s m
      ]
    ] in
    if is_nil m.ffmpeg_path
    then (m, rejected no_ffmpeg)
    else if is_nil source.id || is_nil source.url
    then (m, rejected incomplete_source)
    else if leb m.max_viewers m.viewers
    then (m, rejected too_many_viewers)
    else chosen
