-- ===== src/Livestream/Sessions.antt =====
-- internal/livestream/manager.go: what happens to a stream once it has started, and the runs of the
-- whole manager.
use mathlib.Core.Option
use fragata.Base.{
  ℕ, ◌-◌, true, false, not, ◌&&◌, ◌||◌, List, [], ◌∷◌, ◌++◌, Bytes, Option, none, some, lookup,
  delete, length, get_elem?, ◌==◌, if◌then◌else◌, remove_at,
}
use fragata.Hub.{is_nil}
use fragata.Livestream.Reader.{
  Metadata, Reader, Reading, quiet, makes_ready, sends, breaks, on_box, ffmpeg_mode, redact_url,
}
use fragata.Livestream.Manager.{
  Source, metadata_frame, init_frame, media_frame, error_frame, Frame, Subscriber, Stream, Task,
  joining, releasing, failing, removing, Manager, try_send, tell_all, put_stream, add_task,
  stopped_stream, subscribe, any_closing, Reply, accepted, rejected, waits,
}

-- The two frames that a viewer starts with; `none` is a send that waits with the stream's lock held.
unfoldable pub send_start : Bytes → Bytes → Subscriber → Option Subscriber
send_start metadata init_segment sub =
    elim (try_send (record { kind = metadata_frame; content = metadata }) sub) [
      | none ↦ none
      | some told ↦ try_send (record { kind = init_frame; content = init_segment }) told
    ]

unfoldable pub start_all : Bytes → Bytes → List Subscriber → Option (List Subscriber)
start_all metadata init_segment [] = some []
start_all metadata init_segment (sub ∷ subs) =
    let rest = start_all metadata init_segment subs in
    elim (send_start metadata init_segment sub) [
      | none ↦ none
      | some started ↦ Option.map (λ others. started ∷ others) rest
    ]

-- The second part of `Subscribe`, under the stream's lock.
unfoldable pub join : ℕ → ℕ → Stream → Manager → Option Manager
join n id s m =
    let fresh : Subscriber = record { id = id; frames = []; is_closing = false } in
    let joined : Subscriber → Manager = λ sub.
      put_stream n (record s { subscribers = s.subscribers ++ sub ∷ []; idle_timer = false }) m in
    if s.stopped
    then some (add_task (releasing 1) m)
    else if s.ready
    then Option.map joined (send_start s.metadata s.init_segment fresh)
    else some (joined fresh)

-- `releaseViewers`.
unfoldable pub release_viewers : ℕ → Manager → Manager
release_viewers count m = record m { viewers = m.viewers - count }

unfoldable pub remove_stream : ℕ → Stream → Manager → Manager
remove_stream n s m =
    let current : Option ℕ = lookup s.source.id m.streams in
    elim current [
      | none ↦ m
      | some k ↦
          if k == n
          then record m { streams = delete s.source.id m.streams; active = m.active - 1 }
          else m
    ]

-- The subscriber with this number, and the others.
unfoldable pub leave : ℕ → List Subscriber → Option (Subscriber × List Subscriber)
leave id [] = none
leave id (sub ∷ subs) =
    let rest = Option.map (λ found. (found.0, sub ∷ found.1)) (leave id subs) in
    if sub.id == id then some (sub, subs) else rest

-- The first part of `subscriber.close`, where it enters the `once` and the stream's lock is taken.
unfoldable pub enter_close : ℕ → List Subscriber → List Subscriber
enter_close id [] = []
enter_close id (sub ∷ subs) =
    let rest = enter_close id subs in
    if sub.id == id then record sub { is_closing = true } ∷ subs else sub ∷ rest

-- The rest of `subscriber.close`, or the whole where the lock is free: its first call leaves the
-- stream, and the others do nothing.
unfoldable pub close_subscriber : ℕ → ℕ → Stream → Manager → Manager
close_subscriber n id s m = elim (leave id s.subscribers) [
  | none ↦ m
  | some (sub, others) ↦ add_task (releasing 1) (
      put_stream n
        (record s {
          subscribers = others;
          ended = s.ended ++ sub ∷ [];
          idle_timer = s.idle_timer || (is_nil others && not s.stopped);
        })
        m)
]

-- `stopIfIdle`, which a timer runs.
unfoldable pub stop_if_idle : ℕ → Stream → Manager → Manager
stop_if_idle n s m =
    if not (is_nil s.subscribers) || s.stopped
    then m
    else add_task (removing n) (put_stream n (record s { stopped = true }) m)

unfoldable pub set_ready : Bytes → Bytes → ℕ → Stream → Manager → Option Manager
set_ready metadata init_segment n s m =
    if s.stopped
    then some m
    else Option.map
        (λ subs.
          put_stream n
            (record s {
              metadata = metadata;
              init_segment = init_segment;
              ready = true;
              subscribers = subs;
            })
            m)
        (start_all metadata init_segment s.subscribers)

-- The subscribers that have room for a frame, with it, and those that have not.
unfoldable pub push_all : Frame → List Subscriber → List Subscriber × List Subscriber
push_all f [] = ([], [])
push_all f (sub ∷ subs) =
    let rest = push_all f subs in
    elim (try_send f sub) [ none ↦ (rest.0, sub ∷ rest.1) | some told ↦ (told ∷ rest.0, rest.1) ]

-- `none`, here and in `fail`, is a `once` that is waited for with the stream's lock held.
unfoldable pub broadcast : Bytes → Bytes → ℕ → Stream → Manager → Option Manager
broadcast too_slow content n s m =
    let pushed = push_all (record { kind = media_frame; content = content }) s.subscribers in
    if s.stopped
    then some m
    else if any_closing pushed.1
    then none
    else some (
        add_task (releasing (length pushed.1)) (
          put_stream n
            (record s {
              subscribers = pushed.0;
              ended =
                  s.ended ++ tell_all (record { kind = error_frame; content = too_slow }) pushed.1;
              idle_timer = s.idle_timer || is_nil pushed.0;
            })
            m))

unfoldable pub fail : Bytes → ℕ → Stream → Manager → Option Manager
fail message n s m =
    if s.stopped
    then some m
    else if any_closing s.subscribers
    then none
    else some (
        add_task (failing (length s.subscribers) n)
          (put_stream n (stopped_stream (redact_url message) s) m))

unfoldable pub viewer_count : Bytes → Manager → ℕ
viewer_count id m =
    let found : Option ℕ = lookup id m.streams in
    let counted : ℕ = elim found [
      | none ↦ 0
      | some n ↦ elim (get_elem? m.heap n) [ none ↦ 0 | some s ↦ length s.subscribers ]
    ] in
    if is_nil id then 0 else counted

-- The viewer's receive.
unfoldable pub receive_frame : ℕ → List Subscriber → List Subscriber
receive_frame id [] = []
receive_frame id (sub ∷ subs) =
    let received = elim sub.frames as (λ _. Subscriber) [
      | [] ↦ sub
      | f ∷ rest ↦ record sub { frames = rest }
    ] in
    if sub.id == id then received ∷ subs else sub ∷ receive_frame id subs

-- What a viewer, a timer, or FFmpeg does to a stream.
pub data Event : Type 0 where
  entering : ℕ → Event
  closing : ℕ → Event
  receiving : ℕ → Event
  idle : Event
  arriving : Bytes → Bytes → Event
  breaking : Bytes → Event

pub data Action : Type 0 where
  subscribing : Source → Action
  proceeding : ℕ → Action
  happening : ℕ → Event → Action

-- `json.Marshal`, and the messages of the source.
pub record Environment : Type 0 where
  pub encode : Metadata → Option Bytes
  pub restarted : Bytes
  pub too_slow : Bytes
  pub no_metadata : Bytes

abbrev pub with_reader : Reader → Stream → Stream
with_reader r s = record s { reader = r }

unfoldable pub on_reading : Environment → Reading → ℕ → Stream → Manager → Option Manager
on_reading env quiet n s m = some m
on_reading env (makes_ready metadata init_segment) n s m = set_ready metadata init_segment n s m
on_reading env (sends content) n s m = broadcast env.too_slow content n s m
on_reading env breaks n s m = fail env.no_metadata n s m

-- `readMP4` with the next box.
unfoldable pub on_arrival : Environment → Bytes → Bytes → ℕ → Stream → Manager → Option Manager
on_arrival env kind content n s m =
    let read = on_box env.encode (ffmpeg_mode s.source.video_codec) kind content s.reader in
    let s' = with_reader read.0 s in on_reading env read.1 n s' (put_stream n s' m)

unfoldable pub on_event : Environment → Event → ℕ → Stream → Manager → Option Manager
on_event env (entering id) n s m =
    some (put_stream n (record s { subscribers = enter_close id s.subscribers }) m)
on_event env (closing id) n s m = some (close_subscriber n id s m)
on_event env (receiving id) n s m =
    some (put_stream n (record s { subscribers = receive_frame id s.subscribers }) m)
on_event env idle n s m = some (stop_if_idle n s m)
on_event env (arriving kind content) n s m = on_arrival env kind content n s m
on_event env (breaking message) n s m = fail message n s m

-- On the stream with this number. There is always one in a run; where there is none, a viewer that
-- joins meets the same as at a stopped stream, and nothing else happens.
abbrev pub with_stream : {A : Type 0} → ℕ → Manager → A → (Stream → A) → A
with_stream {A} n m absent f = elim (get_elem? m.heap n) as (λ _. A) [
  | none ↦ absent
  | some s ↦ f s
]

unfoldable pub run_task : Task → Manager → Option Manager
run_task (joining n id) m = with_stream n m (some (add_task (releasing 1) m)) (λ s. join n id s m)
run_task (releasing count) m = some (release_viewers count m)
run_task (failing count n) m = some (add_task (removing n) (release_viewers count m))
run_task (removing n) m = some (with_stream n m m (λ s. remove_stream n s m))

-- The manager after the first part of `Subscribe`, if it comes to an end.
unfoldable pub replied : Manager × Reply → Option Manager
replied (m, accepted) = some m
replied (m, rejected e) = some m
replied (m, waits) = none

-- `none` is a send or a `once` that waits for ever with the stream's lock held.
unfoldable pub step : Environment → Action → Manager → Option Manager
step env (subscribing source) m = replied (subscribe env.restarted source m)
step env (proceeding i) m = elim (get_elem? m.tasks i) as (λ _. Option Manager) [
  | none ↦ some m
  | some t ↦ run_task t (record m { tasks = remove_at m.tasks i })
]
step env (happening n e) m = with_stream n m (some m) (λ s. on_event env e n s m)

unfoldable pub run : Environment → List Action → Manager → Option Manager
run env [] m = some m
run env (a ∷ actions) m = elim (step env a m) [ none ↦ none | some m' ↦ run env actions m' ]
