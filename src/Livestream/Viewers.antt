-- ===== src/Livestream/Viewers.antt =====
-- internal/livestream/manager.go: the count of the viewers.
use mathlib.Core.Option
use fragata.Base.{
  ℤ, ℕ, ◌+◌, ◌≡◌, refl, subst, true, false, not, ◌||◌, List, [], ◌∷◌, ◌++◌, Bytes, Option, none,
  some, lookup, length-append, get_elem?, ◌==◌, arith, remove_at, total-nil, get_elem?-set,
  total-remove_at, split_if, split_option,
}
use fragata.Hub.{is_nil}
use fragata.Livestream.Reader.{Reading, quiet, makes_ready, sends, breaks, on_box, ffmpeg_mode}
use fragata.Livestream.Manager.{
  Subscriber, Stream, Task, joining, releasing, failing, removing, Manager, new_manager, put_stream,
  add_task, any_closing, Reply, accepted, rejected, waits,
}
use fragata.Livestream.Sessions.{
  start_all, send_start, join, release_viewers, remove_stream, leave, close_subscriber,
  stop_if_idle, set_ready, broadcast, fail, Event, closing, receiving, idle, arriving, breaking,
  Action, subscribing, proceeding, happening, Environment, with_reader, on_reading, on_arrival,
  on_event, run_task, step, run, replied, entering,
}
use fragata.Livestream.Subscribers.{
  Leaves, leave-Leaves, Starts, start_all-Starts, length-push_all, length-receive_frame,
  length-enter_close,
}
use fragata.Livestream.Counted.{
  audience, waiting, watched, IsCounted, IsOwed, put_stream-watched, add_task-watched,
  subscribe-IsCounted,
}

-- A change of one stream that keeps its viewers, or hands them to a task.
put_stream-IsCounted :
    (n : ℕ) (s s' : Stream) (m : Manager)
    → get_elem? m.heap n ≡ some s
    → audience s' ≡ audience s
    → IsCounted m
    → IsCounted (put_stream n s' m)
put_stream-IsCounted n s s' m h e c = (omega (arith, c.0, e, put_stream-watched n s s' m h), c.1)

hand_over-IsCounted :
    (t : Task) (n : ℕ) (s s' : Stream) (m : Manager)
    → get_elem? m.heap n ≡ some s
    → audience s' + waiting t ≡ audience s
    → IsCounted m
    → IsCounted (add_task t (put_stream n s' m))
hand_over-IsCounted t n s s' m h e c = (
  omega (arith, c.0, e, put_stream-watched n s s' m h, add_task-watched t (put_stream n s' m)),
  c.1,
)

close_subscriber-IsCounted :
    (n id : ℕ) (s : Stream) (m : Manager)
    → get_elem? m.heap n ≡ some s
    → IsCounted m
    → IsCounted (close_subscriber n id s m)
unfolding close_subscriber waiting
close_subscriber-IsCounted n id s m h c =
    split_option IsCounted (leave id s.subscribers) _ _ (λ e. c)
      (λ left e.
        hand_over-IsCounted (releasing 1) n s _ m h
          (subst (Leaves (audience s)) e (leave-Leaves id s.subscribers)) c)

-- The count is right, unless something waits for ever.
abbrev pub CountedIfAny : Option Manager → Type 0
CountedIfAny none = Unit
CountedIfAny (some m) = IsCounted m

set_ready-IsCounted :
    (metadata init_segment : Bytes) (n : ℕ) (s : Stream) (m : Manager)
    → get_elem? m.heap n ≡ some s
    → IsCounted m
    → CountedIfAny (set_ready metadata init_segment n s m)
unfolding set_ready
set_ready-IsCounted metadata init_segment n s m h c =
    split_if CountedIfAny s.stopped _ _ (λ e. c)
      (λ e.
        started (start_all metadata init_segment s.subscribers)
          (start_all-Starts metadata init_segment s.subscribers))
  where
    started :
        (o : Option (List Subscriber))
        → Starts (audience s) o
        → CountedIfAny (
            Option.map
              (λ subs.
                put_stream n
                  (record s {
                    metadata = metadata;
                    init_segment = init_segment;
                    ready = true;
                    subscribers = subs;
                  })
                  m)
              o)
    started none k = tt
    started (some subs) k = put_stream-IsCounted n s _ m h k c

fail-IsCounted :
    (message : Bytes) (n : ℕ) (s : Stream) (m : Manager)
    → get_elem? m.heap n ≡ some s
    → IsCounted m
    → CountedIfAny (fail message n s m)
unfolding fail waiting
fail-IsCounted message n s m h c =
    split_if CountedIfAny s.stopped _ _ (λ e. c)
      (λ e.
        split_if CountedIfAny (any_closing s.subscribers) _ _ (λ e. tt)
          (λ e. hand_over-IsCounted (failing (audience s) n) n s _ m h (omega arith) c))

on_reading-IsCounted :
    (env : Environment) (r : Reading) (n : ℕ) (s : Stream) (m : Manager)
    → get_elem? m.heap n ≡ some s
    → IsCounted m
    → CountedIfAny (on_reading env r n s m)
unfolding on_reading broadcast fail waiting
on_reading-IsCounted env quiet n s m h c = c
on_reading-IsCounted env (makes_ready metadata init_segment) n s m h c =
    set_ready-IsCounted metadata init_segment n s m h c
on_reading-IsCounted env (sends content) n s m h c =
    split_if CountedIfAny s.stopped _ _ (λ e. c)
      (λ e.
        split_if CountedIfAny (any_closing _) _ _ (λ e. tt)
          (λ e. hand_over-IsCounted _ n s _ m h (length-push_all _ s.subscribers) c))
on_reading-IsCounted env breaks n s m h c = fail-IsCounted env.no_metadata n s m h c

on_event-IsCounted :
    (env : Environment) (e : Event) (n : ℕ) (s : Stream) (m : Manager)
    → get_elem? m.heap n ≡ some s
    → IsCounted m
    → CountedIfAny (on_event env e n s m)
unfolding on_event stop_if_idle waiting on_arrival
on_event-IsCounted env (entering id) n s m h c =
    put_stream-IsCounted n s _ m h (length-enter_close id s.subscribers) c
on_event-IsCounted env (closing id) n s m h c = close_subscriber-IsCounted n id s m h c
on_event-IsCounted env (receiving id) n s m h c =
    put_stream-IsCounted n s _ m h (length-receive_frame id s.subscribers) c
on_event-IsCounted env idle n s m h c =
    split_if IsCounted (not (is_nil s.subscribers) || s.stopped) _ _ (λ e. c)
      (λ e. hand_over-IsCounted (removing n) n s _ m h (omega arith) c)
on_event-IsCounted env (arriving kind content) n s m h c =
    let read = on_box env.encode (ffmpeg_mode s.source.video_codec) kind content s.reader in
    let s' = with_reader read.0 s in
    on_reading-IsCounted env read.1 n s' (put_stream n s' m) (get_elem?-set m.heap n s s' h)
      (put_stream-IsCounted n s s' m h refl c)
on_event-IsCounted env (breaking message) n s m h c = fail-IsCounted message n s m h c

release_viewers-IsCounted : (k : ℕ) (m : Manager) → IsOwed k m → IsCounted (release_viewers k m)
unfolding release_viewers watched
release_viewers-IsCounted k m c = (omega (arith, c.0), omega (arith, c.1))

join-IsCounted :
    (n id : ℕ) (s : Stream) (m : Manager)
    → get_elem? m.heap n ≡ some s
    → IsOwed 1 m
    → CountedIfAny (join n id s m)
unfolding join waiting
join-IsCounted n id s m h c =
    split_if CountedIfAny s.stopped _ _
      (λ e. (omega (arith, c.0, add_task-watched (releasing 1) m), c.1))
      (λ e.
        split_if CountedIfAny s.ready _ _
          (λ ready. started (
            send_start s.metadata s.init_segment
              (record { id = id; frames = []; is_closing = false })))
          (λ ready. joined (record { id = id; frames = []; is_closing = false })))
  where
    to_stream : Subscriber → Manager
    to_stream sub =
        put_stream n (record s { subscribers = s.subscribers ++ sub ∷ []; idle_timer = false }) m

    joined : (sub : Subscriber) → IsCounted (to_stream sub)
    joined sub = (
      omega (
        arith,
        c.0,
        length-append s.subscribers (sub ∷ []),
        put_stream-watched n s
            (record s { subscribers = s.subscribers ++ sub ∷ []; idle_timer = false }) m h,
      ),
      c.1,
    )

    started : (o : Option Subscriber) → CountedIfAny (Option.map to_stream o)
    started none = tt
    started (some sub) = joined sub

remove_stream-IsCounted :
    (n : ℕ) (s : Stream) (m : Manager) → IsCounted m → IsCounted (remove_stream n s m)
unfolding remove_stream watched
remove_stream-IsCounted n s m c =
    split_option IsCounted (lookup s.source.id m.streams) _ _ (λ e. c)
      (λ k e. split_if IsCounted (k == n) _ _ (λ e. c) (λ e. c))

run_task-IsCounted : (t : Task) (m : Manager) → IsOwed (waiting t) m → CountedIfAny (run_task t m)
unfolding run_task waiting
run_task-IsCounted (joining n id) m c =
    split_option CountedIfAny (get_elem? m.heap n) _ _
      (λ e. (omega (arith, c.0, add_task-watched (releasing 1) m), c.1))
      (λ s h. join-IsCounted n id s m h c)
run_task-IsCounted (releasing count) m c = release_viewers-IsCounted count m c
run_task-IsCounted (failing count n) m c =
    let d = release_viewers-IsCounted count m c in
    (omega (arith, d.0, add_task-watched (removing n) (release_viewers count m)), d.1)
run_task-IsCounted (removing n) m c =
    let d : IsCounted m = (omega (arith, c.0), c.1) in
    split_option IsCounted (get_elem? m.heap n) _ _ (λ e. d)
      (λ s h. remove_stream-IsCounted n s m d)

replied-IsCounted : (r : Manager × Reply) → IsCounted r.0 → CountedIfAny (replied r)
unfolding replied
replied-IsCounted (m, accepted) c = c
replied-IsCounted (m, rejected e) c = c
replied-IsCounted (m, waits) c = tt

step-IsCounted :
    (env : Environment) (a : Action) (m : Manager) → IsCounted m → CountedIfAny (step env a m)
unfolding step watched
step-IsCounted env (subscribing source) m c =
    replied-IsCounted _ (subscribe-IsCounted env.restarted source m c)
step-IsCounted env (proceeding i) m c =
    split_option CountedIfAny (get_elem? m.tasks i) _ _ (λ e. c)
      (λ t h.
        run_task-IsCounted t (record m { tasks = remove_at m.tasks i })
          (omega (arith, c.0, total-remove_at waiting m.tasks i t h), c.1))
step-IsCounted env (happening n e) m c =
    split_option CountedIfAny (get_elem? m.heap n) _ _ (λ e. c)
      (λ s h. on_event-IsCounted env e n s m h c)

run-IsCounted :
    (env : Environment) (actions : List Action) (m : Manager)
    → IsCounted m
    → CountedIfAny (run env actions m)
unfolding run
run-IsCounted env [] m c = c
run-IsCounted env (a ∷ actions) m c =
    after (step env a m) (step-IsCounted env a m c) (run-IsCounted env actions)
  where
    after :
        (o : Option Manager)
        → CountedIfAny o
        → ((m' : Manager) → IsCounted m' → CountedIfAny (run env actions m'))
        → CountedIfAny
            (elim o as (λ _. Option Manager) [ none ↦ none | some m' ↦ run env actions m' ])
    after none k rest = tt
    after (some m') k rest = rest m' k

-- From a new manager on, whatever viewers, timers and FFmpeg do and in whatever order: unless a send
-- or a `once` waits for ever, the viewers counted are exactly those in the streams and those that a goroutine
-- has still to count off, and they are never more than the limit.
pub run-viewers :
    (env : Environment) (ffmpeg_path : Bytes) (max_viewers max_streams : ℤ) (actions : List Action)
    → CountedIfAny (run env actions (new_manager ffmpeg_path max_viewers max_streams))
unfolding new_manager watched
run-viewers env ffmpeg_path max_viewers max_streams actions =
    run-IsCounted env actions (new_manager ffmpeg_path max_viewers max_streams)
      (omega (arith, total-nil audience, total-nil waiting), omega arith)
