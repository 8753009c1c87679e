-- ===== src/Livestream/Active.antt =====
-- internal/livestream/manager.go: the count of the streams.
use mathlib.Core.Option
use fragata.Base.{
  ℕ, ◌+◌, ◌-◌, ◌≤◌, ◌≡◌, refl, inl, inr, true, false, not, ◌||◌, List, [], ◌∷◌, ◌++◌, Bytes, Option,
  none, some, lookup, delete, length, get_elem?, ◌==◌, arith, if◌then◌else◌, get_elem?-set,
  split_if, split_option, Bool-cases,
}
use fragata.Hub.{is_nil}
use fragata.Livestream.Reader.{
  Reading, quiet, makes_ready, sends, breaks, on_box, ffmpeg_mode, redact_url,
}
use fragata.Livestream.Manager.{
  Subscriber, Stream, releasing, failing, removing, Manager, put_stream, stopped_stream,
  any_closing,
}
use fragata.Livestream.Sessions.{
  start_all, send_start, join, remove_stream, leave, close_subscriber, stop_if_idle, set_ready,
  broadcast, fail, Event, entering, closing, receiving, idle, arriving, breaking, Environment,
  with_reader, on_reading, on_arrival, on_event, with_stream,
}
use fragata.Livestream.Held.{
  leaving, held, lost, IsBalanced, BalancedIfAny, keep-IsBalanced, add_task-IsBalanced,
  stop-IsBalanced,
}

-- A removal counts one off, or is lost.
pub remove_stream-IsBalanced :
    (l n : ℕ) (m : Manager)
    → (m.active ≡ held m + 1 + l) × (m.active ≤ m.max_streams)
    → IsBalanced (l + lost (removing n) m) (with_stream n m m (λ s. remove_stream n s m))
unfolding remove_stream lost held
remove_stream-IsBalanced l n m c = for_stream (get_elem? m.heap n)
  where
    for_number :
        (s : Stream) (o : Option ℕ)
        → IsBalanced
            (l + elim o as (λ _. ℕ) [ none ↦ 1 | some k ↦ if k == n then 0 else 1 ])
            (elim o as (λ _. Manager) [
              | none ↦ m
              | some k ↦
                  if k == n
                  then record m { streams = delete s.source.id m.streams; active = m.active - 1 }
                  else m
            ])
    for_number s none = (omega (arith, c.0), c.1)
    for_number s (some k) = elim (Bool-cases (k == n)) [
      | inl same ↦ rw same (omega (arith, c.0), omega (arith, c.1))
      | inr other ↦ rw other (omega (arith, c.0), c.1)
    ]

    for_stream :
        (o : Option Stream)
        → IsBalanced
            (l + elim o as (λ _. ℕ) [
              | none ↦ 1
              | some s ↦ elim (lookup s.source.id m.streams) as (λ _. ℕ) [
                | none ↦ 1
                | some k ↦ if k == n then 0 else 1
              ]
            ])
            (elim o as (λ _. Manager) [ none ↦ m | some s ↦ remove_stream n s m ])
    for_stream none = (omega (arith, c.0), c.1)
    for_stream (some s) = for_number s (lookup s.source.id m.streams)

pub join-IsBalanced :
    (l n id : ℕ) (s : Stream) (m : Manager)
    → get_elem? m.heap n ≡ some s
    → IsBalanced l m
    → BalancedIfAny l (join n id s m)
unfolding join leaving
join-IsBalanced l n id s m h c =
    split_if (BalancedIfAny l) s.stopped _ _ (λ e. add_task-IsBalanced l (releasing 1) m refl c)
      (λ e.
        split_if (BalancedIfAny l) s.ready _ _
          (λ ready. started (
            send_start s.metadata s.init_segment
              (record { id = id; frames = []; is_closing = false })))
          (λ ready. joined (record { id = id; frames = []; is_closing = false })))
  where
    to_stream : Subscriber → Manager
    to_stream sub =
        put_stream n (record s { subscribers = s.subscribers ++ sub ∷ []; idle_timer = false }) m

    joined : (sub : Subscriber) → IsBalanced l (to_stream sub)
    joined sub = keep-IsBalanced l n s _ m h refl c

    started : (o : Option Subscriber) → BalancedIfAny l (Option.map to_stream o)
    started none = tt
    started (some sub) = joined sub

set_ready-IsBalanced :
    (l : ℕ) (metadata init_segment : Bytes) (n : ℕ) (s : Stream) (m : Manager)
    → get_elem? m.heap n ≡ some s
    → IsBalanced l m
    → BalancedIfAny l (set_ready metadata init_segment n s m)
unfolding set_ready
set_ready-IsBalanced l metadata init_segment n s m h c =
    split_if (BalancedIfAny l) s.stopped _ _ (λ e. c)
      (λ e. started (start_all metadata init_segment s.subscribers))
  where
    started :
        (o : Option (List Subscriber))
        → BalancedIfAny l (
            Option.map
              (λ subs.
                put_stream n
                  (record s {
                    metadata = metadata;
                    init_segment = init_segment;
                    ready = true;
                    subscribers = subs;
                  })
                  m)
              o)
    started none = tt
    started (some subs) = keep-IsBalanced l n s _ m h refl c

fail-IsBalanced :
    (l : ℕ) (message : Bytes) (n : ℕ) (s : Stream) (m : Manager)
    → get_elem? m.heap n ≡ some s
    → IsBalanced l m
    → BalancedIfAny l (fail message n s m)
unfolding fail leaving
fail-IsBalanced l message n s m h c =
    split_if (BalancedIfAny l) s.stopped _ _ (λ e. c)
      (λ going.
        split_if (BalancedIfAny l) (any_closing s.subscribers) _ _ (λ e. tt)
          (λ e.
            stop-IsBalanced l n (failing (length s.subscribers) n) s
              (stopped_stream (redact_url message) s) m h going refl refl c))

on_reading-IsBalanced :
    (l : ℕ) (env : Environment) (r : Reading) (n : ℕ) (s : Stream) (m : Manager)
    → get_elem? m.heap n ≡ some s
    → IsBalanced l m
    → BalancedIfAny l (on_reading env r n s m)
unfolding on_reading broadcast leaving
on_reading-IsBalanced l env quiet n s m h c = c
on_reading-IsBalanced l env (makes_ready metadata init_segment) n s m h c =
    set_ready-IsBalanced l metadata init_segment n s m h c
on_reading-IsBalanced l env (sends content) n s m h c =
    split_if (BalancedIfAny l) s.stopped _ _ (λ e. c)
      (λ e.
        split_if (BalancedIfAny l) (any_closing _) _ _ (λ e. tt)
          (λ e. add_task-IsBalanced l _ _ refl (keep-IsBalanced l n s _ m h refl c)))
on_reading-IsBalanced l env breaks n s m h c = fail-IsBalanced l env.no_metadata n s m h c

pub on_event-IsBalanced :
    (l : ℕ) (env : Environment) (e : Event) (n : ℕ) (s : Stream) (m : Manager)
    → get_elem? m.heap n ≡ some s
    → IsBalanced l m
    → BalancedIfAny l (on_event env e n s m)
unfolding on_event close_subscriber stop_if_idle on_arrival leaving
on_event-IsBalanced l env (entering id) n s m h c = keep-IsBalanced l n s _ m h refl c
on_event-IsBalanced l env (closing id) n s m h c =
    split_option (IsBalanced l) (leave id s.subscribers) _ _ (λ e. c)
      (λ left e. add_task-IsBalanced l (releasing 1) _ refl (keep-IsBalanced l n s _ m h refl c))
on_event-IsBalanced l env (receiving id) n s m h c = keep-IsBalanced l n s _ m h refl c
on_event-IsBalanced l env idle n s m h c =
    split_if (IsBalanced l) (not (is_nil s.subscribers) || s.stopped) _ _ (λ e. c)
      (λ e. stop-IsBalanced l n (removing n) s _ m h (ground (arith, e)) refl refl c)
on_event-IsBalanced l env (arriving kind content) n s m h c =
    let read = on_box env.encode (ffmpeg_mode s.source.video_codec) kind content s.reader in
    let s' = with_reader read.0 s in
    on_reading-IsBalanced l env read.1 n s' (put_stream n s' m) (get_elem?-set m.heap n s s' h)
      (keep-IsBalanced l n s s' m h refl c)
on_event-IsBalanced l env (breaking message) n s m h c = fail-IsBalanced l message n s m h c
