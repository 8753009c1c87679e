-- ===== src/Livestream/Flow.antt =====
-- internal/livestream/manager.go: a run has a last state, or comes to a step that waits for ever while a
-- viewer's close is under way.
use mathlib.Core.Option
use fragata.Base.{
  ℕ, ◌≡◌, ◌⊎◌, ap, refl, subst, inl, inr, ◌++◌, not, ◌||◌, List, [], ◌∷◌, Option, none, some,
  lookup, get_elem?, ◌==◌, remove_at, All, All-get_elem?, All-append, split_if, split_option,
}
use fragata.Hub.{is_nil}
use fragata.Livestream.Reader.{on_box, ffmpeg_mode}
use fragata.Livestream.Manager.{
  Subscriber, Stream, Task, joining, releasing, failing, removing, Manager, Reply, accepted,
  rejected, waits, any_closing,
}
use fragata.Livestream.Sessions.{
  send_start, join, release_viewers, remove_stream, leave, close_subscriber, stop_if_idle, fail,
  receive_frame, Event, closing, receiving, idle, arriving, breaking, Action, subscribing,
  proceeding, happening, Environment, on_arrival, on_event, run_task, step, run, replied,
  enter_close, entering,
}
use fragata.Livestream.Empty.{
  IsEmpty, IsFlowing, AllFlow, Flows, put_stream-AllFlow, subscribe-AllFlow, on_box-Fits,
  when_running, on_reading-Flows, IsHindered, HasHindered, Replies, Flows-weaken,
}

-- The others are as empty as all were.
LeavesEmpty : Option (Subscriber × List Subscriber) → Type 0
LeavesEmpty none = Unit
LeavesEmpty (some (sub, others)) = All IsEmpty others

leave-LeavesEmpty :
    (id : ℕ) (subs : List Subscriber) → All IsEmpty subs → LeavesEmpty (leave id subs)
unfolding leave LeavesEmpty
leave-LeavesEmpty id [] all = tt
leave-LeavesEmpty id (x ∷ subs) all =
    split_if LeavesEmpty (x.id == id) _ _ (λ e. all.1)
      (λ e. behind (leave id subs) (leave-LeavesEmpty id subs all.1))
  where
    behind :
        (o : Option (Subscriber × List Subscriber))
        → LeavesEmpty o
        → LeavesEmpty (Option.map (λ found. (found.0, x ∷ found.1)) o)
    behind none h = tt
    behind (some found) h = (all.0, h)

receive_frame-IsEmpty :
    (id : ℕ) (subs : List Subscriber) → All IsEmpty subs → All IsEmpty (receive_frame id subs)
unfolding receive_frame
receive_frame-IsEmpty id [] all = tt
receive_frame-IsEmpty id (x ∷ subs) all =
    split_if (All IsEmpty) (x.id == id) _ _ (λ e. (rw all.0 all.0, all.1))
      (λ e. (all.0, receive_frame-IsEmpty id subs all.1))

enter_close-IsEmpty :
    (id : ℕ) (subs : List Subscriber) → All IsEmpty subs → All IsEmpty (enter_close id subs)
unfolding enter_close
enter_close-IsEmpty id [] all = tt
enter_close-IsEmpty id (x ∷ subs) all =
    split_if (All IsEmpty) (x.id == id) _ _ (λ e. all)
      (λ e. (all.0, enter_close-IsEmpty id subs all.1))

close_subscriber-AllFlow :
    (n id : ℕ) (s : Stream) (m : Manager)
    → AllFlow m
    → IsFlowing s
    → AllFlow (close_subscriber n id s m)
unfolding close_subscriber LeavesEmpty
close_subscriber-AllFlow n id s m all h =
    split_option AllFlow (leave id s.subscribers) _ _ (λ e. all)
      (λ left e. put_stream-AllFlow n _ m all (elim h [
        | inl stopped ↦ inl stopped
        | inr run ↦
            inr (run.0, λ r. subst LeavesEmpty e (leave-LeavesEmpty id s.subscribers (run.1 r)))
      ]))

on_event-Flows :
    (env : Environment) (e : Event) (n : ℕ) (s : Stream) (m : Manager)
    → AllFlow m
    → IsFlowing s
    → Flows (IsHindered s) (on_event env e n s m)
unfolding Flows on_event stop_if_idle fail on_arrival
on_event-Flows env (entering id) n s m all h = put_stream-AllFlow n _ m all (elim h [
  | inl stopped ↦ inl stopped
  | inr run ↦ inr (run.0, λ r. enter_close-IsEmpty id s.subscribers (run.1 r))
])
on_event-Flows env (closing id) n s m all h = close_subscriber-AllFlow n id s m all h
on_event-Flows env (receiving id) n s m all h = put_stream-AllFlow n _ m all (elim h [
  | inl stopped ↦ inl stopped
  | inr run ↦ inr (run.0, λ r. receive_frame-IsEmpty id s.subscribers (run.1 r))
])
on_event-Flows env idle n s m all h =
    split_if AllFlow (not (is_nil s.subscribers) || s.stopped) _ _ (λ e. all)
      (λ e. put_stream-AllFlow n _ m all (inl refl))
on_event-Flows env (arriving kind content) n s m all h =
    on_reading-Flows env
      (on_box env.encode (ffmpeg_mode s.source.video_codec) kind content s.reader) n s m all h
      (on_box-Fits env.encode (ffmpeg_mode s.source.video_codec) kind content s.reader)
on_event-Flows env (breaking message) n s m all h =
    split_if (Flows (IsHindered s)) s.stopped _ _ (λ e. all)
      (λ e.
        split_if (Flows (IsHindered s)) (any_closing s.subscribers) _ _ (λ e. e)
          (λ e. put_stream-AllFlow n _ m all (inl refl)))

join-Flows :
    (n id : ℕ) (s : Stream) (m : Manager) → AllFlow m → IsFlowing s → Flows ⊥ (join n id s m)
unfolding Flows join send_start
join-Flows n id s m all h =
    split_if (Flows ⊥) s.stopped _ _ (λ stopped. all)
      (λ stopped.
        let run = when_running s h stopped in
        split_if (Flows ⊥) s.ready _ _
          (λ ready. put_stream-AllFlow n _ m all (inr (run.0, λ e. absurd (cc))))
          (λ ready.
            put_stream-AllFlow n _ m all
              (inr (run.0, λ e. All-append IsEmpty s.subscribers _ (run.1 e) (refl, tt)))))

remove_stream-AllFlow :
    (n : ℕ) (s : Stream) (m : Manager) → AllFlow m → AllFlow (remove_stream n s m)
unfolding remove_stream
remove_stream-AllFlow n s m all =
    split_option AllFlow (lookup s.source.id m.streams) _ _ (λ e. all)
      (λ k e. split_if AllFlow (k == n) _ _ (λ e. all) (λ e. all))

run_task-Flows : (t : Task) (m : Manager) → AllFlow m → Flows ⊥ (run_task t m)
unfolding Flows run_task release_viewers
run_task-Flows (joining n id) m all =
    split_option (Flows ⊥) (get_elem? m.heap n) _ _ (λ e. all)
      (λ s found. join-Flows n id s m all (All-get_elem? IsFlowing m.heap n s all found))
run_task-Flows (releasing count) m all = all
run_task-Flows (failing count n) m all = all
run_task-Flows (removing n) m all =
    split_option AllFlow (get_elem? m.heap n) _ _ (λ e. all)
      (λ s found. remove_stream-AllFlow n s m all)

replied-Flows :
    (m : Manager) (r : Manager × Reply) → Replies m r → Flows (HasHindered m) (replied r)
unfolding replied Replies Flows
replied-Flows m (m', accepted) h = h
replied-Flows m (m', rejected e) h = h
replied-Flows m (m', waits) h = h

pub step-Flows :
    (env : Environment) (a : Action) (m : Manager)
    → AllFlow m
    → Flows (HasHindered m) (step env a m)
unfolding step Flows
step-Flows env (subscribing source) m all =
    replied-Flows m _ (subscribe-AllFlow env.restarted source m all)
step-Flows env (proceeding i) m all =
    split_option (Flows (HasHindered m)) (get_elem? m.tasks i) _ _ (λ e. all)
      (λ t found.
        Flows-weaken ⊥ (HasHindered m) _ (λ never. absurd never)
          (run_task-Flows t (record m { tasks = remove_at m.tasks i }) all))
step-Flows env (happening n e) m all =
    split_option (Flows (HasHindered m)) (get_elem? m.heap n) _ _ (λ e. all)
      (λ s found.
        Flows-weaken (IsHindered s) (HasHindered m) _ (λ hindered. (n, s, found, hindered))
          (on_event-Flows env e n s m all (All-get_elem? IsFlowing m.heap n s all found)))

-- A run that comes to a step that waits for ever: what came before, the step, and the manager then.
unfoldable pub Stops : Environment → List Action → Manager → Type 0
Stops env actions m =
    (front : List Action) × (a : Action) × (back : List Action) × (m' : Manager) × (actions
      ≡ front ++ a ∷ back)
    × (run env front m ≡ some m')
    × (step env a m' ≡ none)
    × HasHindered m'

-- A run has a last state or stops.
pub run-Flows :
    (env : Environment) (actions : List Action) (m : Manager)
    → AllFlow m
    → ((m' : Manager) × (run env actions m ≡ some m')) ⊎ Stops env actions m
unfolding run Flows Stops
run-Flows env [] m all = inl (m, refl)
run-Flows env (a ∷ actions) m all =
    after (step env a m) refl (step-Flows env a m all) (run-Flows env actions)
  where
    after :
        (o : Option Manager)
        → step env a m ≡ o
        → Flows (HasHindered m) o
        → ((m₁ : Manager)
            → AllFlow m₁
            → ((m' : Manager) × (run env actions m₁ ≡ some m')) ⊎ Stops env actions m₁)
        → ((m' : Manager) × (run env (a ∷ actions) m ≡ some m')) ⊎ Stops env (a ∷ actions) m
    after none e hindered rest = inr ([], a, actions, m, refl, refl, e, hindered)
    after (some m₁) e flows rest = elim (rest m₁ flows) [
      | inl (m', ran) ↦ inl (m', rw (run, e) ran)
      | inr (front, b, back, m', form, ran, stuck, hindered) ↦
          inr (a ∷ front, b, back, m', ap (λ l. a ∷ l) form, rw (run, e) ran, stuck, hindered)
    ]
