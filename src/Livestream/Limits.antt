-- ===== src/Livestream/Limits.antt =====
-- internal/livestream/manager.go: the limits of the manager, in every run.
use fragata.Base.{
  ℤ, ℕ, ◌+◌, ◌≤◌, ◌≡◌, ◌⊎◌, inl, inr, ◌++◌, refl, subst, List, [], ◌∷◌, Bytes, Option, none, some,
  get_elem?, arith, remove_at, total-nil, total-remove_at, split_option,
}
use fragata.Livestream.Manager.{
  Task, joining, releasing, failing, removing, Manager, new_manager, Reply, accepted, rejected,
  waits,
}
use fragata.Livestream.Sessions.{
  release_viewers, Action, subscribing, proceeding, happening, Environment, run_task, step, run,
  replied,
}
use fragata.Livestream.Viewers.{CountedIfAny, run-viewers}
use fragata.Livestream.Counted.{watched, IsCounted}
use fragata.Livestream.Flow.{Stops, run-Flows}
use fragata.Livestream.Empty.{HasHindered}
use fragata.Livestream.Active.{remove_stream-IsBalanced, join-IsBalanced, on_event-IsBalanced}
use fragata.Livestream.Held.{
  running, leaving, held, lost, lost_by, lost_in_run, IsBalanced, BalancedIfAny, held-removing,
  add_task-IsBalanced, subscribe-IsBalanced,
}

-- What `proceeding` finds once the task is taken from the list.
IsTaken : ℕ → Task → Manager → Type 0
IsTaken l t m = (m.active ≡ held m + leaving t + l) × (m.active ≤ m.max_streams)

run_task-IsBalanced :
    (l : ℕ) (t : Task) (m : Manager) → IsTaken l t m → BalancedIfAny (l + lost t m) (run_task t m)
unfolding IsTaken run_task release_viewers lost leaving held
run_task-IsBalanced l (joining n id) m c =
    let d : IsBalanced (l + 0) m = (omega (arith, c.0), c.1) in
    split_option (BalancedIfAny (l + 0)) (get_elem? m.heap n) _ _
      (λ e. add_task-IsBalanced (l + 0) (releasing 1) m refl d)
      (λ s h. join-IsBalanced (l + 0) n id s m h d)
run_task-IsBalanced l (releasing count) m c = (omega (arith, c.0), c.1)
run_task-IsBalanced l (failing count n) m c =
    (omega (arith, c.0, held-removing n (release_viewers count m)), c.1)
run_task-IsBalanced l (removing n) m c = remove_stream-IsBalanced l n m (omega (arith, c.0), c.1)

lost-tasks :
    (t : Task) (m : Manager) (tasks : List Task) → lost t (record m { tasks = tasks }) ≡ lost t m
unfolding lost
lost-tasks (joining n id) m tasks = refl
lost-tasks (releasing count) m tasks = refl
lost-tasks (failing count n) m tasks = refl
lost-tasks (removing n) m tasks = refl

proceed-IsBalanced :
    (l i : ℕ) (t : Task) (m : Manager)
    → get_elem? m.tasks i ≡ some t
    → IsBalanced l m
    → BalancedIfAny (l + lost t m) (run_task t (record m { tasks = remove_at m.tasks i }))
unfolding IsTaken held
proceed-IsBalanced l i t m e c =
    let m' = record m { tasks = remove_at m.tasks i } in
    subst (λ k. BalancedIfAny (l + k) (run_task t m')) (lost-tasks t m (remove_at m.tasks i))
      (run_task-IsBalanced l t m' (omega (arith, c.0, total-remove_at leaving m.tasks i t e), c.1))

replied-IsBalanced : (l : ℕ) (r : Manager × Reply) → IsBalanced l r.0 → BalancedIfAny l (replied r)
unfolding replied
replied-IsBalanced l (m, accepted) c = c
replied-IsBalanced l (m, rejected e) c = c
replied-IsBalanced l (m, waits) c = tt

step-IsBalanced :
    (l : ℕ) (env : Environment) (a : Action) (m : Manager)
    → IsBalanced l m
    → BalancedIfAny (l + lost_by a m) (step env a m)
unfolding step lost_by
step-IsBalanced l env (subscribing source) m c =
    replied-IsBalanced (l + 0) _
      (subscribe-IsBalanced (l + 0) env.restarted source m (omega (arith, c.0), c.1))
step-IsBalanced l env (proceeding i) m c = for_task (get_elem? m.tasks i) refl
  where
    for_task :
        (o : Option Task)
        → get_elem? m.tasks i ≡ o
        → BalancedIfAny
            (l + elim o as (λ _. ℕ) [ none ↦ 0 | some t ↦ lost t m ])
            (elim o as (λ _. Option Manager) [
              | none ↦ some m
              | some t ↦ run_task t (record m { tasks = remove_at m.tasks i })
            ])
    for_task none e = (omega (arith, c.0), c.1)
    for_task (some t) e = proceed-IsBalanced l i t m e c
step-IsBalanced l env (happening n e) m c =
    split_option (BalancedIfAny (l + 0)) (get_elem? m.heap n) _ _ (λ e. (omega (arith, c.0), c.1))
      (λ s h. on_event-IsBalanced (l + 0) env e n s m h (omega (arith, c.0), c.1))

run-IsBalanced :
    (l : ℕ) (env : Environment) (actions : List Action) (m : Manager)
    → IsBalanced l m
    → BalancedIfAny (l + lost_in_run env actions m) (run env actions m)
unfolding run lost_in_run
run-IsBalanced l env [] m c = (omega (arith, c.0), c.1)
run-IsBalanced l env (a ∷ actions) m c =
    after (step env a m) (step-IsBalanced l env a m c) (λ k. run-IsBalanced k env actions)
  where
    after :
        (o : Option Manager)
        → BalancedIfAny (l + lost_by a m) o
        → ((k : ℕ) (m' : Manager)
            → IsBalanced k m'
            → BalancedIfAny (k + lost_in_run env actions m') (run env actions m'))
        → BalancedIfAny
            (l
              + (lost_by a m
                  + elim o as (λ _. ℕ) [ none ↦ 0 | some m' ↦ lost_in_run env actions m' ]))
            (elim o as (λ _. Option Manager) [ none ↦ none | some m' ↦ run env actions m' ])
    after none k rest = tt
    after (some m') k rest =
        let sums : l + lost_by a m + lost_in_run env actions m'
            ≡ l + (lost_by a m + lost_in_run env actions m') =
          omega arith in
        subst (λ j. BalancedIfAny j (run env actions m')) sums (rest (l + lost_by a m) m' k)

-- The counts of the manager are right: the viewers are those in the streams and those that a goroutine
-- has still to count off, and the streams are those held and the lost ones.
abbrev pub AreRight : ℕ → Manager → Type 0
AreRight l m =
    (m.viewers ≡ watched m)
    × (m.viewers ≤ m.max_viewers)
    × (m.active ≡ held m + l)
    × (m.active ≤ m.max_streams)

both :
    (l : ℕ) (o : Option Manager) (m : Manager)
    → o ≡ some m
    → CountedIfAny o
    → BalancedIfAny l o
    → AreRight l m
both l o m e c b =
    let viewers : IsCounted m = subst CountedIfAny e c in
    let streams : IsBalanced l m = subst (BalancedIfAny l) e b in
    (viewers.0, viewers.1, streams.0, streams.1)

module _ (env : Environment) (ffmpeg_path : Bytes) (max_viewers max_streams : ℤ) where
  -- The state that a run has reached, with its counts.
  unfoldable pub Reaches : List Action → Manager → Type 0
  Reaches actions m =
      let start = new_manager ffmpeg_path max_viewers max_streams in
      (run env actions start ≡ some m) × AreRight (lost_in_run env actions start) m

  -- The actions up to one that waits for ever, where a viewer's close is under way.
  unfoldable pub WaitsFor : List Action → Type 0
  WaitsFor actions =
      (front : List Action) × (a : Action) × (back : List Action) × (m : Manager) × (actions
        ≡ front ++ a ∷ back)
      × Reaches front m
      × (step env a m ≡ none)
      × HasHindered m

  reached-AreRight :
      (actions : List Action) (m : Manager)
      → run env actions (new_manager ffmpeg_path max_viewers max_streams) ≡ some m
      → Reaches actions m
  unfolding new_manager held Reaches
  reached-AreRight actions m ran =
      let start = new_manager ffmpeg_path max_viewers max_streams in
      let l = lost_in_run env actions start in
      let from_zero : 0 + l ≡ l = omega arith in
      (
        ran,
        both l (run env actions start) m ran
            (run-viewers env ffmpeg_path max_viewers max_streams actions)
            (subst (λ j. BalancedIfAny j (run env actions start)) from_zero
              (run-IsBalanced 0 env actions start
                (omega (arith, total-nil running, total-nil leaving), omega arith))),
      )

  -- From a new manager on, whatever viewers, timers and FFmpeg do and in whatever order: either the run
  -- has a last state, or it comes to a step that waits for ever with a lock held, and that only from
  -- a state in which the close of a viewer of some stream has entered its `once` and not yet the
  -- stream; where no close is under way, no send and no `once` waits. In the last state, or the one
  -- before that step, the viewers counted are exactly those in the streams and those that a goroutine
  -- has still to count off; the streams counted are those that run, those that a goroutine has still
  -- to remove, and one more for each removal so far that found another stream of its camera or none,
  -- which is never counted off; and neither count is above its limit.
  pub run-AreRight :
      (actions : List Action) → ((m : Manager) × Reaches actions m) ⊎ WaitsFor actions
  unfolding new_manager Stops WaitsFor
  run-AreRight actions =
      elim (run-Flows env actions (new_manager ffmpeg_path max_viewers max_streams) tt) [
        | inl (m, ran) ↦ inl (m, reached-AreRight actions m ran)
        | inr (front, a, back, m, form, ran, stuck, hindered) ↦
            inr (front, a, back, m, form, reached-AreRight front m ran, stuck, hindered)
      ]
