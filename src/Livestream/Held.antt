-- ===== src/Livestream/Held.antt =====
-- internal/livestream/manager.go: which streams are counted, and the count when one starts or is replaced.
use fragata.Base.{
  ℕ, ◌+◌, ◌≤◌, ◌≡◌, refl, ap, subst, Bool, true, false, ◌||◌, List, [], ◌∷◌, Bytes, bytes_eq,
  Option, none, some, lookup, length, get_elem?, leb, ◌==◌, arith, if◌then◌else◌, total,
  total-append, total-one, total-set, split_if, split_option,
}
use fragata.Hub.{is_nil}
use fragata.Livestream.Manager.{
  Source, Stream, Task, joining, releasing, failing, removing, Manager, Reply, put_stream, add_task,
  stopped_stream, stop_locked, count_viewer, new_stream, start_stream, use_stream, subscribe,
  any_closing,
}
use fragata.Livestream.Sessions.{Action, proceeding, Environment, step, with_stream}

abbrev pub alive : Bool → ℕ
alive stopped = if stopped then 0 else 1

abbrev pub running : Stream → ℕ
running s = alive s.stopped

unfoldable pub leaving : Task → ℕ
leaving (joining n id) = 0
leaving (releasing count) = 0
leaving (failing count n) = 1
leaving (removing n) = 1

-- The streams that run, and those that stopped and are still to be removed.
unfoldable pub held : Manager → ℕ
held m = total running m.heap + total leaving m.tasks

-- A removal that finds another stream of the camera, or none, counts nothing off.
unfoldable pub lost : Task → Manager → ℕ
lost (removing n) m = with_stream n m 1 (λ s.
    let current : Option ℕ = lookup s.source.id m.streams in
    elim current [ none ↦ 1 | some k ↦ if k == n then 0 else 1 ])
lost t m = 0

unfoldable pub lost_by : Action → Manager → ℕ
lost_by (proceeding i) m = elim (get_elem? m.tasks i) as (λ _. ℕ) [ none ↦ 0 | some t ↦ lost t m ]
lost_by a m = 0

unfoldable pub lost_in_run : Environment → List Action → Manager → ℕ
lost_in_run env [] m = 0
lost_in_run env (a ∷ actions) m =
    lost_by a m
    + elim (step env a m) as (λ _. ℕ) [ none ↦ 0 | some m' ↦ lost_in_run env actions m' ]

-- The count stands for the streams held and some that are lost, and is within the limit.
abbrev pub IsBalanced : ℕ → Manager → Type 0
IsBalanced l m = (m.active ≡ held m + l) × (m.active ≤ m.max_streams)

abbrev pub BalancedIfAny : ℕ → Option Manager → Type 0
BalancedIfAny l none = Unit
BalancedIfAny l (some m) = IsBalanced l m

abbrev pub Answers : ℕ → Manager × Reply → Type 0
Answers l (m, e) = IsBalanced l m

-- A change of one stream that does not stop it, with or without a task that removes none.
pub keep-IsBalanced :
    (l n : ℕ) (s s' : Stream) (m : Manager)
    → get_elem? m.heap n ≡ some s
    → s'.stopped ≡ s.stopped
    → IsBalanced l m
    → IsBalanced l (put_stream n s' m)
unfolding held
keep-IsBalanced l n s s' m h e c =
    (omega (arith, c.0, ap alive e, total-set running m.heap n s s' h), c.1)

pub held-removing : (n : ℕ) (m : Manager) → held (add_task (removing n) m) ≡ held m + 1
unfolding held leaving
held-removing n m =
    omega (arith, total-append leaving m.tasks (removing n ∷ []), total-one leaving (removing n))

pub add_task-IsBalanced :
    (l : ℕ) (t : Task) (m : Manager) → leaving t ≡ 0 → IsBalanced l m → IsBalanced l (add_task t m)
unfolding held
add_task-IsBalanced l t m e c =
    (omega (arith, c.0, e, total-append leaving m.tasks (t ∷ []), total-one leaving t), c.1)

-- A stream that stops, and the task that removes it.
pub stop-IsBalanced :
    (l n : ℕ) (t : Task) (s s' : Stream) (m : Manager)
    → get_elem? m.heap n ≡ some s
    → s.stopped ≡ false
    → s'.stopped ≡ true
    → leaving t ≡ 1
    → IsBalanced l m
    → IsBalanced l (add_task t (put_stream n s' m))
unfolding held
stop-IsBalanced l n t s s' m h e e' one c = (
  omega (
    arith,
    c.0,
    one,
    ap alive e,
    ap alive e',
    total-set running m.heap n s s' h,
    total-append leaving m.tasks (t ∷ []),
    total-one leaving t,
  ),
  c.1,
)

pub stop_locked-IsBalanced :
    (l : ℕ) (reason : Bytes) (n : ℕ) (s : Stream) (m : Manager)
    → get_elem? m.heap n ≡ some s
    → IsBalanced l m
    → BalancedIfAny l (stop_locked reason n s m)
unfolding stop_locked held
stop_locked-IsBalanced l reason n s m h c =
    split_if (BalancedIfAny l) s.stopped _ _ (λ e. c)
      (λ going.
        split_if (BalancedIfAny l) (any_closing s.subscribers) _ _ (λ e. tt)
          (λ e. (
            omega (
              arith,
              c.0,
              ap alive going,
              total-set running m.heap n s (stopped_stream reason s) h,
            ),
            omega (arith, c.1),
          )))

pub start_stream-IsBalanced :
    (l : ℕ) (source : Source) (m : Manager)
    → IsBalanced l m
    → IsBalanced l ((start_stream source m).0)
unfolding start_stream held leaving
start_stream-IsBalanced l source m c =
    split_if (Answers l) (leb m.max_streams m.active) _ _ (λ e. c)
      (λ e. (
        omega (
          arith,
          c.0,
          total-append running m.heap (new_stream source ∷ []),
          total-one running (new_stream source),
          total-append leaving m.tasks (joining (length m.heap) m.next_id ∷ []),
          total-one leaving (joining (length m.heap) m.next_id),
        ),
        ground (arith, e),
      ))

pub count_viewer-IsBalanced :
    (l n : ℕ) (m : Manager) → IsBalanced l m → IsBalanced l (count_viewer n m)
unfolding leaving held
count_viewer-IsBalanced l n m c =
    let added = add_task-IsBalanced l (joining n m.next_id) m refl c in
    (omega (arith, added.0), omega (arith, c.1))

pub use_stream-IsBalanced :
    (l : ℕ) (reason : Bytes) (source : Source) (n : ℕ) (s : Stream) (m : Manager)
    → get_elem? m.heap n ≡ some s
    → IsBalanced l m
    → IsBalanced l ((use_stream reason source n s m).0)
unfolding use_stream leaving
use_stream-IsBalanced l reason source n s m h c =
    split_if (Answers l) (bytes_eq s.source.url source.url) _ _
      (λ e. count_viewer-IsBalanced l n m c)
      (λ e.
        split_option (Answers l) (stop_locked reason n s m) _ _ (λ e. c)
          (λ m' e.
            start_stream-IsBalanced l source m'
              (subst (BalancedIfAny l) e (stop_locked-IsBalanced l reason n s m h c))))

pub subscribe-IsBalanced :
    (l : ℕ) (reason : Bytes) (source : Source) (m : Manager)
    → IsBalanced l m
    → IsBalanced l ((subscribe reason source m).0)
unfolding subscribe
subscribe-IsBalanced l reason source m c =
    split_if (Answers l) (is_nil m.ffmpeg_path) _ _ (λ e. c)
      (λ e.
        split_if (Answers l) (is_nil source.id || is_nil source.url) _ _ (λ e. c)
          (λ e.
            split_if (Answers l) (leb m.max_viewers m.viewers) _ _ (λ e. c)
              (λ full.
                split_option (Answers l) (lookup source.id m.streams) _ _
                  (λ e. start_stream-IsBalanced l source m c)
                  (λ n e.
                    split_option (Answers l) (get_elem? m.heap n) _ _
                      (λ e. start_stream-IsBalanced l source m c)
                      (λ s found. use_stream-IsBalanced l reason source n s m found c)))))
