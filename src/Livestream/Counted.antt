-- ===== src/Livestream/Counted.antt =====
-- internal/livestream/manager.go: which viewers are counted, and the count when one more comes.
use fragata.Base.{
  ℕ, ◌+◌, ◌≤◌, ◌<◌, ◌≡◌, ◌||◌, [], ◌∷◌, Bytes, bytes_eq, Option, none, some, subst, lookup, length,
  get_elem?, leb, arith, total, total-append, total-one, total-set, split_if, split_option,
}
use fragata.Hub.{is_nil}
use fragata.Livestream.Manager.{
  Source, Stream, Task, joining, releasing, failing, removing, Manager, put_stream, add_task,
  stopped_stream, stop_locked, any_closing, count_viewer, new_stream, start_stream, use_stream,
  subscribe, Reply, with_new_stream,
}

abbrev pub audience : Stream → ℕ
audience s = length s.subscribers

-- The viewers that a task still counts for.
unfoldable pub waiting : Task → ℕ
waiting (joining n id) = 1
waiting (releasing count) = count
waiting (failing count n) = count
waiting (removing n) = 0

-- The viewers in all streams, and those that tasks count for.
unfoldable pub watched : Manager → ℕ
watched m = total audience m.heap + total waiting m.tasks

-- Every counted viewer is in a stream or with a task, and there are not too many.
abbrev pub IsCounted : Manager → Type 0
IsCounted m = (m.viewers ≡ watched m) × (m.viewers ≤ m.max_viewers)

-- The same with some viewers that no task counts for any more.
abbrev pub IsOwed : ℕ → Manager → Type 0
IsOwed k m = (m.viewers ≡ watched m + k) × (m.viewers ≤ m.max_viewers)

-- There is room for a viewer.
abbrev pub IsOpen : Manager → Type 0
IsOpen m = (m.viewers ≡ watched m) × (m.viewers < m.max_viewers)

-- What holds of the manager, unless something waits for ever.
abbrev pub IfAny : (Manager → Type 0) → Option Manager → Type 0
IfAny Q none = Unit
IfAny Q (some m) = Q m

-- The answer of `subscribe` leaves the count right.
abbrev pub Answers : Manager × Reply → Type 0
Answers (m, e) = IsCounted m

pub put_stream-watched :
    (n : ℕ) (s s' : Stream) (m : Manager)
    → get_elem? m.heap n ≡ some s
    → watched (put_stream n s' m) + audience s ≡ watched m + audience s'
unfolding watched
put_stream-watched n s s' m h = omega (arith, total-set audience m.heap n s s' h)

pub add_task-watched : (t : Task) (m : Manager) → watched (add_task t m) ≡ watched m + waiting t
unfolding watched
add_task-watched t m = omega (arith, total-append waiting m.tasks (t ∷ []), total-one waiting t)

pub count_viewer-IsCounted : (n : ℕ) (m : Manager) → IsOpen m → IsCounted (count_viewer n m)
unfolding waiting watched
count_viewer-IsCounted n m h =
    (omega (arith, h.0, add_task-watched (joining n m.next_id) m), omega (arith, h.1))

pub stop_locked-IsOpen :
    (reason : Bytes) (n : ℕ) (s : Stream) (m : Manager)
    → get_elem? m.heap n ≡ some s
    → IsOpen m
    → IfAny IsOpen (stop_locked reason n s m)
unfolding stop_locked watched
stop_locked-IsOpen reason n s m h c =
    split_if (IfAny IsOpen) s.stopped _ _ (λ e. c)
      (λ e.
        split_if (IfAny IsOpen) (any_closing s.subscribers) _ _ (λ e. tt)
          (λ e. (
            omega (arith, c.0, total-set audience m.heap n s (stopped_stream reason s) h),
            omega (arith, c.1),
          )))

pub start_stream-IsCounted :
    (source : Source) (m : Manager) → IsOpen m → IsCounted ((start_stream source m).0)
unfolding start_stream watched
start_stream-IsCounted source m c =
    split_if Answers (leb m.max_streams m.active) _ _ (λ e. (c.0, omega (arith, c.1)))
      (λ e. count_viewer-IsCounted (length m.heap) (with_new_stream source m) (
        omega (
          arith,
          c.0,
          total-append audience m.heap (new_stream source ∷ []),
          total-one audience (new_stream source),
        ),
        c.1,
      ))

pub use_stream-IsCounted :
    (reason : Bytes) (source : Source) (n : ℕ) (s : Stream) (m : Manager)
    → get_elem? m.heap n ≡ some s
    → IsOpen m
    → IsCounted ((use_stream reason source n s m).0)
unfolding use_stream
use_stream-IsCounted reason source n s m h c =
    split_if Answers (bytes_eq s.source.url source.url) _ _ (λ e. count_viewer-IsCounted n m c)
      (λ e.
        split_option Answers (stop_locked reason n s m) _ _ (λ e. (c.0, omega (arith, c.1)))
          (λ m' e.
            start_stream-IsCounted source m'
              (subst (IfAny IsOpen) e (stop_locked-IsOpen reason n s m h c))))

pub subscribe-IsCounted :
    (reason : Bytes) (source : Source) (m : Manager)
    → IsCounted m
    → IsCounted ((subscribe reason source m).0)
unfolding subscribe
subscribe-IsCounted reason source m c =
    split_if Answers (is_nil m.ffmpeg_path) _ _ (λ e. c)
      (λ e.
        split_if Answers (is_nil source.id || is_nil source.url) _ _ (λ e. c)
          (λ e.
            split_if Answers (leb m.max_viewers m.viewers) _ _ (λ e. c)
              (λ full.
                let open_now : IsOpen m = (c.0, ground (arith, full)) in
                split_option Answers (lookup source.id m.streams) _ _
                  (λ e. start_stream-IsCounted source m open_now)
                  (λ n e.
                    split_option Answers (get_elem? m.heap n) _ _
                      (λ e. start_stream-IsCounted source m open_now)
                      (λ s found. use_stream-IsCounted reason source n s m found open_now)))))
