-- ===== src/Livestream/Empty.antt =====
-- internal/livestream/manager.go: a new channel is empty until its stream is ready.
use mathlib.Core.Option
use fragata.Base.{
  ℕ, ◌≡◌, refl, subst, sym, ◌∙◌, ◌⊎◌, inl, inr, Bool, true, false, ◌||◌, List, [], ◌∷◌, Bytes,
  bytes_eq, Option, none, some, lookup, get_elem?, leb, All, All-set, All-append, set-set, split_if,
  split_option,
}
use fragata.Hub.{is_nil}
use fragata.Livestream.Reader.{
  Metadata, metadata_from_init, Reader, Reading, quiet, makes_ready, sends, breaks, begin_media,
  on_media, on_box,
}
use fragata.Livestream.Manager.{
  Source, Subscriber, Stream, Manager, Reply, accepted, rejected, waits, any_closing, put_stream,
  stopped_stream, stop_locked, new_stream, start_stream, use_stream, subscribe,
}
use fragata.Livestream.Subscribers.{any_closing-push_all}
use fragata.Livestream.Sessions.{
  start_all, send_start, set_ready, broadcast, fail, Environment, with_reader, on_reading,
}

abbrev pub IsEmpty : Subscriber → Type 0
IsEmpty sub = sub.frames ≡ []

-- A stream that runs is ready when its reader is, and nobody has a frame before.
abbrev pub IsFlowing : Stream → Type 0
IsFlowing s =
    (s.stopped ≡ true)
    ⊎ ((s.ready ≡ s.reader.ready) × (s.ready ≡ false → All IsEmpty s.subscribers))

abbrev pub AllFlow : Manager → Type 0
AllFlow m = All IsFlowing m.heap

-- There is an answer, and its streams flow; or something waits for ever, for this reason.
unfoldable pub Flows : Type 0 → Option Manager → Type 0
Flows S none = S
Flows S (some m) = AllFlow m

-- A close of a viewer of this stream is under way, and of a stream of the manager.
abbrev pub IsHindered : Stream → Type 0
IsHindered s = any_closing s.subscribers ≡ true

abbrev pub HasHindered : Manager → Type 0
HasHindered m = (n : ℕ) × (s : Stream) × (get_elem? m.heap n ≡ some s) × IsHindered s

pub Flows-weaken : (S T : Type 0) (o : Option Manager) → (S → T) → Flows S o → Flows T o
unfolding Flows
Flows-weaken S T none f h = f h
Flows-weaken S T (some m) f h = h

-- The same of an answer of `Subscribe` on this manager.
unfoldable pub Replies : Manager → Manager × Reply → Type 0
Replies m (m', accepted) = AllFlow m'
Replies m (m', rejected e) = AllFlow m'
Replies m (m', waits) = HasHindered m

pub put_stream-AllFlow :
    (n : ℕ) (s : Stream) (m : Manager) → AllFlow m → IsFlowing s → AllFlow (put_stream n s m)
put_stream-AllFlow n s m all h = All-set IsFlowing m.heap n s all h

pub start_stream-AllFlow :
    (source : Source) (m' m : Manager) → AllFlow m → Replies m' (start_stream source m)
unfolding start_stream Replies
start_stream-AllFlow source m' m all =
    split_if (Replies m') (leb m.max_streams m.active) _ _ (λ e. all)
      (λ e. All-append IsFlowing m.heap (new_stream source ∷ []) all (inr (refl, λ e. tt), tt))

stop_locked-Flows :
    (reason : Bytes) (n : ℕ) (s : Stream) (m : Manager)
    → AllFlow m
    → Flows (IsHindered s) (stop_locked reason n s m)
unfolding stop_locked Flows
stop_locked-Flows reason n s m all =
    split_if (Flows (IsHindered s)) s.stopped _ _ (λ e. all)
      (λ e.
        split_if (Flows (IsHindered s)) (any_closing s.subscribers) _ _ (λ e. e)
          (λ e. put_stream-AllFlow n (stopped_stream reason s) m all (inl refl)))

pub use_stream-AllFlow :
    (reason : Bytes) (source : Source) (n : ℕ) (s : Stream) (m : Manager)
    → get_elem? m.heap n ≡ some s
    → AllFlow m
    → Replies m (use_stream reason source n s m)
unfolding use_stream Replies Flows
use_stream-AllFlow reason source n s m found all =
    let stops = stop_locked-Flows reason n s m all in
    split_if (Replies m) (bytes_eq s.source.url source.url) _ _ (λ e. all)
      (λ e.
        split_option (Replies m) (stop_locked reason n s m) _ _
          (λ stuck. (n, s, found, subst (Flows (IsHindered s)) stuck stops))
          (λ m' e'. start_stream-AllFlow source m m' (subst (Flows (IsHindered s)) e' stops)))

pub subscribe-AllFlow :
    (reason : Bytes) (source : Source) (m : Manager)
    → AllFlow m
    → Replies m (subscribe reason source m)
unfolding subscribe Replies
subscribe-AllFlow reason source m all =
    split_if (Replies m) (is_nil m.ffmpeg_path) _ _ (λ e. all)
      (λ e.
        split_if (Replies m) (is_nil source.id || is_nil source.url) _ _ (λ e. all)
          (λ e.
            split_if (Replies m) (leb m.max_viewers m.viewers) _ _ (λ e. all)
              (λ full.
                split_option (Replies m) (lookup source.id m.streams) _ _
                  (λ e. start_stream-AllFlow source m m all)
                  (λ n e.
                    split_option (Replies m) (get_elem? m.heap n) _ _
                      (λ e. start_stream-AllFlow source m m all)
                      (λ s found. use_stream-AllFlow reason source n s m found all)))))

-- Two frames fit into a new channel.
pub send_start-Returns :
    (metadata init_segment : Bytes) (sub : Subscriber)
    → IsEmpty sub
    → (told : Subscriber) × (send_start metadata init_segment sub ≡ some told)
unfolding send_start
send_start-Returns metadata init_segment sub e = rw e (_, refl)

pub start_all-Returns :
    (metadata init_segment : Bytes) (subs : List Subscriber)
    → All IsEmpty subs
    → (started : List Subscriber) × (start_all metadata init_segment subs ≡ some started)
unfolding start_all
start_all-Returns metadata init_segment [] all = ([], refl)
start_all-Returns metadata init_segment (sub ∷ subs) all =
    let first = send_start-Returns metadata init_segment sub all.0 in
    let others = start_all-Returns metadata init_segment subs all.1 in
    (first.0 ∷ others.0, rw (start_all, first.1, others.1) refl)

-- What a box may lead to, where the reader was ready or not before it.
pub Fits : Bool → Reader × Reading → Type 0
Fits before (r, quiet) = r.ready ≡ before
Fits before (r, makes_ready metadata init_segment) = (before ≡ false) × (r.ready ≡ true)
Fits before (r, sends content) = (before ≡ true) × (r.ready ≡ true)
Fits before (r, breaks) = Unit

pub on_box-Fits :
    (encode : Metadata → Option Bytes) (mode kind content : Bytes) (r : Reader)
    → Fits r.ready (on_box encode mode kind content r)
unfolding Fits on_box on_media begin_media
on_box-Fits encode mode kind content r =
    split_if (Fits r.ready) r.ready _ _
      (λ ready.
        split_if (Fits r.ready) (bytes_eq kind _) _ _ (λ e. refl)
          (λ e.
            split_if (Fits r.ready) (bytes_eq kind _) _ _
              (λ e.
                split_if (Fits r.ready) (is_nil r.fragment) _ _ (λ e. refl) (λ e. (ready, ready)))
              (λ e. split_if (Fits r.ready) (is_nil r.fragment) _ _ (λ e. refl) (λ e. refl))))
      (λ ready.
        split_if (Fits r.ready) (bytes_eq kind _) _ _
          (λ e.
            split_option (Fits r.ready)
              (Option.bind (metadata_from_init r.init_segment mode) encode) _ _ (λ e. tt)
              (λ encoded e. (ready, refl)))
          (λ e. refl))

pub when_running :
    (s : Stream)
    → IsFlowing s
    → s.stopped ≡ false
    → (s.ready ≡ s.reader.ready) × (s.ready ≡ false → All IsEmpty s.subscribers)
when_running s (inl stopped) e = absurd (cc)
when_running s (inr h) e = h

-- A stream that is put twice has its last value.
pub put_twice :
    (n : ℕ) (s s' : Stream) (m : Manager)
    → AllFlow m
    → IsFlowing s'
    → AllFlow (put_stream n s' (put_stream n s m))
put_twice n s s' m all h = rw (set-set m.heap n s s') (put_stream-AllFlow n s' m all h)

pub on_reading-Flows :
    (env : Environment) (read : Reader × Reading) (n : ℕ) (s : Stream) (m : Manager)
    → AllFlow m
    → IsFlowing s
    → Fits s.reader.ready read
    → Flows
        (IsHindered s)
        (on_reading env read.1 n (with_reader read.0 s) (put_stream n (with_reader read.0 s) m))
unfolding Flows Fits on_reading set_ready broadcast fail
on_reading-Flows env (r, quiet) n s m all (inl stopped) fits =
    put_stream-AllFlow n (with_reader r s) m all (inl stopped)
on_reading-Flows env (r, quiet) n s m all (inr h) fits =
    put_stream-AllFlow n (with_reader r s) m all (inr (h.0 ∙ sym fits, h.1))
on_reading-Flows env (r, makes_ready metadata init_segment) n s m all h fits =
    split_if (Flows (IsHindered s)) s.stopped _ _
      (λ stopped. put_stream-AllFlow n (with_reader r s) m all (inl stopped))
      (λ stopped.
        let run = when_running s h stopped in
        let start =
          start_all-Returns metadata init_segment s.subscribers (run.1 (run.0 ∙ fits.0)) in
        rw start.1 (put_twice n (with_reader r s) _ m all (inr (sym fits.1, λ e. absurd (cc)))))
on_reading-Flows env (r, sends content) n s m all h fits =
    split_if (Flows (IsHindered s)) s.stopped _ _
      (λ stopped. put_stream-AllFlow n (with_reader r s) m all (inl stopped))
      (λ stopped.
        split_if (Flows (IsHindered s)) (any_closing _) _ _ (any_closing-push_all _ s.subscribers)
          (λ free. put_twice n (with_reader r s) _ m all (
            inr (
              (when_running s h stopped).0 ∙ fits.0 ∙ sym fits.1,
              λ e. absurd (not_ready (when_running s h stopped).0 fits.0 e),
            ))))
  where
    not_ready : s.ready ≡ s.reader.ready → s.reader.ready ≡ true → s.ready ≡ false → ⊥
    not_ready a b c = cc
on_reading-Flows env (r, breaks) n s m all h fits =
    split_if (Flows (IsHindered s)) s.stopped _ _
      (λ stopped. put_stream-AllFlow n (with_reader r s) m all (inl stopped))
      (λ stopped.
        split_if (Flows (IsHindered s)) (any_closing s.subscribers) _ _ (λ e. e)
          (λ free. put_twice n (with_reader r s) _ m all (inl refl)))
