-- ===== src/Recorder/Files.antt =====
-- The finished files of a run of internal/recording/recorder.go.
use mathlib.Core.List.{append_assoc}
use fragata.Base.{
  ◌||◌, if◌then◌else◌, Bool, ℕ, ◌≡◌, refl, sym, ap, subst, ◌∙◌, true, false, ◌&&◌, ℤ, List, [], ◌∷◌,
  ◌++◌, Bytes, Option, none, some, All, split_if, split_option,
}
use fragata.Hub.{AudioPacket, Info, AudioInfo}
use fragata.Matroska.Ebml.{Outcome, ok, err, panicked}
use fragata.Matroska.Writer.{Writer, write_audio, close, new_with_audio}
use fragata.Matroska.Events.{audio, frames_of}
use fragata.Matroska.Frames.{ReadsClusters}
use fragata.Matroska.Refines.Run.{write_event}
use fragata.Matroska.Refines.Recording.{hears, record_all, record_all-reads}
use fragata.Recorder.Segments.{
  Segment, Moment, Texts, Settings, reported, sound_not_written, FinishAnswers, Finish, completed,
  unfinished, crashed_finish, sealed, finish, CompletedFile, Report, on_completed, report_completed,
  report_finish, finalize, not_finished, no_size, nothing, crashed_finalizer,
}
use fragata.Recorder.Steps.{
  Recorder, new_recorder, Input, differ, cancelled, unit_in, sound_in, is_end_of, is_other,
  after_sound, take_sound, on_sound, step, run_all,
}
use fragata.Recorder.Takes.{Take, Take-one, taken_of, taken_from, inputs_of, StartsWithKey, IsFrom}
use fragata.Recorder.Sound.{
  IsHarmless, OptionTake, RequestTake, Sound, Sounds, TakeIn, current-Sound, cut_if-Sound,
  finish_all-Sound, take-TakeIn, on_unit-Sounds, All-back, skip-Sound,
}

some_injective : {A : Type 0} {a b : A} → some a ≡ some b → a ≡ b
some_injective {A} {a} {b} e = cc

-- A packet of another source than the current segment's.
other_takes :
    {P : Type 0} (packet : AudioPacket P) (seg seg' : Segment) (r : Recorder)
    → r.current ≡ some seg
    → r.current ≡ some seg'
    → packet.discontinuity ≡ false
    → differ packet.generation seg.generation ≡ true
    → taken_of {P = P} seg'.generation (sound_in (some packet)) ≡ []
unfolding taken_of
other_takes packet seg seg' r is is' going other =
    let same : seg ≡ seg' = some_injective (sym is ∙ is') in
    subst
      (λ s.
        (if packet.discontinuity || differ packet.generation s.generation
          then []
          else audio packet ∷ [])
        ≡ [])
      same (rw (going, other) refl)

module _ (P : Type 0) (float64_bits : ℤ → ℕ) where
  after_sound-Sounds :
      (past : List (Input P)) (seg : Segment) (packet : AudioPacket P)
      (o : Outcome (Unit {0}) × Writer) (r : Recorder)
      → write_audio packet seg.writer ≡ o
      → is_other packet.generation (some seg) ≡ false
      → packet.discontinuity ≡ false
      → TakeIn P float64_bits past r seg
      → Sound P float64_bits past r
      → Sounds P float64_bits (past ++ sound_in (some packet) ∷ []) (after_sound seg o r)
  unfolding after_sound Sounds Sound TakeIn write_event IsHarmless taken_of
  after_sound-Sounds past seg packet (ok _, w) r e from going take h =
      current-Sound P float64_bits past (sound_in (some packet)) (record seg { writer = w }) r
        (λ harmless.
          Take-one P float64_bits past (sound_in (some packet)) seg (audio packet) w (take harmless)
            e from (rw (going, from) refl))
        h
  after_sound-Sounds past seg packet (err e', w) r e from going take h = λ harmless.
      absurd ((All-back IsHarmless r.effects (reported (sound_not_written e') ∷ []) harmless).0)
  after_sound-Sounds past seg packet (panicked, w) r e from going take h = tt

  take_sound-Sounds :
      (past : List (Input P)) (packet : AudioPacket P) (r : Recorder)
      → packet.discontinuity ≡ false
      → Sound P float64_bits past r
      → Sounds P float64_bits (past ++ sound_in (some packet) ∷ []) (take_sound packet r)
  unfolding take_sound Sounds taken_of
  take_sound-Sounds past packet r going h =
      let input : Input P = sound_in (some packet) in
      let Right = Sounds P float64_bits (past ++ input ∷ []) in
      split_option Right r.current _ _
        (λ idle. skip-Sound P float64_bits past input r (λ seg is. absurd (cc)) h)
        (λ seg is.
          split_if Right (is_other packet.generation (some seg)) _ _
            (λ other.
              skip-Sound P float64_bits past input r
                (λ seg' is'. other_takes packet seg seg' r is is' going other) h)
            (λ from.
              after_sound-Sounds past seg packet _ r refl from going
                (take-TakeIn P float64_bits past r seg is h) h))

  on_sound-Sounds :
      (past : List (Input P)) (m : Moment) (packet : AudioPacket P) (r : Recorder)
      → Sound P float64_bits past r
      → Sounds P float64_bits (past ++ sound_in (some packet) ∷ []) (on_sound m packet r)
  unfolding on_sound Sounds taken_of
  on_sound-Sounds past m packet r h =
      split_if (Sounds P float64_bits (past ++ sound_in (some packet) ∷ [])) packet.discontinuity _
        _
        (λ broken.
          skip-Sound P float64_bits past (sound_in (some packet)) _ (λ seg _. rw broken refl)
            (cut_if-Sound P float64_bits past (is_end_of packet.generation r.current) m r h))
        (λ going. take_sound-Sounds past packet r going h)

  module _ (texts : Texts) (settings : Settings) where
    step-Sounds :
        (past : List (Input P)) (m : Moment) (input : Input P) (r : Recorder)
        → Sound P float64_bits past r
        → Sounds P float64_bits (past ++ input ∷ []) (step texts float64_bits settings m input r)
    unfolding step Sounds taken_of
    step-Sounds past m cancelled r h = finish_all-Sound P float64_bits past cancelled m r h
    step-Sounds past m (unit_in none) r h =
        finish_all-Sound P float64_bits past (unit_in none) m r h
    step-Sounds past m (unit_in (some au)) r h =
        on_unit-Sounds P float64_bits texts settings past m au r h
    step-Sounds past m (sound_in none) r h =
        skip-Sound P float64_bits past (sound_in none) r (λ seg _. refl) h
    step-Sounds past m (sound_in (some packet)) r h = on_sound-Sounds past m packet r h

    Sounds-some :
        (past : List (Input P)) (o : Option Recorder) (r : Recorder)
        → Sounds P float64_bits past o
        → o ≡ some r
        → Sound P float64_bits past r
    unfolding Sounds
    Sounds-some past o r h e = subst (Sounds P float64_bits past) e h

    -- The inputs that a run received before it ended, and those that came too late.
    unfoldable Received : List (Input P) → List (Moment × Input P) → Recorder → Type 0
    Received past inputs r =
        (received : List (Input P)) × (unread : List (Input P)) × (past ++ inputs_of inputs
          ≡ received ++ unread)
        × Sound P float64_bits received r

    run_all-Sounds :
        (past : List (Input P)) (inputs : List (Moment × Input P)) (r r' : Recorder)
        → Sound P float64_bits past r
        → run_all texts float64_bits settings inputs r ≡ some r'
        → Received past inputs r'
    unfolding run_all inputs_of Received Sounds
    run_all-Sounds past [] r r' h ran =
        (past, [], refl, subst (Sound P float64_bits past) (some_injective ran) h)
    run_all-Sounds past ((m, input) ∷ inputs) r r' h ran =
        behind r.finished (step texts float64_bits settings m input r)
          (step-Sounds past m input r h) ran (run_all-Sounds (past ++ input ∷ []) inputs)
      where
        behind :
            (b : Bool) (o : Option Recorder)
            → Sounds P float64_bits (past ++ input ∷ []) o
            → (if b then some r else elim o as (λ _. Option Recorder) [
              | none ↦ none
              | some next ↦ run_all texts float64_bits settings inputs next
            ])
              ≡ some r'
            → ((next end : Recorder)
                → Sound P float64_bits (past ++ input ∷ []) next
                → run_all texts float64_bits settings inputs next ≡ some end
                → Received (past ++ input ∷ []) inputs end)
            → Received past ((m, input) ∷ inputs) r'
        behind true o sounds ran' rest = (
          past,
          input ∷ inputs_of inputs,
          refl,
          subst (Sound P float64_bits past) (some_injective ran') h,
        )
        behind false none sounds ran' rest = absurd (cc)
        behind false (some next) sounds ran' rest =
            let (received, unread, form, sound) = rest next r' sounds ran' in
            (
              received,
              unread,
              sym (append_assoc past (input ∷ []) (inputs_of inputs)) ∙ form,
              sound,
            )

new_recorder-Sound : (P : Type 0) (float64_bits : ℤ → ℕ) → Sound P float64_bits [] new_recorder
unfolding Sound OptionTake
new_recorder-Sound P float64_bits harmless = record { now = tt; before = tt }

run_all-Received :
    (P : Type 0) (float64_bits : ℤ → ℕ) (texts : Texts) (settings : Settings)
    (inputs : List (Moment × Input P)) (r : Recorder)
    → run_all texts float64_bits settings inputs new_recorder ≡ some r
    → (received : List (Input P)) × (unread : List (Input P)) × (inputs_of inputs
        ≡ received ++ unread)
      × Sound P float64_bits received r
unfolding Received
run_all-Received P float64_bits texts settings inputs r ran =
    run_all-Sounds P float64_bits texts settings [] inputs new_recorder r
      (new_recorder-Sound P float64_bits) ran

sealed-close :
    (answers : FinishAnswers) (ended : ℕ) (seg seg' : Segment) (o : Outcome (Unit {0}) × Writer)
    → sealed answers ended seg o ≡ (completed, seg')
    → o ≡ (ok tt, seg'.writer)
unfolding sealed
sealed-close answers ended seg seg' (ok _, w) e =
    let keeps =
      split_if {A = Finish × Segment} (λ p. p.1.writer ≡ w)
        (answers.syncs && (answers.closes && answers.renames))
        (completed, record seg { writer = w; ended_at = ended; finished = true })
        (unfinished, record seg { writer = w }) (λ _. refl) (λ _. refl) in
    ap (λ v. (ok tt, v)) (sym keeps ∙ ap (λ p. p.1.writer) e)
sealed-close answers ended seg seg' (err _, w) e = absurd cc
sealed-close answers ended seg seg' (panicked, w) e = absurd cc

finish-close :
    (answers : FinishAnswers) (ended : ℕ) (seg seg' : Segment)
    → seg.finished ≡ false
    → finish answers ended seg ≡ (completed, seg')
    → close seg.writer ≡ (ok tt, seg'.writer)
unfolding finish
finish-close answers ended seg seg' open_ e =
    let ending = sealed answers ended seg (close seg.writer) in
    let same =
      split_if (λ x. x ≡ ending) seg.finished (completed, seg) ending
        (λ over. absurd (cc (over, open_))) (λ _. refl) in
    sealed-close answers ended seg seg' (close seg.writer) (sym same ∙ e)

-- A report of a file names the segment's and its times.
IsReportOf : Segment → Report → Type 0
IsReportOf seg (on_completed file) = (file.path ≡ seg.final_path) × (file.ended_at ≡ seg.ended_at)
IsReportOf seg not_finished = Unit
IsReportOf seg no_size = Unit
IsReportOf seg nothing = Unit
IsReportOf seg crashed_finalizer = Unit

report_completed-IsReportOf :
    (size : Option ℕ) (seg : Segment) → IsReportOf seg (report_completed size seg)
unfolding report_completed IsReportOf
report_completed-IsReportOf size seg =
    split_if (IsReportOf seg) seg.finished _ nothing
      (λ _. split_option (IsReportOf seg) size no_size _ (λ _. tt) (λ _ _. (refl, refl))) (λ _. tt)

report_finish-completed :
    (size : Option ℕ) (f : Finish × Segment) (seg' : Segment) (file : CompletedFile)
    → report_finish size f ≡ (on_completed file, seg')
    → (f ≡ (completed, seg')) × IsReportOf seg' (on_completed file)
unfolding report_finish
report_finish-completed size (completed, s) seg' file e =
    let same = ap (λ r. r.1) e in
    (
      ap (λ v. (completed, v)) same,
      subst (λ v. IsReportOf v (on_completed file)) same
          (subst (IsReportOf s) (ap (λ r. r.0) e) (report_completed-IsReportOf size s)),
    )
report_finish-completed size (unfinished, s) seg' file e = absurd (cc)
report_finish-completed size (crashed_finish, s) seg' file e = absurd (cc)

All-middle {ℓ κ} :
    {A : Type ℓ} (P : A → Type κ) (front : List A) (a : A) (back : List A)
    → All P (front ++ a ∷ back)
    → P a
All-middle P front a back h = (All-back P front (a ∷ back) h).0

-- A segment handed to the finalizer is of successive inputs of the whole run.
Take-whole :
    (P : Type 0) (float64_bits : ℤ → ℕ) (past unread all later : List (Input P)) (seg : Segment)
    → all ≡ past ++ unread
    → Take P float64_bits past later seg
    → Take P float64_bits all (later ++ unread) seg
Take-whole P float64_bits past unread all later seg form t = record {
  answers = t.answers;
  info = t.info;
  audio_info = t.audio_info;
  head = t.head;
  events = t.events;
  earlier = t.earlier;
  during = t.during;
  is_past =
      form
      ∙ ap (λ l. l ++ unread) t.is_past
      ∙ append_assoc t.earlier (t.during ++ later) unread
      ∙ ap (λ l. t.earlier ++ l) (append_assoc t.during later unread);
  is_taken = t.is_taken;
  is_opened = t.is_opened;
  is_written = t.is_written;
  starts_with_key = t.starts_with_key;
  one_source = t.one_source;
  is_unfinished = t.is_unfinished;
}

-- When no packet of sound failed to be written, every file that the finalizer reports is that of a
-- segment for which the inputs of the run have a part, one after another, such that: the file reads,
-- behind its head, as exactly the frames of what a recording of the segment's source takes of these
-- inputs, which is every unit without a discontinuity, and every packet without one that is not of
-- another source, each once and in order; the first of these is a key frame, and none is of another
-- source. The head is that of a writer opened without an error. The file has the segment's final
-- path. A source with the number 0 is not another one.
pub finalize-reads :
    (P : Type 0) (float64_bits : ℤ → ℕ) (texts : Texts) (settings : Settings)
    (inputs : List (Moment × Input P)) (r : Recorder) (front back : List (Segment × ℕ))
    (seg seg' : Segment) (at : ℕ) (answers : FinishAnswers) (size : Option ℕ) (file : CompletedFile)
    → run_all texts float64_bits settings inputs new_recorder ≡ some r
    → All IsHarmless r.effects
    → r.requests ≡ front ++ (seg, at) ∷ back
    → finalize answers size (seg, at) ≡ (on_completed file, seg')
    → (file.path ≡ seg'.final_path)
      × ((earlier : List (Input P)) × (during : List (Input P)) × (later : List (Input P))
          × (inputs_of inputs ≡ earlier ++ (during ++ later))
          × StartsWithKey (taken_from seg.generation during)
          × All (IsFrom seg.generation) (taken_from seg.generation during)
          × ((writes : List (Option ℕ)) × (info : Info) × (sound : AudioInfo) × (head : Writer)
              × (body : Bytes) × (new_with_audio float64_bits writes info sound ≡ (ok tt, head))
              × (seg'.writer.content ≡ head.content ++ body)
              × ReadsClusters body
                  (frames_of (hears sound) none (taken_from seg.generation during))))
unfolding RequestTake record_all Sound finalize IsReportOf
finalize-reads P float64_bits texts settings inputs r front back seg seg' at answers size file ran
      harmless is e =
    let (received, unread, form, sound) =
      run_all-Received P float64_bits texts settings inputs r ran in
    let (later, took) =
      All-middle (RequestTake P float64_bits received) front (seg, at) back
        (subst (All (RequestTake P float64_bits received)) is (sound harmless).before) in
    let take : Take P float64_bits (inputs_of inputs) (later ++ unread) seg =
      Take-whole P float64_bits received unread _ later seg form took in
    let (ended, (path, _)) = report_finish-completed size (finish answers at seg) seg' file e in
    let closed = finish-close answers at seg seg' take.is_unfinished ended in
    let recorded : record_all take.events take.head ≡ (ok tt, seg'.writer) =
      rw (take.is_written) closed in
    let (body, content, reads) =
      record_all-reads float64_bits take.answers take.info take.audio_info take.events take.head
        seg'.writer take.is_opened recorded in
    (
      path,
      (
        take.earlier,
        take.during,
        later ++ unread,
        take.is_past,
        subst StartsWithKey take.is_taken take.starts_with_key,
        subst (All (IsFrom seg.generation)) take.is_taken take.one_source,
        (
          take.answers,
          take.info,
          take.audio_info,
          take.head,
          body,
          take.is_opened,
          content,
          subst (λ events. ReadsClusters body (frames_of (hears take.audio_info) none events))
              take.is_taken reads,
        ),
      ),
    )
