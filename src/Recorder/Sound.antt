-- ===== src/Recorder/Sound.antt =====
-- What the segments of internal/recording/recorder.go hold through a whole run.
use fragata.Base.{
  ℕ, ◌≡◌, refl, sym, subst, Bool, true, false, not, ◌||◌, ℤ, List, [], ◌∷◌, ◌++◌, Option, none,
  some, All, All-append, if◌then◌else◌, arith, split_if, split_option,
}
use fragata.Hub.{AccessUnit}
use fragata.Matroska.Ebml.{Outcome, ok, err, panicked}
use fragata.Matroska.Writer.{Writer, write_access_unit, close}
use fragata.Matroska.Events.{video}
use fragata.Matroska.Refines.Run.{write_event}
use fragata.Recorder.Segments.{
  Segment, Moment, Opening, opened, refused, crashed, Texts, Settings, Effect, reported, removed,
  preserved, started, sound_not_written, not_rotated, announce,
}
use fragata.Recorder.Steps.{
  Input, unit_in, Recorder, with_effects, request, cut, finish_all, differ, is_end_of, is_other,
  ready, begin_with, after_write, preserve, write_unit, rotate_with, current_duration, is_rotation,
  open_with, take_unit, on_unit,
}
use fragata.Recorder.Takes.{
  Take, Take-later, Take-none, taken_of, Take-one, IsBegun, open_with-IsBegun,
}

-- No packet of sound failed to be written.
unfoldable pub IsHarmless : Effect → Type 0
IsHarmless (started path at) = Unit
IsHarmless (reported (sound_not_written e)) = ⊥
IsHarmless (reported e) = Unit
IsHarmless (removed path) = Unit
IsHarmless (preserved seg) = Unit

All-front {ℓ κ} :
    {A : Type ℓ} (P : A → Type κ) (front back : List A) → All P (front ++ back) → All P front
All-front P [] back h = tt
All-front P (x ∷ front) back h = (h.0, All-front P front back h.1)

pub All-back {ℓ κ} :
    {A : Type ℓ} (P : A → Type κ) (front back : List A) → All P (front ++ back) → All P back
All-back P [] back h = h
All-back P (x ∷ front) back h = All-back P front back h.1

module _ (P : Type 0) (float64_bits : ℤ → ℕ) where
  unfoldable pub OptionTake : List (Input P) → Option Segment → Type 0
  OptionTake past none = Unit
  OptionTake past (some seg) = Take P float64_bits past [] seg

  unfoldable pub RequestTake : List (Input P) → Segment × ℕ → Type 0
  RequestTake past (seg, at) = (later : List (Input P)) × Take P float64_bits past later seg

  pub record Takes (past : List (Input P)) (r : Recorder) : Type 0 where
    pub now : OptionTake past r.current
    pub before : All (RequestTake past) r.requests

  -- After these inputs, the current segment and all that were handed over are right.
  unfoldable pub Sound : List (Input P) → Recorder → Type 0
  Sound past r = All IsHarmless r.effects → Takes past r

  -- A run that does not panic.
  unfoldable pub Sounds : List (Input P) → Option Recorder → Type 0
  Sounds past none = Unit
  Sounds past (some r) = Sound past r

  -- A segment at hand in a run.
  unfoldable pub TakeIn : List (Input P) → Recorder → Segment → Type 0
  TakeIn past r seg = All IsHarmless r.effects → Take P float64_bits past [] seg

  requests-later :
      (past : List (Input P)) (input : Input P) (requests : List (Segment × ℕ))
      → All (RequestTake past) requests
      → All (RequestTake (past ++ input ∷ [])) requests
  unfolding RequestTake
  requests-later past input [] all = tt
  requests-later past input ((seg, at) ∷ requests) ((later, t), all) = (
    (later ++ input ∷ [], Take-later P float64_bits past later input seg t),
    requests-later past input requests all,
  )

  option-later :
      (past : List (Input P)) (input : Input P) (o : Option Segment)
      → ((seg : Segment) → o ≡ some seg → taken_of seg.generation input ≡ [])
      → OptionTake past o
      → OptionTake (past ++ input ∷ []) o
  unfolding OptionTake
  option-later past input none nothing t = tt
  option-later past input (some seg) nothing t =
      Take-none P float64_bits past input seg (nothing seg refl) t

  -- An input of which the current segment takes nothing.
  pub skip-Sound :
      (past : List (Input P)) (input : Input P) (r : Recorder)
      → ((seg : Segment) → r.current ≡ some seg → taken_of seg.generation input ≡ [])
      → Sound past r
      → Sound (past ++ input ∷ []) r
  unfolding Sound
  skip-Sound past input r nothing h harmless =
      let t = h harmless in
      record {
        now = option-later past input r.current nothing t.now;
        before = requests-later past input r.requests t.before;
      }

  idle-Sound :
      (past : List (Input P)) (input : Input P) (r : Recorder)
      → r.current ≡ none
      → Sound past r
      → Sound (past ++ input ∷ []) r
  idle-Sound past input r idle h = skip-Sound past input r (λ seg is. absurd (cc)) h

  pub with_effects-Sound :
      (past : List (Input P)) (effects : List Effect) (r : Recorder)
      → Sound past r
      → Sound past (with_effects effects r)
  unfolding Sound
  with_effects-Sound past effects r h harmless =
      let t = h (All-front IsHarmless r.effects effects harmless) in
      record { now = t.now; before = t.before }

  pub current-Sound :
      (past : List (Input P)) (input : Input P) (seg : Segment) (r : Recorder)
      → TakeIn (past ++ input ∷ []) r seg
      → Sound past r
      → Sound (past ++ input ∷ []) (record r { current = some seg })
  unfolding Sound OptionTake TakeIn
  current-Sound past input seg r take h harmless = record {
    now = take harmless;
    before = requests-later past input r.requests (h harmless).before;
  }

  none-Sound :
      (past : List (Input P)) (input : Input P) (r : Recorder)
      → Sound past r
      → Sound (past ++ input ∷ []) (record r { current = none })
  unfolding Sound OptionTake
  none-Sound past input r h harmless = record {
    now = tt;
    before = requests-later past input r.requests (h harmless).before;
  }

  request-Sound :
      (past : List (Input P)) (m : Moment) (seg : Segment) (r : Recorder)
      → r.current ≡ some seg
      → Sound past r
      → Sound past (request m seg r)
  unfolding Sound OptionTake RequestTake
  request-Sound past m seg r is harmless_takes harmless =
      let t = harmless_takes harmless in
      record {
        now = tt;
        before =
            All-append (RequestTake past) r.requests ((seg, m.cut_at) ∷ []) t.before
              (([], subst (OptionTake past) is t.now), tt);
      }

  cut-Sound :
      (past : List (Input P)) (m : Moment) (r : Recorder) → Sound past r → Sound past (cut m r)
  unfolding cut
  cut-Sound past m r h =
      split_option (Sound past) r.current r (λ seg. request m seg r) (λ _. h)
        (λ seg is. request-Sound past m seg r is h)

  cut-none : (m : Moment) (r : Recorder) → (cut m r).current ≡ none
  unfolding cut
  cut-none m r =
      split_option (λ v. v.current ≡ none) r.current r (λ seg. request m seg r) (λ is. is)
        (λ _ _. refl)

  cut_if-other :
      (m : Moment) (generation : ℕ) (r : Recorder)
      → is_other generation (if is_other generation r.current then cut m r else r).current ≡ false
  cut_if-other m generation r =
      split_if (λ v. is_other generation v.current ≡ false) (is_other generation r.current)
        (cut m r) r (λ _. subst (λ o. is_other generation o ≡ false) (sym (cut-none m r)) refl)
        (λ from. from)

  pub cut_if-Sound :
      (past : List (Input P)) (b : Bool) (m : Moment) (r : Recorder)
      → Sound past r
      → Sound past (if b then cut m r else r)
  cut_if-Sound past b m r h =
      split_if (Sound past) b (cut m r) r (λ _. cut-Sound past m r h) (λ _. h)

  -- The end of `Run`.
  pub finish_all-Sound :
      (past : List (Input P)) (input : Input P) (m : Moment) (r : Recorder)
      → Sound past r
      → Sound (past ++ input ∷ []) (finish_all m r)
  unfolding finish_all Sound
  finish_all-Sound past input m r h harmless =
      let t = idle-Sound past input (cut m r) (cut-none m r) (cut-Sound past m r h) harmless in
      record { now = t.now; before = t.before }

  announced-Take :
      (past : List (Input P)) (seg : Segment)
      → Take P float64_bits past [] seg
      → Take P float64_bits past [] (announce seg).0
  unfolding announce
  announced-Take past seg t =
      split_if {A = Segment × List Effect} (λ p. Take P float64_bits past [] p.0) seg.announced
        (seg, []) _ (λ _. t)
        (λ _. record {
          answers = t.answers;
          info = t.info;
          audio_info = t.audio_info;
          head = t.head;
          events = t.events;
          earlier = t.earlier;
          during = t.during;
          is_past = t.is_past;
          is_taken = t.is_taken;
          is_opened = t.is_opened;
          is_written = t.is_written;
          starts_with_key = t.starts_with_key;
          one_source = t.one_source;
          is_unfinished = t.is_unfinished;
        })

  begin_with-Sounds :
      (past : List (Input P)) (input : Input P) (o : Opening) (r : Recorder)
      → r.current ≡ none
      → IsBegun P float64_bits (past ++ input ∷ []) o
      → Sound past r
      → Sounds (past ++ input ∷ []) (begin_with o r)
  unfolding begin_with IsBegun Sounds TakeIn
  begin_with-Sounds past input (opened seg) r idle take h =
      with_effects-Sound _ (announce seg).1 _
        (current-Sound past input (announce seg).0 r (λ _. announced-Take _ seg take) h)
  begin_with-Sounds past input (refused effects e) r idle take h =
      with_effects-Sound _ (effects ++ reported e ∷ []) r (idle-Sound past input r idle h)
  begin_with-Sounds past input crashed r idle take h = tt

  preserve-Sounds :
      (past : List (Input P)) (seg : Segment) (o : Outcome (Unit {0}) × Writer) (r : Recorder)
      → Sound past r
      → Sounds past (preserve seg o r)
  unfolding preserve Sounds
  preserve-Sounds past seg (ok _, w) r h = with_effects-Sound past _ r h
  preserve-Sounds past seg (err e, w) r h = with_effects-Sound past _ r h
  preserve-Sounds past seg (panicked, w) r h = tt

  after_write-Sounds :
      (past : List (Input P)) (seg : Segment) (au : AccessUnit) (o : Outcome (Unit {0}) × Writer)
      (r : Recorder)
      → write_access_unit au seg.writer ≡ o
      → differ au.generation seg.generation ≡ false
      → au.discontinuity ≡ false
      → TakeIn past r seg
      → Sound past r
      → Sounds (past ++ unit_in (some au) ∷ []) (after_write seg o r)
  unfolding after_write Sounds write_event TakeIn taken_of
  after_write-Sounds past seg au (ok _, w) r e from going take h =
      current-Sound past (unit_in (some au)) (record seg { writer = w }) r
        (λ harmless.
          Take-one P float64_bits past (unit_in (some au)) seg (video au) w (take harmless) e from
            (rw going refl))
        h
  after_write-Sounds past seg au (err _, w) r e from going take h =
      preserve-Sounds _ seg (close w) _ (
        with_effects-Sound _ _ (record r { current = none })
          (none-Sound past (unit_in (some au)) r h))
  after_write-Sounds past seg au (panicked, w) r e from going take h = tt

  -- A segment of the recorder, which a unit of its source comes to.
  rotate_with-Sounds :
      (past : List (Input P)) (m : Moment) (au : AccessUnit) (seg : Segment) (o : Opening)
      (r : Recorder)
      → r.current ≡ some seg
      → IsBegun P float64_bits (past ++ unit_in (some au) ∷ []) o
      → differ au.generation seg.generation ≡ false
      → au.discontinuity ≡ false
      → TakeIn past r seg
      → Sound past r
      → Sounds (past ++ unit_in (some au) ∷ []) (rotate_with m au seg o r)
  unfolding rotate_with write_unit IsBegun Sounds TakeIn
  rotate_with-Sounds past m au seg (opened next) r is begun from going take h =
      current-Sound past (unit_in (some au)) (announce next).0 _ (λ _. announced-Take _ next begun)
        (with_effects-Sound past (announce next).1 (request m seg r)
          (request-Sound past m seg r is h))
  rotate_with-Sounds past m au seg (refused effects e) r is begun from going take h =
      after_write-Sounds past seg au _ _ refl from going
        (λ harmless. take (All-front IsHarmless r.effects _ harmless))
        (with_effects-Sound past (effects ++ reported (not_rotated e) ∷ []) r h)
  rotate_with-Sounds past m au seg crashed r is begun from going take h = tt

  pub take-TakeIn :
      (past : List (Input P)) (r : Recorder) (seg : Segment)
      → r.current ≡ some seg
      → Sound past r
      → TakeIn past r seg
  unfolding Sound TakeIn OptionTake
  take-TakeIn past r seg is h harmless = subst (OptionTake past) is (h harmless).now

  module _ (texts : Texts) (settings : Settings) (past : List (Input P)) where
    take_unit-Sounds :
        (m : Moment) (au : AccessUnit) (r : Recorder)
        → is_other au.generation r.current ≡ false
        → au.discontinuity ≡ false
        → Sound past r
        → Sounds (past ++ unit_in (some au) ∷ []) (take_unit texts float64_bits settings m au r)
    unfolding take_unit open_with write_unit is_rotation Sounds
    take_unit-Sounds m au r from going h =
        let past' = past ++ unit_in (some au) ∷ [] in
        let begun : au.key_frame ≡ true
            → IsBegun P float64_bits past' (open_with texts float64_bits settings m au) =
          λ key. open_with-IsBegun P float64_bits texts settings m past au key going in
        split_option (Sounds past') r.current _ _
          (λ idle.
            split_if (Sounds past') (not au.key_frame || not (ready m.info)) _ _
              (λ _. idle-Sound past (unit_in (some au)) r idle h)
              (λ may. begin_with-Sounds past _ _ r idle (begun (ground (arith, may))) h))
          (λ seg is.
            let take = take-TakeIn past r seg is h in
            let from' = subst (λ o. is_other au.generation o ≡ false) is from in
            split_if (Sounds past')
              (is_rotation (current_duration m.provided settings.segment_duration) m au seg) _ _
              (λ may.
                rotate_with-Sounds past m au seg _ r is (begun (ground (arith, may))) from' going
                  take h)
              (λ _. after_write-Sounds past seg au _ r refl from' going take h))

    pub on_unit-Sounds :
        (m : Moment) (au : AccessUnit) (r : Recorder)
        → Sound past r
        → Sounds (past ++ unit_in (some au) ∷ []) (on_unit texts float64_bits settings m au r)
    unfolding on_unit Sounds taken_of
    on_unit-Sounds m au r h =
        split_if (Sounds (past ++ unit_in (some au) ∷ [])) au.discontinuity _ _
          (λ broken.
            skip-Sound past (unit_in (some au)) _ (λ seg _. rw broken refl)
              (cut_if-Sound past (is_end_of au.generation r.current) m r h))
          (λ going.
            take_unit-Sounds m au _ (cut_if-other m au.generation r) going
              (cut_if-Sound past (is_other au.generation r.current) m r h))
