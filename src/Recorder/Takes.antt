-- ===== src/Recorder/Takes.antt =====
-- What a segment of internal/recording/recorder.go holds: the events written to it.
use mathlib.Core.List.{append_assoc, append-nil}
use fragata.Base.{
  ℕ, ◌≡◌, refl, sym, ap, ◌∙◌, subst, some, ◌||◌, Bool, true, false, ℤ, List, [], ◌∷◌, ◌++◌, Bytes,
  Option, All, All-append, if◌then◌else◌, arith,
}
use fragata.Hub.{Info, AudioInfo, AccessUnit}
use fragata.Matroska.Ebml.{Outcome, ok, err, panicked}
use fragata.Matroska.Writer.{Writer, after, new_with_audio, write_access_unit}
use fragata.Matroska.Events.{Event, video, audio}
use fragata.Matroska.Refines.Run.{write_event, write_all}
use fragata.Recorder.Segments.{
  Segment, Moment, Opening, opened, refused, crashed, begun, with_first, opened_file, start_named,
  start, Texts, Settings, Named, named, unnamed,
}
use fragata.Recorder.Steps.{Input, unit_in, sound_in, differ}

write_all-one :
    {P : Type 0} (events : List (Event P)) (e : Event P) (v w w' : Writer)
    → write_all events v ≡ (ok tt, w)
    → write_event e w ≡ (ok tt, w')
    → write_all (events ++ e ∷ []) v ≡ (ok tt, w')
unfolding write_all
write_all-one {P} [] e v w w' first second =
    subst (λ u. after (write_event e u) (λ _. write_all {P = P} []) ≡ (ok tt, w'))
      (sym (ap (λ r. r.1) first)) (rw second refl)
write_all-one (x ∷ events) e v w w' first second =
    behind (λ u h. write_all-one events e u w w' h second) (write_event x v) first
  where
    behind :
        ((u : Writer)
          → write_all events u ≡ (ok tt, w)
          → write_all (events ++ e ∷ []) u ≡ (ok tt, w'))
        → (r : Outcome (Unit {0}) × Writer) → after r (λ _. write_all events) ≡ (ok tt, w)
        → after r (λ _. write_all (events ++ e ∷ [])) ≡ (ok tt, w')
    behind next (ok _, u) h = next u h
    behind next (err _, u) h = absurd cc
    behind next (panicked, u) h = absurd cc

module _ {P : Type 0} where
  abbrev pub source_of : Event P → ℕ
  source_of (video au) = au.generation
  source_of (audio packet) = packet.generation

  -- An event that is not of another source.
  abbrev pub IsFrom : ℕ → Event P → Type 0
  IsFrom generation e = differ (source_of e) generation ≡ false

  unfoldable pub StartsWithKey : List (Event P) → Type 0
  StartsWithKey [] = ⊥
  StartsWithKey (video au ∷ events) = au.key_frame ≡ true
  StartsWithKey (audio packet ∷ events) = ⊥

  StartsWithKey-append :
      (events more : List (Event P)) → StartsWithKey events → StartsWithKey (events ++ more)
  unfolding StartsWithKey
  StartsWithKey-append [] more h = absurd h
  StartsWithKey-append (video au ∷ events) more h = h
  StartsWithKey-append (audio packet ∷ events) more h = absurd h

  -- What a recording of this source takes of an input: a unit or packet that is no break, and a packet
  -- only where it is of the source.
  unfoldable pub taken_of : ℕ → Input P → List (Event P)
  taken_of generation (unit_in (some au)) = if au.discontinuity then [] else video au ∷ []
  taken_of generation (sound_in (some packet)) =
      if packet.discontinuity || differ packet.generation generation then [] else audio packet ∷ []
  taken_of generation input = []

  unfoldable pub taken_from : ℕ → List (Input P) → List (Event P)
  taken_from generation [] = []
  taken_from generation (input ∷ inputs) = taken_of generation input ++ taken_from generation inputs

  -- The inputs of a run, without their moments.
  unfoldable pub inputs_of : List (Moment × Input P) → List (Input P)
  inputs_of [] = []
  inputs_of ((m, input) ∷ inputs) = input ∷ inputs_of inputs

  pub taken_from-snoc :
      (generation : ℕ) (inputs : List (Input P)) (input : Input P)
      → taken_from generation (inputs ++ input ∷ [])
        ≡ taken_from generation inputs ++ taken_of generation input
  unfolding taken_from
  taken_from-snoc generation [] input = append-nil (taken_of generation input)
  taken_from-snoc generation (x ∷ inputs) input =
      ap (λ more. taken_of generation x ++ more) (taken_from-snoc generation inputs input)
      ∙ sym (
          append_assoc (taken_of generation x) (taken_from generation inputs)
            (taken_of generation input))

module _ (P : Type 0) where
  -- A segment whose writer was opened and then wrote these events without an error: a key frame
  -- first, all of the segment's source, and together all that a recording of this source takes of
  -- some successive inputs among the past ones. `later` are the inputs behind them.
  pub record Take (float64_bits : ℤ → ℕ) (past : List (Input P)) (later : List (Input P))
      (seg : Segment) : Type 0 where
    pub answers : List (Option ℕ)
    pub info : Info
    pub audio_info : AudioInfo
    pub head : Writer
    pub events : List (Event P)
    pub earlier : List (Input P)
    pub during : List (Input P)
    pub is_past : past ≡ earlier ++ (during ++ later)
    pub is_taken : events ≡ taken_from seg.generation during
    pub is_opened : new_with_audio float64_bits answers info audio_info ≡ (ok tt, head)
    pub is_written : write_all events head ≡ (ok tt, seg.writer)
    pub starts_with_key : StartsWithKey events
    pub one_source : All (IsFrom seg.generation) events
    pub is_unfinished : seg.finished ≡ false

  module _ (float64_bits : ℤ → ℕ) where
    -- The next input is behind a segment that is over.
    pub Take-later :
        (past later : List (Input P)) (input : Input P) (seg : Segment)
        → Take float64_bits past later seg
        → Take float64_bits (past ++ input ∷ []) (later ++ input ∷ []) seg
    Take-later past later input seg t = record {
      answers = t.answers;
      info = t.info;
      audio_info = t.audio_info;
      head = t.head;
      events = t.events;
      earlier = t.earlier;
      during = t.during;
      is_past =
          ap (λ l. l ++ input ∷ []) t.is_past
          ∙ append_assoc t.earlier (t.during ++ later) (input ∷ [])
          ∙ ap (λ l. t.earlier ++ l) (append_assoc t.during later (input ∷ []));
      is_taken = t.is_taken;
      is_opened = t.is_opened;
      is_written = t.is_written;
      starts_with_key = t.starts_with_key;
      one_source = t.one_source;
      is_unfinished = t.is_unfinished;
    }

    during-more :
        (past earlier during : List (Input P)) (input : Input P)
        → past ≡ earlier ++ (during ++ [])
        → past ++ input ∷ [] ≡ earlier ++ ((during ++ input ∷ []) ++ [])
    during-more past earlier during input e =
        ap (λ l. l ++ input ∷ []) e
        ∙ append_assoc earlier (during ++ []) (input ∷ [])
        ∙ ap (λ l. earlier ++ (l ++ input ∷ [])) (append-nil during)
        ∙ ap (λ l. earlier ++ l) (sym (append-nil (during ++ input ∷ [])))

    -- The next input, of which the segment takes nothing.
    pub Take-none :
        (past : List (Input P)) (input : Input P) (seg : Segment)
        → taken_of seg.generation input ≡ []
        → Take float64_bits past [] seg
        → Take float64_bits (past ++ input ∷ []) [] seg
    Take-none past input seg nothing t = record {
      answers = t.answers;
      info = t.info;
      audio_info = t.audio_info;
      head = t.head;
      events = t.events;
      earlier = t.earlier;
      during = t.during ++ input ∷ [];
      is_past = during-more past t.earlier t.during input t.is_past;
      is_taken =
          t.is_taken
          ∙ sym (append-nil (taken_from seg.generation t.during))
          ∙ ap (λ l. taken_from seg.generation t.during ++ l) (sym nothing)
          ∙ sym (taken_from-snoc seg.generation t.during input);
      is_opened = t.is_opened;
      is_written = t.is_written;
      starts_with_key = t.starts_with_key;
      one_source = t.one_source;
      is_unfinished = t.is_unfinished;
    }

    pub Take-one :
        (past : List (Input P)) (input : Input P) (seg : Segment) (e : Event P) (w : Writer)
        → Take float64_bits past [] seg
        → write_event e seg.writer ≡ (ok tt, w)
        → IsFrom seg.generation e
        → taken_of seg.generation input ≡ e ∷ []
        → Take float64_bits (past ++ input ∷ []) [] (record seg { writer = w })
    Take-one past input seg e w t written from takes = record {
      answers = t.answers;
      info = t.info;
      audio_info = t.audio_info;
      head = t.head;
      events = t.events ++ e ∷ [];
      earlier = t.earlier;
      during = t.during ++ input ∷ [];
      is_past = during-more past t.earlier t.during input t.is_past;
      is_taken =
          ap (λ l. l ++ e ∷ []) t.is_taken
          ∙ ap (λ l. taken_from seg.generation t.during ++ l) (sym takes)
          ∙ sym (taken_from-snoc seg.generation t.during input);
      is_opened = t.is_opened;
      is_written = write_all-one t.events e t.head seg.writer w t.is_written written;
      starts_with_key = StartsWithKey-append t.events (e ∷ []) t.starts_with_key;
      one_source = All-append (IsFrom seg.generation) t.events (e ∷ []) t.one_source (from, tt);
      is_unfinished = t.is_unfinished;
    }

    -- A segment with its first unit.
    unfoldable pub IsBegun : List (Input P) → Opening → Type 0
    IsBegun past (opened seg) = Take float64_bits past [] seg
    IsBegun past (refused effects e) = Unit
    IsBegun past crashed = Unit

    -- A segment without one.
    unfoldable pub IsFresh : ℕ → Opening → Type 0
    IsFresh generation (opened seg) =
        (answers : List (Option ℕ)) × (info : Info) × (sound : AudioInfo) × (new_with_audio
            float64_bits answers info sound
          ≡ (ok tt, seg.writer))
        × (seg.generation ≡ generation)
        × (seg.finished ≡ false)
    IsFresh generation (refused effects e) = Unit
    IsFresh generation crashed = Unit

    opened_file-IsFresh :
        (texts : Texts) (m : Moment) (generation : ℕ) (partial final : Bytes)
        (r : Outcome (Unit {0}) × Writer)
        → new_with_audio float64_bits m.writes m.info m.audio_info ≡ r
        → IsFresh generation (opened_file texts float64_bits m generation partial final r)
    unfolding opened_file IsFresh
    opened_file-IsFresh texts m generation partial final (ok _, w) e =
        (m.writes, m.info, m.audio_info, e, refl, refl)
    opened_file-IsFresh texts m generation partial final (err _, w) e = tt
    opened_file-IsFresh texts m generation partial final (panicked, w) e = tt

    start_named-IsFresh :
        (texts : Texts) (m : Moment) (generation : ℕ) (n : Named)
        → IsFresh generation (start_named texts float64_bits m generation n)
    unfolding start_named IsFresh
    start_named-IsFresh texts m generation (named partial final) =
        opened_file-IsFresh texts m generation partial final _ refl
    start_named-IsFresh texts m generation (unnamed e) = tt

    if-IsFresh :
        (generation : ℕ) (b : Bool) (x y : Opening)
        → IsFresh generation x
        → IsFresh generation y
        → IsFresh generation (if b then x else y)
    if-IsFresh generation true x y h k = h
    if-IsFresh generation false x y h k = k

    start-IsFresh :
        (texts : Texts) (settings : Settings) (m : Moment) (generation : ℕ)
        → IsFresh generation (start texts float64_bits settings m generation)
    unfolding start IsFresh
    start-IsFresh texts settings m generation =
        if-IsFresh generation m.makes_dir _ _ (start_named-IsFresh texts m generation _) tt

    differ-same : (generation : ℕ) → differ generation generation ≡ false
    differ-same generation = ground arith

    begun-IsBegun :
        (past : List (Input P)) (seg : Segment) (au : AccessUnit) (r : Outcome (Unit {0}) × Writer)
        → au.key_frame ≡ true
        → au.discontinuity ≡ false
        → IsFresh au.generation (opened seg)
        → write_access_unit au seg.writer ≡ r
        → IsBegun (past ++ unit_in (some au) ∷ []) (begun seg r)
    unfolding begun IsBegun IsFresh StartsWithKey write_all write_event taken_from taken_of
    begun-IsBegun past seg au (ok _, w) key going
          (answers, info, sound, is_opened, same, unfinished) e =
        record {
          answers = answers;
          info = info;
          audio_info = sound;
          head = seg.writer;
          events = video au ∷ [];
          earlier = past;
          during = unit_in (some au) ∷ [];
          is_past = refl;
          is_taken = rw going refl;
          is_opened = is_opened;
          is_written = write_all-one {P = P} [] (video au) seg.writer seg.writer w refl e;
          starts_with_key = key;
          one_source = (
            subst (λ g. differ au.generation g ≡ false) (sym same) (differ-same au.generation),
            tt,
          );
          is_unfinished = unfinished;
        }
    begun-IsBegun past seg au (err _, w) key going h e = tt
    begun-IsBegun past seg au (panicked, w) key going h e = tt

    with_first-IsBegun :
        (past : List (Input P)) (au : AccessUnit) (o : Opening)
        → au.key_frame ≡ true
        → au.discontinuity ≡ false
        → IsFresh au.generation o
        → IsBegun (past ++ unit_in (some au) ∷ []) (with_first au o)
    unfolding with_first IsBegun
    with_first-IsBegun past au (opened seg) key going h =
        begun-IsBegun past seg au _ key going h refl
    with_first-IsBegun past au (refused effects e) key going h = tt
    with_first-IsBegun past au crashed key going h = tt

    pub open_with-IsBegun :
        (texts : Texts) (settings : Settings) (m : Moment) (past : List (Input P)) (au : AccessUnit)
        → au.key_frame ≡ true
        → au.discontinuity ≡ false
        → IsBegun
            (past ++ unit_in (some au) ∷ [])
            (with_first au (start texts float64_bits settings m au.generation))
    open_with-IsBegun texts settings m past au key going =
        with_first-IsBegun past au _ key going (start-IsFresh texts settings m au.generation)
