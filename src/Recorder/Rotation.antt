-- ===== src/Recorder/Rotation.antt =====
-- The change of segments in internal/recording/recorder.go.
use fragata.Base.{
  ◌≡◌, ◌⊎◌, inl, inr, refl, sym, ap, subst, ◌∙◌, true, false, ℤ, ℕ, List, [], ◌∷◌, ◌++◌, Option,
  none, some, if◌then◌else◌, split_if, split_option,
}
use fragata.Hub.{AccessUnit}
use fragata.Matroska.Ebml.{Outcome, ok, err, panicked}
use fragata.Matroska.Writer.{Writer, write_access_unit}
use fragata.Recorder.Segments.{
  Segment, Effect, Moment, Opening, opened, refused, crashed, Texts, Settings, begun, with_first,
  announce, started,
}
use fragata.Recorder.Steps.{
  Recorder, is_other, current_duration, after_write, write_unit, rotate_with, is_rotation,
  open_with, take_unit, on_unit, cut,
}

-- A segment that was opened has the unit.
IsFirst : AccessUnit → Opening → Type 0
IsFirst au (opened seg) = (v : Writer) × (write_access_unit au v ≡ (ok tt, seg.writer))
IsFirst au (refused effects e) = Unit
IsFirst au crashed = Unit

begun-IsFirst :
    (au : AccessUnit) (seg : Segment) (r : Outcome (Unit {0}) × Writer)
    → write_access_unit au seg.writer ≡ r
    → IsFirst au (begun seg r)
unfolding begun IsFirst
begun-IsFirst au seg (ok _, w) e = (seg.writer, e)
begun-IsFirst au seg (err _, w) e = tt
begun-IsFirst au seg (panicked, w) e = tt

with_first-IsFirst : (au : AccessUnit) (o : Opening) → IsFirst au (with_first au o)
unfolding with_first IsFirst
with_first-IsFirst au (opened seg) = begun-IsFirst au seg _ refl
with_first-IsFirst au (refused effects e) = tt
with_first-IsFirst au crashed = tt

announce-writer : (seg : Segment) → (announce seg).0.writer ≡ seg.writer
unfolding announce
announce-writer seg =
    split_if {A = Segment × List Effect} (λ p. p.0.writer ≡ seg.writer) seg.announced (seg, [])
      (record seg { announced = true }, started seg.partial_path seg.started_at ∷ []) (λ _. refl)
      (λ _. refl)

-- Where a unit for a segment goes: into it, or into the next, which is current when the segment is
-- handed over.
abbrev pub IsKept : Moment → AccessUnit → Segment → Writer → Recorder → Recorder → Type 0
IsKept m au seg w r r' =
    (r'.current ≡ some (record seg { writer = w }))
    ⊎ ((next : Segment) × (v : Writer) × (r'.current ≡ some next)
        × (write_access_unit au v ≡ (ok tt, next.writer))
        × (r'.requests ≡ r.requests ++ (seg, m.cut_at) ∷ []))

some-inj : (seg s : Segment) → some seg ≡ some s → seg ≡ s
some-inj seg s e = ap (λ o. elim o as (λ _. Segment) [ none ↦ seg | some t ↦ t ]) e

module _ (m : Moment) (au : AccessUnit) (seg : Segment) (w : Writer) (r : Recorder) where
  Keeps : Option Recorder → Type 0
  Keeps none = Unit
  Keeps (some r') = IsKept m au seg w r r'

  write_unit-Keeps :
      (u : Recorder) → write_access_unit au seg.writer ≡ (ok tt, w) → Keeps (write_unit au seg u)
  unfolding write_unit after_write Keeps
  write_unit-Keeps u e = rw (write_unit, e) (inl refl)

  rotate_with-Keeps :
      (o : Opening)
      → IsFirst au o
      → write_access_unit au seg.writer ≡ (ok tt, w)
      → Keeps (rotate_with m au seg o r)
  unfolding rotate_with Keeps IsFirst
  rotate_with-Keeps (opened next) (v, first) e =
      inr (
        (announce next).0,
        v,
        refl,
        first ∙ ap (λ u. (ok tt, u)) (sym (announce-writer next)),
        refl,
      )
  rotate_with-Keeps (refused effects f) first e = write_unit-Keeps _ e
  rotate_with-Keeps crashed first e = tt

  take_unit-Keeps :
      (texts : Texts) (float64_bits : ℤ → ℕ) (settings : Settings)
      → r.current ≡ some seg
      → write_access_unit au seg.writer ≡ (ok tt, w)
      → Keeps (take_unit texts float64_bits settings m au r)
  unfolding take_unit open_with
  take_unit-Keeps texts float64_bits settings is e =
      let opening = open_with texts float64_bits settings m au in
      let either = λ (s : Segment).
        if is_rotation (current_duration m.provided settings.segment_duration) m au s
        then rotate_with m au s opening r
        else write_unit au s r in
      let kept =
        split_if Keeps
          (is_rotation (current_duration m.provided settings.segment_duration) m au seg) _ _
          (λ _. rotate_with-Keeps opening (with_first-IsFirst au _) e)
          (λ _. write_unit-Keeps r e) in
      split_option Keeps r.current _ either (λ nothing. absurd (cc (nothing, is)))
        (λ s at. subst (λ t. Keeps (either t)) (some-inj seg s (sym is ∙ at)) kept)

  on_unit-Keeps :
      (texts : Texts) (float64_bits : ℤ → ℕ) (settings : Settings)
      → au.discontinuity ≡ false
      → r.current ≡ some seg
      → is_other au.generation (some seg) ≡ false
      → write_access_unit au seg.writer ≡ (ok tt, w)
      → Keeps (on_unit texts float64_bits settings m au r)
  unfolding on_unit
  on_unit-Keeps texts float64_bits settings continues is same e =
      let from = subst (λ o. is_other au.generation o ≡ false) (sym is) same in
      let uncut : (if is_other au.generation r.current then cut m r else r) ≡ r =
        split_if (λ u. u ≡ r) (is_other au.generation r.current) (cut m r) r
          (λ other. absurd (cc (other, from))) (λ _. refl) in
      split_if Keeps au.discontinuity _ _ (λ broken. absurd (cc (broken, continues)))
        (λ _.
          subst (λ u. Keeps (take_unit texts float64_bits settings m au u)) (sym uncut)
            (take_unit-Keeps texts float64_bits settings is e))

-- No unit is lost while a segment is recorded: when a unit of the segment's source can be written to
-- it, and the recorder does not panic, then the unit is written to it or to the next segment, which
-- takes its place when it is handed over; also when the next segment cannot be opened.
pub on_unit-IsKept :
    (texts : Texts) (float64_bits : ℤ → ℕ) (settings : Settings) (m : Moment) (au : AccessUnit)
    (seg : Segment) (w : Writer) (r r' : Recorder)
    → au.discontinuity ≡ false
    → r.current ≡ some seg
    → is_other au.generation (some seg) ≡ false
    → write_access_unit au seg.writer ≡ (ok tt, w)
    → on_unit texts float64_bits settings m au r ≡ some r'
    → IsKept m au seg w r r'
unfolding Keeps
on_unit-IsKept texts float64_bits settings m au seg w r r' continues is same e ran =
    subst (Keeps m au seg w r) ran
      (on_unit-Keeps m au seg w r texts float64_bits settings continues is same e)
