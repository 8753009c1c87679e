-- ===== src/Matroska/Refines/Run.antt =====
-- A whole recording of internal/matroska/writer.go.
use mathlib.Core.List.{append-nil, append_assoc}
use fragata.Base.{
  ℕ, ◌<◌, ◌≡◌, refl, sym, ap, subst, ◌∙◌, inl, inr, Bool, true, false, not, ◌||◌, ℤ, pos, pos_part,
  lt_int, List, [], ◌∷◌, ◌++◌, Bytes, Option, none, some, if◌then◌else◌, Bool-cases, arith,
}
use fragata.Hub.{AudioInfo, AccessUnit, AudioPacket, is_nil}
use fragata.Matroska.Ebml.{ok}
use fragata.Matroska.Writer.{
  Writer, M, after, flush_cluster, write_at, frame, with_origin, write_access_unit, write_audio,
  close, milliseconds, sub64,
}
use fragata.Matroska.Frames.{Frame, ReadsClusters, Clusters-read}
use fragata.Matroska.Events.{
  Event, video, audio, since, origin_or, video_origin, origin_after, audio_frames, video_frames,
  frames_of_event, frames_of, frame_at,
}
use fragata.Matroska.Refines.Adding.{write_at-Holds}
use fragata.Matroska.Refines.{
  Ensures, Ensures-after, Ensures-weaken, Holds, Flushed, Kept, flush_cluster-Flushed,
}

unfoldable pub write_event : {P : Type 0} → Event P → M (Unit {0})
write_event (video au) = write_access_unit au
write_event (audio packet) = write_audio packet

unfoldable pub write_all : {P : Type 0} → List (Event P) → M (Unit {0})
write_all [] w = (ok tt, w)
write_all (e ∷ events) w = after (write_event e w) (λ _. write_all events)

since-small : (origin pts : ℤ) → pos_part (since origin pts) < 18_446_744_073_709_551_616
unfolding milliseconds sub64
since-small origin pts = ground arith

-- The writer's origin, and whether it records sound.
unfoldable pub Origin : Option ℤ → Bool → ℤ → Type 0
Origin none set origin = set ≡ false
Origin (some o) set origin = (set ≡ true) × (origin ≡ o)

pub record Follows (head : Bytes) (heard : Bool) (origin : Option ℤ) (fs : List Frame) (w : Writer)
    : Type 0 where
  pub holds : Holds head fs w
  pub at_origin : Origin origin w.origin_set w.origin
  pub hears : not (is_nil w.audio_info.codec) ≡ heard
  pub is_open : w.closed ≡ false

Follows-Kept :
    (head : Bytes) (heard : Bool) (origin : Option ℤ) (fs gs : List Frame) (w w' : Writer)
    → Follows head heard origin fs w
    → Kept w w'
    → Holds head gs w'
    → Follows head heard origin gs w'
Follows-Kept head heard origin fs gs w w' h k holds = record {
  holds = holds;
  at_origin =
      subst (λ set. Origin origin set w'.origin) (sym k.origin_set_kept)
        (subst (λ o. Origin origin w.origin_set o) (sym k.origin_kept) h.at_origin);
  hears = ap (λ (a : AudioInfo). not (is_nil a.codec)) k.audio_kept ∙ h.hears;
  is_open = k.closed_kept ∙ h.is_open;
}

with_origin-Follows :
    (head : Bytes) (heard : Bool) (origin : Option ℤ) (fs : List Frame) (pts : ℤ) (w : Writer)
    → Follows head heard origin fs w
    → Follows head heard (some (origin_or origin pts)) fs (with_origin pts w)
      × ((with_origin pts w).origin ≡ origin_or origin pts)
unfolding Origin
with_origin-Follows head heard none fs pts w h =
    let set = record w { origin = pts; origin_set = true } in
    let same : with_origin pts w ≡ set = simp h.at_origin refl in
    let holds = h.holds in
    subst (λ v. Follows head heard (some pts) fs v × (v.origin ≡ pts)) (sym same)
      (
        record {
          holds = record {
            body = holds.body;
            finished = holds.finished;
            current = holds.current;
            in_file = holds.in_file;
            are_clusters = holds.are_clusters;
            is_current = holds.is_current;
            all_frames = holds.all_frames;
          };
          at_origin = (refl, refl);
          hears = h.hears;
          is_open = h.is_open;
        },
        refl,
      )
with_origin-Follows head heard (some o) fs pts w h =
    let same : with_origin pts w ≡ w = simp (h.at_origin.0) refl in
    subst (λ v. Follows head heard (some o) fs v × (v.origin ≡ o)) (sym same) (h, h.at_origin.1)

unit_skipped :
    (au : AccessUnit) (w : Writer)
    → w.closed ≡ false
    → is_nil au.nalus ≡ true
    → write_access_unit au w ≡ (ok tt, w)
unfolding write_access_unit
unit_skipped au w c e = rw (write_access_unit, c, e) refl

unit_written :
    (au : AccessUnit) (w : Writer) (origin : ℤ)
    → w.closed ≡ false
    → is_nil au.nalus ≡ false
    → (with_origin au.pts w).origin ≡ origin
    → write_access_unit au w
      ≡ write_at 0x81
          (pos_part (since origin au.pts))
          (if au.key_frame then 0x80 else 0)
          (frame au.nalus)
          (with_origin au.pts w)
unfolding write_access_unit
unit_written au w origin c e at = ground (
  arith,
  ap
      (λ o.
        write_at 0x81 (pos_part (since o au.pts)) (if au.key_frame then 0x80 else 0)
          (frame au.nalus) (with_origin au.pts w))
      at,
)

write_video-Follows :
    (head : Bytes) (heard : Bool) (origin : Option ℤ) (fs : List Frame) (au : AccessUnit)
    (w : Writer)
    → Follows head heard origin fs w
    → Ensures
        (λ _ w'. Follows head heard (video_origin origin au) (fs ++ video_frames origin au) w')
        (write_access_unit au w)
unfolding video_frames Ensures
write_video-Follows head heard origin fs au w h = elim (Bool-cases (is_nil au.nalus)) [
  | inl empty ↦
      subst
        (Ensures
          (λ _ w'. Follows head heard (video_origin origin au) (fs ++ video_frames origin au) w'))
        (sym (unit_skipped au w h.is_open empty)) (rw (video_frames, empty, append-nil fs) h)
  | inr full ↦
      let w' = with_origin au.pts w in
      let (follows, at) = with_origin-Follows head heard origin fs au.pts w h in
      let absolute = pos_part (since (origin_or origin au.pts) au.pts) in
      let flags : ℕ = if au.key_frame then 0x80 else 0 in
      let gs = fs ++ frame_at 0x81 absolute flags (frame au.nalus) ∷ [] in
      subst
        (Ensures
          (λ _ v. Follows head heard (video_origin origin au) (fs ++ video_frames origin au) v))
        (sym (unit_written au w (origin_or origin au.pts) h.is_open full at))
        (rw (video_frames, full)
          (Ensures-weaken (λ _ v. Holds head gs v × Kept w' v)
            (λ _ v. Follows head heard (some (origin_or origin au.pts)) gs v)
            (write_at 0x81 absolute flags (frame au.nalus) w')
            (write_at-Holds head fs 0x81 absolute flags (frame au.nalus) w'
              (since-small (origin_or origin au.pts) au.pts) follows.holds)
            (λ _ v (holds, kept).
              Follows-Kept head heard (some (origin_or origin au.pts)) fs gs w' v follows kept
                holds)))
]

audio_skipped :
    {P : Type 0} (packet : AudioPacket P) (heard : Bool) (origin : Option ℤ) (w : Writer)
    → w.closed ≡ false
    → not (is_nil w.audio_info.codec) ≡ heard
    → Origin origin w.origin_set w.origin
    → audio_frames heard origin packet ≡ []
    → write_audio packet w ≡ (ok tt, w)
unfolding write_audio audio_frames Origin
audio_skipped packet heard none w c a o e = ground arith
audio_skipped packet heard (some origin) w c a o e = ground arith

audio_written :
    {P : Type 0} (packet : AudioPacket P) (heard : Bool) (origin : ℤ) (w : Writer)
    → w.closed ≡ false
    → not (is_nil w.audio_info.codec) ≡ heard
    → (w.origin_set ≡ true) × (w.origin ≡ origin)
    → not heard || is_nil packet.payload ≡ false
    → lt_int (since origin packet.pts) (pos 0) ≡ false
    → write_audio packet w
      ≡ write_at 0x82 (pos_part (since origin packet.pts)) 0x80 packet.payload w
unfolding write_audio
audio_written packet heard origin w c a o plays late =
    let same : since w.origin packet.pts ≡ since origin packet.pts =
      ap (λ o. since o packet.pts) (o.1) in
    ground (arith, same)

write_audio-Follows :
    {P : Type 0} (head : Bytes) (heard : Bool) (origin : Option ℤ) (fs : List Frame)
    (packet : AudioPacket P) (w : Writer)
    → Follows head heard origin fs w
    → Ensures
        (λ _ w'. Follows head heard origin (fs ++ audio_frames heard origin packet) w')
        (write_audio packet w)
unfolding audio_frames Ensures Origin
write_audio-Follows head heard none fs packet w h =
    subst (Ensures (λ _ v. Follows head heard none (fs ++ []) v))
      (sym (audio_skipped packet heard none w h.is_open h.hears h.at_origin refl))
      (rw (append-nil fs) h)
write_audio-Follows head heard (some origin) fs packet w h =
    let Done : Unit {0} → Writer → Type 0 =
      λ _ v. Follows head heard (some origin) (fs ++ audio_frames heard (some origin) packet) v in
    let skipped = λ (e : audio_frames heard (some origin) packet ≡ []).
      subst (Ensures Done)
        (sym (audio_skipped packet heard (some origin) w h.is_open h.hears h.at_origin e))
        (subst (λ gs. Follows head heard (some origin) gs w) (sym (ap (fs ++◌) e ∙ append-nil fs))
          h) in
    elim (Bool-cases (not heard || is_nil packet.payload)) [
      | inl silent ↦ skipped (rw (audio_frames, silent) refl)
      | inr plays ↦ elim (Bool-cases (lt_int (since origin packet.pts) (pos 0))) [
        | inl early ↦ skipped (rw (audio_frames, plays, early) refl)
        | inr late ↦
            let absolute = pos_part (since origin packet.pts) in
            let gs = fs ++ frame_at 0x82 absolute 0x80 packet.payload ∷ [] in
            let added : fs ++ audio_frames heard (some origin) packet ≡ gs =
              rw (audio_frames, plays, late) refl in
            subst (Ensures Done)
              (sym (audio_written packet heard origin w h.is_open h.hears h.at_origin plays late))
              (Ensures-weaken (λ _ v. Holds head gs v × Kept w v) Done
                (write_at 0x82 absolute 0x80 packet.payload w)
                (write_at-Holds head fs 0x82 absolute 0x80 packet.payload w
                  (since-small origin packet.pts) h.holds)
                (λ _ v (holds, kept).
                  subst (λ l. Follows head heard (some origin) l v) (sym added)
                    (Follows-Kept head heard (some origin) fs gs w v h kept holds)))
      ]
    ]

write_event-Follows :
    {P : Type 0} (head : Bytes) (heard : Bool) (origin : Option ℤ) (fs : List Frame) (e : Event P)
    (w : Writer)
    → Follows head heard origin fs w
    → Ensures
        (λ _ w'.
          Follows head heard (origin_after origin e) (fs ++ frames_of_event heard origin e) w')
        (write_event e w)
unfolding write_event origin_after frames_of_event
write_event-Follows head heard origin fs (video au) w h =
    write_video-Follows head heard origin fs au w h
write_event-Follows head heard origin fs (audio packet) w h =
    write_audio-Follows head heard origin fs packet w h

pub write_all-Holds :
    {P : Type 0} (head : Bytes) (heard : Bool) (origin : Option ℤ) (fs : List Frame)
    (events : List (Event P)) (w : Writer)
    → Follows head heard origin fs w
    → Ensures
        (λ _ w'. Holds head (fs ++ frames_of heard origin events) w' × (w'.closed ≡ false))
        (write_all events w)
unfolding write_all frames_of Ensures
write_all-Holds head heard origin fs [] w h = rw (append-nil fs) (h.holds, h.is_open)
write_all-Holds head heard origin fs (e ∷ events) w h =
    let now = fs ++ frames_of_event heard origin e in
    let later = frames_of heard (origin_after origin e) events in
    Ensures-after (λ _ v. Follows head heard (origin_after origin e) now v)
      (λ _ v. Holds head (fs ++ (frames_of_event heard origin e ++ later)) v × (v.closed ≡ false))
      (write_event e w) (λ _. write_all events) (write_event-Follows head heard origin fs e w h)
      (λ _ w₁ h₁.
        subst (λ l. Ensures (λ _ v. Holds head l v × (v.closed ≡ false)) (write_all events w₁))
          (append_assoc fs (frames_of_event heard origin e) later)
          (write_all-Holds head heard (origin_after origin e) now events w₁ h₁))

close_flushes :
    (w : Writer) → w.closed ≡ false → close w ≡ flush_cluster (record w { closed = true })
unfolding close
close_flushes w c = simp (c) refl

-- `Close` leaves the head and whole clusters.
pub close-reads :
    (head : Bytes) (fs : List Frame) (w : Writer)
    → Holds head fs w
    → w.closed ≡ false
    → Ensures
        (λ _ w'. (body : Bytes) × (w'.content ≡ head ++ body) × ReadsClusters body fs)
        (close w)
unfolding close Ensures
close-reads head fs w h c =
    let shut = record w { closed = true } in
    let holds : Holds head fs shut = record {
      body = h.body;
      finished = h.finished;
      current = h.current;
      in_file = h.in_file;
      are_clusters = h.are_clusters;
      is_current = h.is_current;
      all_frames = h.all_frames;
    } in
    subst (Ensures (λ _ w'. (body : Bytes) × (w'.content ≡ head ++ body) × ReadsClusters body fs))
      (sym (close_flushes w c))
      (Ensures-weaken (λ _ v. Flushed head fs v × Kept shut v) _ (flush_cluster shut)
        (flush_cluster-Flushed head fs shut holds)
        (λ _ v (flushed, kept).
          (flushed.body, flushed.in_file, Clusters-read flushed.are_clusters)))
