-- ===== src/Matroska/Refines/Adding.antt =====
-- A block written by internal/matroska/writer.go, in a cluster that may be new.
use mathlib.Core.List.{append-nil, append_assoc}
use fragata.Base.{
  ℕ, ◌+◌, ◌<◌, ◌≡◌, refl, sym, ap, ◌∙◌, inl, inr, Bool, true, false, ◌||◌, List, [], ◌∷◌, ◌++◌,
  Bytes, some, ltb, Bool-cases, arith,
}
use fragata.Matroska.Ebml.{ok, element, uint_element}
use fragata.Matroska.Header.{id_timestamp, id_simple_block}
use fragata.Matroska.Writer.{
  Writer, lift, flush_cluster, needs_cluster, start_cluster, block_bytes, write_block, write_at,
}
use fragata.Matroska.Frames.{Frame, Blocks, read_block, read_block-block_bytes, Blocks-snoc}
use fragata.Matroska.Events.{frame_at}
use fragata.Matroska.Refines.{
  Ensures, Ensures-after, Ensures-weaken, Ensures-lift, Current, Holds, Flushed, Kept,
  flush_cluster-Flushed,
}

pub Kept-trans : {u v w : Writer} → Kept u v → Kept v w → Kept u w
Kept-trans {u} {v} {w} a b = record {
  origin_kept = b.origin_kept ∙ a.origin_kept;
  origin_set_kept = b.origin_set_kept ∙ a.origin_set_kept;
  audio_kept = b.audio_kept ∙ a.audio_kept;
  closed_kept = b.closed_kept ∙ a.closed_kept;
}

-- The writer with a new cluster, which has its time only.
begun : ℕ → Bytes → Writer → Writer
begun absolute timestamp w = record w {
  cluster_start = absolute;
  cluster_set = true;
  cluster = w.cluster ++ timestamp;
}

begun-Holds :
    (head : Bytes) (fs : List Frame) (absolute : ℕ) (timestamp : Bytes) (w : Writer)
    → absolute < 18_446_744_073_709_551_616
    → uint_element id_timestamp absolute ≡ ok timestamp
    → Flushed head fs w
    → Holds head fs (begun absolute timestamp w)
unfolding begun Current
begun-Holds head fs absolute timestamp w small made h = record {
  body = h.body;
  finished = fs;
  current = [];
  in_file = h.in_file;
  are_clusters = h.are_clusters;
  is_current = (
    small,
    timestamp,
    [],
    made,
    ap (λ c. c ++ timestamp) h.emptied ∙ sym (append-nil timestamp),
    Blocks.no_block,
  );
  all_frames = append-nil fs;
}

-- A cluster that starts at this time.
Started : Bytes → List Frame → ℕ → Writer → Writer → Type 0
Started head fs absolute w w' = Holds head fs w' × Kept w w' × (w'.cluster_set ≡ true)

start_cluster-Started :
    (head : Bytes) (fs : List Frame) (absolute : ℕ) (w : Writer)
    → absolute < 18_446_744_073_709_551_616
    → Holds head fs w
    → Ensures (λ _ w'. Started head fs absolute w w') (start_cluster absolute w)
unfolding start_cluster begun Started Ensures
start_cluster-Started head fs absolute w small h =
    let Done : Unit {0} → Writer → Type 0 = λ _ w'. Started head fs absolute w w' in
    Ensures-after (λ _ w'. Flushed head fs w' × Kept w w') Done (flush_cluster w) _
      (flush_cluster-Flushed head fs w h)
      (λ _ w₁ (flushed, kept).
        let set = record w₁ { cluster_start = absolute; cluster_set = true } in
        Ensures-after
          (λ timestamp v. (uint_element id_timestamp absolute ≡ ok timestamp) × (v ≡ set)) Done
          (lift (uint_element id_timestamp absolute) set) _
          (Ensures-lift (uint_element id_timestamp absolute) set)
          (λ timestamp w₂ (made, same). rw same (
            begun-Holds head fs absolute timestamp w₁ small made flushed,
            record {
              origin_kept = kept.origin_kept;
              origin_set_kept = kept.origin_set_kept;
              audio_kept = kept.audio_kept;
              closed_kept = kept.closed_kept;
            },
            refl,
          )))

-- A block behind the others of the cluster in the making.
Current-snoc :
    (set : Bool) (start : ℕ) (cluster content e : Bytes) (fs : List Frame) (f : Frame)
    → set ≡ true
    → element id_simple_block content ≡ ok e
    → read_block start content ≡ some f
    → Current set start cluster fs
    → Current set start (cluster ++ e) (fs ++ f ∷ [])
unfolding Current
Current-snoc false start cluster content e fs f on made reads h = absurd (cc)
Current-snoc true start cluster content e fs f on made reads
      (small, timestamp, bytes, made', form, blocks) =
    (
      small,
      timestamp,
      bytes ++ e,
      made',
      ap (λ c. c ++ e) form ∙ append_assoc timestamp bytes e,
      Blocks-snoc content e f made reads blocks,
    )

write_block-Holds :
    (head : Bytes) (fs : List Frame) (track absolute flags : ℕ) (payload : Bytes) (w : Writer)
    → w.cluster_set ≡ true
    → Holds head fs w
    → Ensures
        (λ _ w'. Holds head (fs ++ frame_at track absolute flags payload ∷ []) w' × Kept w w')
        (write_block track absolute flags payload w)
unfolding write_block Ensures
write_block-Holds head fs track absolute flags payload w on h =
    let f = frame_at track absolute flags payload in
    let content = block_bytes w.cluster_start track absolute flags payload in
    elim (Bool-cases
      (ltb (absolute + 32768) w.cluster_start || ltb (w.cluster_start + 32767) absolute)) [
        | inl out ↦ rw (write_block, out) tt
        | inr within ↦
            let reads =
              read_block-block_bytes w.cluster_start track absolute flags payload (ground arith)
                (ground arith) in
            rw (write_block, within)
              (Ensures-after (λ e v. (element id_simple_block content ≡ ok e) × (v ≡ w))
                (λ _ w'. Holds head (fs ++ f ∷ []) w' × Kept w w')
                (lift (element id_simple_block content) w) _
                (Ensures-lift (element id_simple_block content) w)
                (λ e v (made, same). rw same (
                  record {
                    body = h.body;
                    finished = h.finished;
                    current = h.current ++ f ∷ [];
                    in_file = h.in_file;
                    are_clusters = h.are_clusters;
                    is_current =
                        Current-snoc w.cluster_set w.cluster_start w.cluster content e h.current f
                          on made reads h.is_current;
                    all_frames =
                        sym (append_assoc h.finished h.current (f ∷ []))
                        ∙ ap (λ l. l ++ f ∷ []) h.all_frames;
                  },
                  record {
                    origin_kept = refl;
                    origin_set_kept = refl;
                    audio_kept = refl;
                    closed_kept = refl;
                  },
                )))
      ]

within_cluster :
    (absolute : ℕ) (w : Writer) → needs_cluster absolute w ≡ false → w.cluster_set ≡ true
unfolding needs_cluster
within_cluster absolute w h = ground arith

pub write_at-Holds :
    (head : Bytes) (fs : List Frame) (track absolute flags : ℕ) (payload : Bytes) (w : Writer)
    → absolute < 18_446_744_073_709_551_616
    → Holds head fs w
    → Ensures
        (λ _ w'. Holds head (fs ++ frame_at track absolute flags payload ∷ []) w' × Kept w w')
        (write_at track absolute flags payload w)
unfolding write_at Started
write_at-Holds head fs track absolute flags payload w small h =
    let Done : Unit {0} → Writer → Type 0 =
      λ _ w'. Holds head (fs ++ frame_at track absolute flags payload ∷ []) w' × Kept w w' in
    elim (Bool-cases (needs_cluster absolute w)) [
      | inl new ↦
          rw (write_at, new)
            (Ensures-after (λ _ w'. Started head fs absolute w w') Done (start_cluster absolute w) _
              (start_cluster-Started head fs absolute w small h)
              (λ _ w₁ (holds, kept, on).
                Ensures-weaken
                  (λ _ w'.
                    Holds head (fs ++ frame_at track absolute flags payload ∷ []) w' × Kept w₁ w')
                  Done (write_block track absolute flags payload w₁)
                  (write_block-Holds head fs track absolute flags payload w₁ on holds)
                  (λ _ w₂ (holds', kept'). (holds', Kept-trans kept kept'))))
      | inr old ↦
          rw (write_at, old)
            (write_block-Holds head fs track absolute flags payload w
              (within_cluster absolute w old) h)
    ]
