-- ===== src/Retention/Prunes.antt =====
-- internal/retention/cleaner.go: what the pruning of events leaves alone.
use fragata.Base.{
  ℕ, ◌≡◌, refl, sym, ap, subst, ◌∙◌, Bool, true, false, List, [], ◌∷◌, Bytes, bytes_eq,
  bytes_eq_iff, Option, none, some, inl, inr, Table, IsMap, lookup, insert, delete, lookup-delete,
  ltb, if◌then◌else◌, split_if, split_option, Bool-cases, Option-cases, All, All-append,
}
use fragata.Hub.{is_nil}
use fragata.Model.{DetectionEvent}
use fragata.Store.Disk.{StoreError, Library, Answers, Disk, persist}
use fragata.Store.Commands.{
  Store, Change, delete_detection_events, delete_detection_events_change, remove_ids, change,
  is_idle, settle,
}
use fragata.Store.Commands
use fragata.Store.Undo.{HasMaps}
use fragata.Store.Atomic.{run-atomic}
use fragata.Retention.Events.{
  PathTools, is_inside, events_before, Swept, picture_path, sweep_event, sweep_all, cleanup_events,
}

-- Each event is kept under its own id.
abbrev pub IsKeyed : Table DetectionEvent → Type 0
IsKeyed [] = Unit
IsKeyed ((id, event) ∷ events) = (id ≡ event.id) × IsKeyed events

-- An event that is not older than the cutoff.
abbrev pub IsYoung : ℕ → Option DetectionEvent → Type 0
IsYoung before none = Unit
IsYoung before (some event) = ltb event.created_at before ≡ false

abbrev Avoids : Bytes → Bytes → Type 0
Avoids j id = bytes_eq id j ≡ false

module _ (j : Bytes) where
  remove_ids-lookup :
      {V : Type 0} (ids : List Bytes) (t r : Table V)
      → All (Avoids j) ids
      → lookup j (remove_ids ids t r).0 ≡ lookup j t
  unfolding remove_ids
  remove_ids-lookup [] t r all = refl
  remove_ids-lookup (id ∷ ids) t r all = elim (Option-cases (lookup id t)) [
    | inl e ↦ rw (e, remove_ids) (remove_ids-lookup ids t r all.1)
    | inr (v, e) ↦
        rw (e, remove_ids)
          (remove_ids-lookup ids (delete id t) (insert id v r) all.1
            ∙ lookup-delete id j t
            ∙ rw all.0 refl)
  ]

  -- The old events are others, if the event in question is young or not there.
  events_before-Avoids :
      (before : ℕ) (events : Table DetectionEvent)
      → IsMap events
      → IsKeyed events
      → IsYoung before (lookup j events)
      → All (λ event. Avoids j event.id) (events_before before events)
  unfolding events_before lookup
  events_before-Avoids before [] m keyed young = tt
  events_before-Avoids before ((id, event) ∷ events) m keyed young =
      elim (Bool-cases (bytes_eq id j)) [
        | inl same ↦
            let here : id ≡ j = (bytes_eq_iff id j).0 same in
            let absent : lookup j events ≡ none = ap (λ k. lookup k events) (sym here) ∙ m.0 in
            let none_young : IsYoung before (lookup j events) =
              subst (IsYoung before) (sym absent) tt in
            let new : ltb event.created_at before ≡ false =
              subst (λ b. IsYoung before (if b then some event else lookup j events)) same young in
            rw new (events_before-Avoids before events m.1 keyed.1 none_young)
        | inr other ↦
            let rest = events_before-Avoids before events m.1 keyed.1 (
              subst (λ b. IsYoung before (if b then some event else lookup j events)) other
                young) in
            split_if (All (λ event. Avoids j event.id)) (ltb event.created_at before) _ _
              (λ old. (subst (Avoids j) keyed.0 other, rest)) (λ new. rest)
      ]

  module _ (lib : Library) (key : Bytes) (os : Answers) where
    -- Deleting other events leaves this one, also when the store cannot be written.
    delete-keeps :
        (ids : List Bytes) (st : Store)
        → HasMaps st.content
        → All (Avoids j) ids
        → lookup j (Commands.run lib key os (delete_detection_events ids) st).0.content.events
          ≡ lookup j st.content.events
    unfolding Commands.run change remove_ids
    delete-keeps ids st maps all =
        elim (Option-cases (Commands.run lib key os (delete_detection_events ids) st).1) [
          | inr (e, failed) ↦
              (run-atomic lib key os (delete_detection_events ids) st e maps failed).0.events j
          | inl fine ↦ elim (Bool-cases (is_idle st.content (delete_detection_events ids))) [
            | inl idle ↦ rw idle refl
            | inr busy ↦ rw busy (
                settled
                  (persist lib key os (change st.content (delete_detection_events ids)).changed
                    st.disk)
                  (rw busy at fine))
          ]
        ]
      where
        settled :
            (r : Disk × Option StoreError)
            → (settle (change st.content (delete_detection_events ids)) r).1 ≡ none
            → lookup j (settle (change st.content (delete_detection_events ids)) r).0.content.events
              ≡ lookup j st.content.events
        settled (disk, none) fine = remove_ids-lookup ids st.content.events [] all
        settled (disk, some e) fine = absurd (cc)

module _ (tools : PathTools) (refuses : Bytes → Bool) (root : Bytes) where
  IsInside : Option Bytes → Type 0
  IsInside none = Unit
  IsInside (some path) = is_inside root path ≡ true

  picture_path-IsInside : (event : DetectionEvent) → IsInside (picture_path tools root event)
  unfolding picture_path IsInside
  picture_path-IsInside event =
      split_option IsInside (tools.absolute _) _ _ (λ e. tt)
        (λ path e. split_if IsInside (is_inside root path) _ _ (λ inside. inside) (λ e. tt))

  -- A sweep removes no event with this id, and no picture at this path.
  abbrev Spares : Bytes → Bytes → Option Bytes → Swept → Type 0
  Spares j q picture s = All (Avoids j) s.removed_ids × (lookup q s.pictures ≡ picture)

  sweep_event-Spares :
      (j q : Bytes) (picture : Option Bytes) (event : DetectionEvent) (s : Swept)
      → is_inside root q ≡ false
      → Avoids j event.id
      → Spares j q picture s
      → Spares j q picture (sweep_event tools refuses root event s)
  unfolding sweep_event IsInside
  sweep_event-Spares j q picture event s outside other h =
      let Good = Spares j q picture in
      let added = All-append (Avoids j) s.removed_ids (event.id ∷ []) h.0 (other, tt) in
      split_if Good (is_nil event.snapshot_path) _ _ (λ e. (added, h.1))
        (λ e.
          split_option Good (picture_path tools root event) _ _ (λ e. h)
            (λ path e.
              split_if Good (refuses path) _ _ (λ e. h)
                (λ e'. (added, elsewhere path (subst IsInside e (picture_path-IsInside event))))))
    where
      elsewhere :
          (path : Bytes) → is_inside root path ≡ true → lookup q (delete path s.pictures) ≡ picture
      elsewhere path inside = elim (Bool-cases (bytes_eq path q)) [
        | inl same ↦
            let here : path ≡ q = (bytes_eq_iff path q).0 same in
            absurd (cc (ap (is_inside root) here, inside, outside))
        | inr differs ↦ lookup-delete path q s.pictures ∙ rw differs h.1
      ]

  sweep_all-Spares :
      (j q : Bytes) (picture : Option Bytes) (events : List DetectionEvent) (s : Swept)
      → is_inside root q ≡ false
      → All (λ event. Avoids j event.id) events
      → Spares j q picture s
      → Spares j q picture (sweep_all tools refuses root events s)
  unfolding sweep_all
  sweep_all-Spares j q picture [] s outside others h = h
  sweep_all-Spares j q picture (event ∷ events) s outside others h =
      sweep_all-Spares j q picture events (sweep_event tools refuses root event s) outside others.1
        (sweep_event-Spares j q picture event s outside others.0 h)

-- The pruning of old events, whatever removal or write fails, leaves every event that is not older than
-- the cutoff in the store, and every file outside the folder of the pictures on the disk, also where
-- the path of an event's picture leads out of it; each event is kept under its own id.
pub cleanup_events-keeps :
    (tools : PathTools) (lib : Library) (key : Bytes) (os : Answers) (refuses : Bytes → Bool)
    (events_dir root : Bytes) (before : ℕ) (st : Store) (pictures : Table Bytes) (j q : Bytes)
    → HasMaps st.content
    → IsKeyed st.content.events
    → IsYoung before (lookup j st.content.events)
    → tools.absolute events_dir ≡ some root
    → is_inside root q ≡ false
    → let result = cleanup_events tools lib key os refuses events_dir before st pictures in
      (lookup j result.0.content.events ≡ lookup j st.content.events)
      × (lookup q result.1 ≡ lookup q pictures)
unfolding cleanup_events
cleanup_events-keeps tools lib key os refuses events_dir root before st pictures j q maps keyed
      young found outside =
    split_if Kept (is_nil (tools.trim_space events_dir)) _ _ (λ e. (refl, refl))
      (λ e.
        split_option Kept (tools.absolute events_dir) _ _ (λ e. (refl, refl))
          (λ root' e.
            let same : root ≡ root' = cc in
            let swept =
              sweep_all-Spares tools refuses root' j q (lookup q pictures)
                (events_before before st.content.events)
                (record { pictures = pictures; removed_ids = []; deleted = 0 })
                (subst (λ r. is_inside r q ≡ false) same outside)
                (events_before-Avoids j before st.content.events maps.events keyed young)
                (tt, refl) in
            (delete-keeps j lib key os _ st maps swept.0, swept.1)))
  where
    Kept : Store × Table Bytes × ℕ → Type 0
    Kept result =
        (lookup j result.0.content.events ≡ lookup j st.content.events)
        × (lookup q result.1 ≡ lookup q pictures)
