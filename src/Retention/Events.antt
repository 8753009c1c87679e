-- ===== src/Retention/Events.antt =====
-- internal/retention/cleaner.go: the pruning of old detection events and their pictures, over the
-- store. The pictures are a map from paths to contents; a removal that fails is refused.
use fragata.Base.{
  ℕ, ◌+◌, Bool, ◌||◌, ◌&&◌, List, [], ◌∷◌, ◌++◌, Bytes, codes, bytes_eq, Option, none, some, Table,
  delete, ltb, leb, length, take, if◌then◌else◌,
}
use fragata.Hub.{is_nil}
use fragata.Model.{DetectionEvent}
use fragata.Store.Disk.{Library, Answers}
use fragata.Store.Commands.{Store, delete_detection_events}
use fragata.Store.Commands

-- path/filepath and `strings.Split` by the slash.
pub record PathTools : Type 0 where
  pub trim_space : Bytes → Bytes
  pub from_slash : Bytes → Bytes
  pub to_slash : Bytes → Bytes
  pub split : Bytes → List Bytes
  pub join : List Bytes → Bytes
  pub absolute : Bytes → Option Bytes

abbrev pub has_prefix : Bytes → Bytes → Bool
has_prefix s prefix = leb (length prefix) (length s) && bytes_eq (take (length prefix) s) prefix

-- The folder itself, or below it.
unfoldable pub is_inside : Bytes → Bytes → Bool
is_inside root path = bytes_eq path root || has_prefix path (root ++ codes "/")

-- `DetectionEventsBefore`, in the order of the map.
unfoldable pub events_before : ℕ → Table DetectionEvent → List DetectionEvent
events_before before [] = []
events_before before ((id, event) ∷ events) =
    let others = events_before before events in
    if ltb event.created_at before then event ∷ others else others

-- The pictures, the events to be deleted, and the count.
pub record Swept : Type 0 where
  pub pictures : Table Bytes
  pub removed_ids : List Bytes
  pub deleted : ℕ

module _ (tools : PathTools) where
  abbrev pub without_events : Bytes → List Bytes → Bytes
  without_events relative [] = relative
  without_events relative (part ∷ parts) =
      if bytes_eq part (codes "events") then tools.join parts else relative

  -- The picture of an event, where its path leads into the folder.
  unfoldable pub picture_path : Bytes → DetectionEvent → Option Bytes
  picture_path root event =
      let relative = tools.from_slash event.snapshot_path in
      let relative' = without_events relative (tools.split (tools.to_slash relative)) in
      elim (tools.absolute (tools.join (root ∷ relative' ∷ []))) as (λ _. Option Bytes) [
        | none ↦ none
        | some path ↦ if is_inside root path then some path else none
      ]

  module _ (refuses : Bytes → Bool) (root : Bytes) where
    unfoldable pub sweep_event : DetectionEvent → Swept → Swept
    sweep_event event s =
        let swept : Bytes → Swept = λ path. record {
          pictures = delete path s.pictures;
          removed_ids = s.removed_ids ++ event.id ∷ [];
          deleted = s.deleted + 1;
        } in
        if is_nil event.snapshot_path
        then record s { removed_ids = s.removed_ids ++ event.id ∷ [] }
        else elim (picture_path root event) as (λ _. Swept) [
          | none ↦ s
          | some path ↦ if refuses path then s else swept path
        ]

    unfoldable pub sweep_all : List DetectionEvent → Swept → Swept
    sweep_all [] s = s
    sweep_all (event ∷ events) s = sweep_all events (sweep_event event s)

  -- `cleanupEvents`: the store, the pictures, and the number that it returns.
  unfoldable pub cleanup_events :
      Library
      → Bytes
      → Answers
      → (Bytes → Bool)
      → Bytes
      → ℕ
      → Store
      → Table Bytes
      → Store × Table Bytes × ℕ
  cleanup_events lib key os refuses events_dir before st pictures =
      let unchanged : Store × Table Bytes × ℕ = (st, pictures, 0) in
      let cleaned : Bytes → Store × Table Bytes × ℕ = λ root.
        let start : Swept = record { pictures = pictures; removed_ids = []; deleted = 0 } in
        let s = sweep_all refuses root (events_before before st.content.events) start in
        let result = Commands.run lib key os (delete_detection_events s.removed_ids) st in
        (result.0, s.pictures, elim result.1 as (λ _. ℕ) [ none ↦ s.deleted | some e ↦ 0 ]) in
      if is_nil (tools.trim_space events_dir)
      then unchanged
      else elim (tools.absolute events_dir) as (λ _. Store × Table Bytes × ℕ) [
        | none ↦ unchanged
        | some root ↦ cleaned root
      ]
