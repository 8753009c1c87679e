-- ===== src/Recorder/Recover.antt =====
-- internal/recording/recover.go: partial files left by a stopped program become recordings. The disk
-- is a map from paths to contents; the walk is the list of what `WalkDir` visits, in its order.
use fragata.Base.{
  ◌-◌, Bool, not, ◌&&◌, ◌||◌, List, [], ◌∷◌, ◌++◌, Bytes, codes, bytes_eq, Option, none, some,
  length, take, drop, leb, Table, lookup, insert, delete, if◌then◌else◌,
}
use fragata.Hub.{is_nil}

pub data WalkError : Type 0 where
  not_exist : WalkError
  other_error : WalkError

-- A visit of the walk: an entry that cannot be read, or a path, its last name, and whether it is a
-- directory.
pub data Visit : Type 0 where
  unread : WalkError → Visit
  found : Bytes → Bytes → Bool → Visit

-- The disk after a visit, what was recovered, and the error that ends the walk.
pub record Visited : Type 0 where
  pub disk : Table Bytes
  pub recovered : List Bytes
  pub failed : Option WalkError

unfoldable pub has_suffix : Bytes → Bytes → Bool
has_suffix s suffix =
    leb (length suffix) (length s) && bytes_eq (drop (length s - length suffix) s) suffix

unfoldable pub trim_suffix : Bytes → Bytes → Bytes
trim_suffix s suffix = if has_suffix s suffix then take (length s - length suffix) s else s

-- The new name of a partial file, which is another where a recording has the first.
unfoldable pub free_name : Table Bytes → Bytes → Bytes
free_name disk final = elim (lookup final disk) [
  | none ↦ final
  | some content ↦ trim_suffix final (codes ".mkv") ++ codes ".recovered.mkv"
]

unfoldable pub recovered_path : Table Bytes → Bytes → Bytes
recovered_path disk path = free_name disk (trim_suffix path (codes ".partial"))

-- `os.Rename`, which replaces what the new name holds.
abbrev pub renamed : Bytes → Bytes → Bytes → Table Bytes → Table Bytes
renamed path target content disk = insert target content (delete path disk)

-- `refuses` tells which files cannot be removed or renamed.
module _ (refuses : Bytes → Bool) where
  unfoldable pub recover_file : Bytes → Bytes → Table Bytes → Visited
  recover_file path content disk =
      let target = recovered_path disk path in
      if refuses path
      then record { disk = disk; recovered = []; failed = some other_error }
      else if is_nil content
      then record { disk = delete path disk; recovered = []; failed = none }
      else record {
        disk = renamed path target content disk;
        recovered = target ∷ [];
        failed = none;
      }

  unfoldable pub recover_visit : Visit → Table Bytes → Visited
  recover_visit (unread not_exist) disk = record { disk = disk; recovered = []; failed = none }
  recover_visit (unread other_error) disk = record {
    disk = disk;
    recovered = [];
    failed = some other_error;
  }
  recover_visit (found path name is_dir) disk =
      let partial : Visited = elim (lookup path disk) [
        | none ↦ record { disk = disk; recovered = []; failed = some not_exist }
        | some content ↦ recover_file path content disk
      ] in
      if is_dir || not (has_suffix name (codes ".mkv.partial"))
      then record { disk = disk; recovered = []; failed = none }
      else partial

  unfoldable pub walk : List Visit → Table Bytes → Visited
  walk [] disk = record { disk = disk; recovered = []; failed = none }
  walk (v ∷ visits) disk =
      let here = recover_visit v disk in
      let rest = walk visits here.disk in
      elim here.failed [
        | none ↦ record {
          disk = rest.disk;
          recovered = here.recovered ++ rest.recovered;
          failed = rest.failed;
        }
        | some e ↦ here
      ]

  unfoldable pub recover_partials : List Visit → Table Bytes → Visited
  recover_partials visits disk =
      let done = walk visits disk in
      elim done.failed as (λ _. Visited) [
        | none ↦ done
        | some e ↦ elim e [ not_exist ↦ record done { failed = none } | other_error ↦ done ]
      ]
