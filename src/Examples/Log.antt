-- ===== src/Examples/Log.antt =====
-- internal/logging/rolling_test.go: a log with room for eight bytes.
use fragata.Base.{◌≤◌, ◌≡◌, refl, true, false, List, [], ◌∷◌, ◌++◌, none, Bytes, length, arith, pos}
use fragata.Log.{
  RollingWriter, Answers, whole, opened, write, open_writer, compact_locked, replace_file,
  append_file, compacted, newest, after_line, keep_limit, limit_of,
}
use fragata.Log.Bounded.{Use, writes, closes, use_all, length-use_all}
use fragata.Log.Newest.{IsWilling, write-newest}

abbrev served : Answers
served = record {
  sync_ok = true;
  close_ok = true;
  read = whole;
  write_ok = true;
  rename_ok = true;
  reopen_ok = true;
  append_ok = true;
  part = 0;
}

abbrev cut_off : Answers
cut_off = record served { append_ok = false; part = 1 }

-- Two lines, and room for one byte more.
abbrev two_lines : RollingWriter
two_lines = record {
  max_size = 8;
  file = opened;
  size = 7;
  content = 97 ∷ 97 ∷ 97 ∷ 10 ∷ 98 ∷ 98 ∷ 10 ∷ [];
}

write-two_lines : (write served (99 ∷ 10 ∷ []) two_lines).0.content ≡ 98 ∷ 98 ∷ 10 ∷ 99 ∷ 10 ∷ []
unfolding write compact_locked replace_file append_file compacted newest after_line keep_limit
write-two_lines = refl

served-IsWilling : IsWilling served
unfolding IsWilling
served-IsWilling = (refl, refl, refl, refl, refl, refl, refl)

write-newest_example :
    (dropped : Bytes) × (kept : Bytes) × (dropped ++ kept ≡ two_lines.content)
    × ((write served (99 ∷ 10 ∷ []) two_lines).0.content ≡ kept ++ 99 ∷ 10 ∷ [])
    × ((write served (99 ∷ 10 ∷ []) two_lines).1 ≡ (2, none))
write-newest_example =
    write-newest served (99 ∷ 10 ∷ []) two_lines served-IsWilling refl (omega arith)

abbrev lines : List Use
lines =
    writes served (97 ∷ 97 ∷ 10 ∷ [])
    ∷ writes cut_off (98 ∷ 10 ∷ [])
    ∷ writes served (99 ∷ 10 ∷ [])
    ∷ closes served
    ∷ []

opened_short : (open_writer served (pos 4) (97 ∷ 10 ∷ [])).1 ≡ none
unfolding open_writer
opened_short = refl

length-use_all_example :
    length (use_all lines (open_writer served (pos 4) (97 ∷ 10 ∷ [])).0).content ≤ limit_of (pos 4)
length-use_all_example = length-use_all served (pos 4) (97 ∷ 10 ∷ []) lines opened_short
