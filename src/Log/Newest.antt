-- ===== src/Log/Newest.antt =====
-- What internal/logging/rolling.go keeps of the old lines.
use fragata.Base.{
  ℕ, ◌+◌, ◌-◌, ◌≤◌, ◌≡◌, refl, ap, subst, ◌∙◌, inl, inr, true, false, [], ◌++◌, none, Bytes, length,
  length-append, take-append-drop, drop, take, ltb, leb, if◌then◌else◌, arith, Bool-cases,
  Option-cases,
}
use fragata.Log.{
  RollingWriter, Answers, whole, opened, write, compact_locked, replace_file, append_file,
  compacted, newest, after_line, keep_limit, last, newline_index, is_nil_file,
}
use mathlib.Core.List.{append-nil, append_assoc}
use fragata.Log.Bounded.{length-newest-le}

-- Every call of the system succeeds.
unfoldable pub IsWilling : Answers → Type 0
IsWilling os =
    (os.sync_ok ≡ true)
    × (os.close_ok ≡ true)
    × (os.read ≡ whole)
    × (os.write_ok ≡ true)
    × (os.rename_ok ≡ true)
    × (os.reopen_ok ≡ true)
    × (os.append_ok ≡ true)

abbrev EndsWith : Bytes → Bytes → Type 0
EndsWith p kept = (earlier : Bytes) × (earlier ++ kept ≡ p)

drop-EndsWith : (n : ℕ) (p : Bytes) → EndsWith p (drop n p)
drop-EndsWith n p = (take n p, take-append-drop n p)

after_line-EndsWith : (p : Bytes) → EndsWith p (after_line p)
unfolding after_line
after_line-EndsWith p = elim (Option-cases (newline_index p)) [
  | inl n ↦ rw (after_line, n) ([], refl)
  | inr (i, e) ↦ elim (Bool-cases (ltb (i + 1) (length p))) [
    | inl more ↦ rw (after_line, e, more) (drop-EndsWith (i + 1) p)
    | inr end_ ↦ rw (after_line, e, end_) ([], refl)
  ]
]

EndsWith-trans : (p q r : Bytes) → EndsWith p q → EndsWith q r → EndsWith p r
EndsWith-trans p q r (a, e) (b, f) = (a ++ b, append_assoc a b r ∙ ap (a ++◌) f ∙ e)

newest-EndsWith : (limit : ℕ) (p : Bytes) → EndsWith p (newest limit p)
unfolding newest
newest-EndsWith limit p = elim (Bool-cases (ltb limit (length p))) [
  | inl over ↦ rw over (
      EndsWith-trans p (last limit p) (after_line (last limit p))
        (drop-EndsWith (length p - limit) p) (after_line-EndsWith (last limit p)))
  | inr fits ↦ rw fits ([], refl)
]

length-EndsWith : (p kept : Bytes) → EndsWith p kept → length kept ≤ length p
length-EndsWith p kept (earlier, e) =
    subst (λ q. length kept ≤ length q) e (omega (arith, length-append earlier kept))

keep_limit-fits :
    (max : ℕ) (pending : Bytes)
    → leb max (length pending) ≡ false
    → keep_limit max pending + length pending ≤ max
unfolding keep_limit
keep_limit-fits max pending h = ground arith

-- Nothing is cut off what a compaction puts together.
compacted-append :
    (max : ℕ) (raw pending : Bytes)
    → length (raw ++ pending) ≤ max
    → (if ltb max (length (raw ++ pending)) then last max (raw ++ pending) else raw ++ pending)
      ≡ raw ++ pending
compacted-append max raw pending fits = ground (arith, fits)

-- What a compaction writes for a text that fits.
compacted-EndsWith :
    (max : ℕ) (raw pending : Bytes)
    → length pending ≤ max
    → (kept : Bytes) × (compacted max raw pending ≡ kept ++ pending) × EndsWith raw kept
unfolding compacted
compacted-EndsWith max raw pending fits =
    let limit = keep_limit max pending in
    elim (Bool-cases (leb max (length pending))) [
      | inl full ↦
          let none_kept = length-EndsWith [] (newest limit []) (newest-EndsWith limit []) in
          let total = length-append (newest limit []) pending in
          let same =
            compacted-append max (newest limit []) pending
              (omega (arith, none_kept, total, fits)) in
          (
            newest limit [],
            rw (compacted, full) same,
            EndsWith-trans raw [] (newest limit []) (raw, append-nil raw)
                (newest-EndsWith limit []),
          )
      | inr room ↦
          let bound = length-newest-le limit raw in
          let total = length-append (newest limit raw) pending in
          let most = keep_limit-fits max pending room in
          let same =
            compacted-append max (newest limit raw) pending (omega (arith, bound, total, most)) in
          (newest limit raw, rw (compacted, room) same, newest-EndsWith limit raw)
    ]

newest-fits : (limit : ℕ) (p : Bytes) → length p ≤ limit → newest limit p ≡ p
unfolding newest
newest-fits limit p fits = ground (arith, fits)

compact_locked-willing :
    (os : Answers) (pending : Bytes) (w : RollingWriter)
    → IsWilling os
    → w.file ≡ opened
    → ((compact_locked os pending w).0.content ≡ compacted w.max_size w.content pending)
      × ((compact_locked os pending w).1 ≡ none)
unfolding compact_locked replace_file IsWilling
compact_locked-willing os pending w h f = (
  rw (compact_locked, f, h.0, h.1, replace_file, h.2, h.3, h.4, h.5) refl,
  rw (compact_locked, f, h.0, h.1, replace_file, h.2, h.3, h.4, h.5) refl,
)

append_file-willing :
    (os : Answers) (p : Bytes) (w : RollingWriter)
    → IsWilling os
    → w.file ≡ opened
    → ((append_file os p w).0.content ≡ w.content ++ p) × ((append_file os p w).1.1 ≡ none)
unfolding append_file IsWilling
append_file-willing os p w h f = (rw (append_file, f, h.6) refl, rw (append_file, f, h.6) refl)

write-compacts :
    (os : Answers) (given : Bytes) (w : RollingWriter)
    → is_nil_file w.file ≡ false
    → newest w.max_size given ≡ given
    → ltb w.max_size (w.size + length given) ≡ true
    → (compact_locked os given w).1 ≡ none
    → write os given w ≡ ((compact_locked os given w).0, (length given, none))
unfolding write
write-compacts os given w f whole_ over done = rw (write, f, whole_, over, done) (rw whole_ refl)

write-appends :
    (os : Answers) (given : Bytes) (w : RollingWriter)
    → is_nil_file w.file ≡ false
    → newest w.max_size given ≡ given
    → ltb w.max_size (w.size + length given) ≡ false
    → (append_file os given w).1.1 ≡ none
    → write os given w ≡ ((append_file os given w).0, (length given, none))
unfolding write
write-appends os given w f whole_ room done = rw (write, f, whole_, room, done) refl

-- A text that fits is appended whole while the system serves every call: what is dropped to make
-- room is the beginning of what was there, and the count returned is the whole text's.
pub write-newest :
    (os : Answers) (given : Bytes) (w : RollingWriter)
    → IsWilling os
    → w.file ≡ opened
    → length given ≤ w.max_size
    → (dropped : Bytes) × (kept : Bytes) × (dropped ++ kept ≡ w.content)
      × ((write os given w).0.content ≡ kept ++ given)
      × ((write os given w).1 ≡ (length given, none))
write-newest os given w willing f fits =
    let present : is_nil_file w.file ≡ false = rw f refl in
    let uncut = newest-fits w.max_size given fits in
    elim (Bool-cases (ltb w.max_size (w.size + length given))) [
      | inl over ↦
          let (kept, e, (dropped, e')) = compacted-EndsWith w.max_size w.content given fits in
          let (content, done) = compact_locked-willing os given w willing f in
          let same = write-compacts os given w present uncut over done in
          (dropped, kept, e', ap (λ r. r.0.content) same ∙ content ∙ e, ap (λ r. r.1) same)
      | inr room ↦
          let (content, done) = append_file-willing os given w willing f in
          let same = write-appends os given w present uncut room done in
          ([], w.content, refl, ap (λ r. r.0.content) same ∙ content, ap (λ r. r.1) same)
    ]
