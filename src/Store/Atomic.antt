-- ===== src/Store/Atomic.antt =====
-- Failed operations of internal/store/store.go.
use fragata.Base.{
  ◌≡◌, refl, inl, inr, ◌⊎◌, false, Option, none, some, Bytes, arith, Bool-cases, Option-cases,
}
use fragata.Model.{State}
use fragata.Store.Disk.{
  StoreError, Result, Library, Disk, Answers, replace_file, persist, ok, err, encode_state,
}
use fragata.Store.Commands.{Store, Command, Change, change, settle, is_idle, run}
use fragata.Store.Undo.{SameState, HasMaps, undone-SameState}

pub Result-cases :
    {A : Type 0} (x : Result A) → ((e : StoreError) × (x ≡ err e)) ⊎ ((a : A) × (x ≡ ok a))
Result-cases (err e) = inl (e, refl)
Result-cases (ok a) = inr (a, refl)

replace_file-state_file :
    (os : Answers) (b : Bytes) (disk : Disk) (e : StoreError)
    → (replace_file os b disk).1 ≡ some e
    → (replace_file os b disk).0.state_file ≡ disk.state_file
unfolding replace_file
replace_file-state_file os b disk e h = ground arith

module _ (lib : Library) (key : Bytes) where
  pub persist-state_file :
      (os : Answers) (s : State) (disk : Disk) (e : StoreError)
      → (persist lib key os s disk).1 ≡ some e
      → (persist lib key os s disk).0.state_file ≡ disk.state_file
  unfolding persist
  persist-state_file os s disk e h = elim (Result-cases (encode_state lib key os s)) [
    | inl (e', q) ↦ rw (q, persist)
    | inr (d, q) ↦ elim (Option-cases (lib.marshal d)) [
      | inl n ↦ rw (q, n, persist)
      | inr (b, n) ↦
          rw (q, n, persist) (replace_file-state_file os _ disk e (rw (q, n, persist) at h))
    ]
  ]

  pub run-settled :
      (os : Answers) (c : Command) (st : Store)
      → is_idle st.content c ≡ false
      → run lib key os c st
        ≡ settle (change st.content c) (persist lib key os (change st.content c).changed st.disk)
  unfolding run
  run-settled os c st e = rw e

  settle-failed :
      (ch : Change) (r : Disk × Option StoreError) (e : StoreError)
      → (settle ch r).1 ≡ some e
      → ((settle ch r).0 ≡ record { content = ch.undone; disk = r.0 }) × (r.1 ≡ some e)
  settle-failed ch (disk, none) e h = absurd (cc)
  settle-failed ch (disk, some e') e h = (refl, h)

  -- Whatever operation fails, and at whatever step of writing the file: the state in memory holds the
  -- same entries as before the call, and the state file has the bytes that it had.
  pub run-atomic :
      (os : Answers) (c : Command) (st : Store) (e : StoreError)
      → HasMaps st.content
      → (run lib key os c st).1 ≡ some e
      → SameState (run lib key os c st).0.content st.content
        × ((run lib key os c st).0.disk.state_file ≡ st.disk.state_file)
  unfolding run
  run-atomic os c st e h q = elim (Bool-cases (is_idle st.content c)) [
    | inl idle ↦ absurd (cc (rw idle at q))
    | inr busy ↦
        let ch : Change = change st.content c in
        let failed = settle-failed ch (persist lib key os ch.changed st.disk) e (rw busy at q) in
        rw (busy, failed.0)
          (undone-SameState st.content c h, persist-state_file os ch.changed st.disk e failed.1)
  ]
