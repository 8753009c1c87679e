-- ===== src/Store/Reopen.antt =====
-- Opening internal/store/store.go again after an operation.
use fragata.Base.{
  ◌≡◌, refl, sym, ap, subst, ◌∙◌, [], ◌∷◌, ◌++◌, pos, lt_int, true, false, Option, none, some,
  Bytes, length,
}
use fragata.Model.{State}
use fragata.Store.Disk.{
  Result, ok, DiskState, Library, Laws, Disk, Answers, encode_state, decode_state,
  checked_retention, checked_version, persist, migrate, load, open_store, StoreError,
}
use fragata.Store.Commands.{Store, Command, Change, change, settle, is_idle, run}
use fragata.Store.Atomic.{run-settled}
use fragata.Store.Undo.{HasMaps}
use fragata.Store.Invariant.{run-HasMaps}
use fragata.Store.Order.{Reordered, decode_state-Reordered, encode_state-HasTables}
use fragata.Store.Reload.{encode_state-version, ReadsFully, decode-encode_state, persist-ok}

-- The state has the current version and a valid retention policy.
pub record IsCurrent (s : State) : Type 0 where
  pub version : lt_int s.version (pos 4) ≡ false
  pub retention : checked_retention s.retention ≡ s.retention

-- Every string of the state's disk form is text.
abbrev pub HoldsText : Library → Bytes → Answers → State → Type 0
HoldsText lib key os s = (d : DiskState) → encode_state lib key os s ≡ ok d → lib.is_text d ≡ true

settle-ok :
    (ch : Change) (r : Disk × Option StoreError)
    → (settle ch r).1 ≡ none
    → ((settle ch r).0 ≡ record { content = ch.changed; disk = r.0 }) × (r.1 ≡ none)
settle-ok ch (disk, none) h = (refl, refl)
settle-ok ch (disk, some e) h = absurd (cc)

module _ (lib : Library) (laws : Laws lib) (key : Bytes) (os : Answers)
    (reads : ReadsFully lib os) where
  decode-current :
      (s : State) (d : DiskState)
      → IsCurrent s
      → encode_state lib key os s ≡ ok d
      → (decode_state lib key d ≡ ok s) × (lt_int d.version (pos 4) ≡ false)
  unfolding checked_version
  decode-current s d c e =
      let same = encode_state-version lib key os s d e in
      let plain : record s {
        version = checked_version s.version;
        retention = checked_retention s.retention;
      }
          ≡ s =
        rw (c.version, c.retention) in
      (decode-encode_state lib laws key os reads s d e ∙ ap ok plain, rw (← same) c.version)

  -- A file that holds the encoding of a state opens to that state, up to the order of its entries.
  open_store-written :
      (s : State) (d : DiskState) (b : Bytes) (disk : Disk) (os' : Answers)
      → encode_state lib key os s ≡ ok d
      → lib.marshal d ≡ some b
      → disk.state_file ≡ some (b ++ b'\n' ∷ [])
      → lib.is_text d ≡ true
      → HasMaps s
      → length key ≡ 32
      → os'.read_ok ≡ true
      → IsCurrent s
      → (s' : State) × (open_store lib key os' disk ≡ (disk, ok s')) × Reordered s s'
  unfolding open_store load migrate
  open_store-written s d b disk os' e m f t maps size readable c =
      let (decoded, recent) = decode-current s d c e in
      let (d', u, same) =
        laws.unmarshal-marshal d b t (encode_state-HasTables lib key os s d maps e) m in
      let (s', decoded', reordered) = decode_state-Reordered lib key d d' s same decoded in
      let recent' : lt_int d'.version (pos 4) ≡ false =
        subst (λ v. lt_int v (pos 4) ≡ false) same.version recent in
      (
        s',
        rw (size, f, load)
            (rw (readable, u, migrate)
              (rw (decoded', migrate, recent')
                (ap {B = Disk × Result State}
                  (λ (o : Option Bytes). (record disk { state_file = o }, ok s')) f))),
        reordered,
      )

  -- After an operation that wrote the file, a program that opens the store finds in it the state in
  -- memory: the same version and policy, and in each map exactly the same entries, passwords
  -- included, in whatever order. The conditions are that the maps have each key once, the key of the
  -- store has 32 bytes, nonces are read whole, the strings are text, the file can be read, and the
  -- state has the current version and a valid policy.
  pub open_store-run :
      (c : Command) (st : Store) (os' : Answers)
      → is_idle st.content c ≡ false
      → (run lib key os c st).1 ≡ none
      → length key ≡ 32
      → os'.read_ok ≡ true
      → HasMaps st.content
      → HoldsText lib key os (run lib key os c st).0.content
      → IsCurrent (run lib key os c st).0.content
      → (s' : State) × (open_store lib key os' (run lib key os c st).0.disk
          ≡ ((run lib key os c st).0.disk, ok s'))
        × Reordered (run lib key os c st).0.content s'
  open_store-run c st os' busy done size readable maps text current =
      let ch : Change = change st.content c in
      let settled = run-settled lib key os c st busy in
      let finished = settle-ok ch (persist lib key os ch.changed st.disk) (rw settled at done) in
      let (d, b, e, m, f) = persist-ok lib key os ch.changed st.disk finished.1 in
      subst Reopens (sym (ap (λ (x : Store × Option StoreError). x.0) settled ∙ finished.0))
        (λ t k v. open_store-written ch.changed d b _ os' e m f (t d e) k size readable v) text
        (run-HasMaps lib key os c st maps) current
    where
      Reopens : Store → Type 0
      Reopens x =
          HoldsText lib key os x.content
          → HasMaps x.content
          → IsCurrent x.content
          → (s' : State) × (open_store lib key os' x.disk ≡ (x.disk, ok s'))
            × Reordered x.content s'
