-- ===== src/Store/Order.antt =====
-- The order of the entries in internal/store/store.go: what is read from a file with another order.
use mathlib.Core.List.{Permᴰ}
use mathlib.Core.List.Permᴰ
use fragata.Base.{
  ℕ, ◌≡◌, refl, sym, ap, subst, ◌∙◌, inl, inr, [], ◌∷◌, none, Bytes, arith, Table, lookup, IsMap,
}
use fragata.Model.{Camera, SftpProfile, State}
use fragata.Store.Disk.{
  ok, EncryptedCamera, EncryptedSftpProfile, DiskState, HasTables, SameEntries, Library, Answers,
  encrypt_password, decrypt_password, encrypt_cameras, encrypt_profiles, decrypt_cameras,
  decrypt_profiles, encode_state, decode_state, checked_version, checked_retention,
}
use fragata.Store.Undo.{HasMaps}
use fragata.Store.Atomic.{Result-cases}
use fragata.Store.Reload.{written}

-- The same state, with the entries of its maps in some other order.
pub record Reordered (s s' : State) : Type 0 where
  pub version : s.version ≡ s'.version
  pub cameras : Permᴰ s.cameras s'.cameras
  pub sessions : Permᴰ s.sessions s'.sessions
  pub upload_queue : Permᴰ s.upload_queue s'.upload_queue
  pub sftp_profiles : Permᴰ s.sftp_profiles s'.sftp_profiles
  pub retention : s.retention ≡ s'.retention
  pub events : Permᴰ s.events s'.events

module _ (lib : Library) (key : Bytes) where
  decrypt_cameras-cons :
      (id : Bytes) (e : EncryptedCamera) (u : Table EncryptedCamera) (t : Table Camera)
      → decrypt_cameras lib key ((id, e) ∷ u) ≡ ok t
      → (password : Bytes) × (rest : Table Camera) × (decrypt_password lib key e.camera.password
            e.password_cipher
          ≡ ok password)
        × (decrypt_cameras lib key u ≡ ok rest)
        × (t ≡ (id, record (e.camera) { password = password }) ∷ rest)
  unfolding decrypt_cameras
  decrypt_cameras-cons id e u t h =
      elim (Result-cases (decrypt_password lib key e.camera.password e.password_cipher)) [
        | inl (f, q) ↦ absurd (cc (rw q at h))
        | inr (password, q) ↦ elim (Result-cases (decrypt_cameras lib key u)) [
          | inl (f, r) ↦ absurd (cc (rw (q, r) at h))
          | inr (rest, r) ↦ (password, rest, q, r, cc (rw (q, r) at h))
        ]
      ]

  decrypt_cameras-put :
      (id : Bytes) (e : EncryptedCamera) (u : Table EncryptedCamera) (password : Bytes)
      (rest : Table Camera)
      → decrypt_password lib key e.camera.password e.password_cipher ≡ ok password
      → decrypt_cameras lib key u ≡ ok rest
      → decrypt_cameras lib key ((id, e) ∷ u)
        ≡ ok ((id, record (e.camera) { password = password }) ∷ rest)
  unfolding decrypt_cameras
  decrypt_cameras-put id e u password rest first others = rw (first, others) refl

  decrypt_cameras-perm :
      {u u' : Table EncryptedCamera} (t : Table Camera)
      → Permᴰ u u'
      → decrypt_cameras lib key u ≡ ok t
      → (t' : Table Camera) × (decrypt_cameras lib key u' ≡ ok t') × Permᴰ t t'
  decrypt_cameras-perm t Permᴰ.nil h = (t, h, Permᴰ.refl t)
  decrypt_cameras-perm t (Permᴰ.cons {a = (id, e)} {l₁ = u} {l₂ = u'} same d) h =
      let (password, rest, first, others, form) = decrypt_cameras-cons id e u t h in
      let (rest', others', perm) = decrypt_cameras-perm rest d others in
      let v : Camera = record (e.camera) { password = password } in
      (
        (id, v) ∷ rest',
        subst (λ b. decrypt_cameras lib key (b ∷ u') ≡ ok ((id, v) ∷ rest')) same
            (decrypt_cameras-put id e u' password rest' first others'),
        subst (λ x. Permᴰ x ((id, v) ∷ rest')) (sym form) (Permᴰ.cons refl perm),
      )
  decrypt_cameras-perm t (Permᴰ.swap {a = (id, e)} {b = (id', e')} {b' = b'} {l = u} same same') h =
      let (password, rest, first, others, form) = decrypt_cameras-cons id e ((id', e') ∷ u) t h in
      let (password', rest', second, more, form') = decrypt_cameras-cons id' e' u rest others in
      let v : Camera = record (e.camera) { password = password } in
      let v' : Camera = record (e'.camera) { password = password' } in
      let swapped : decrypt_cameras lib key ((id', e') ∷ (id, e) ∷ u)
          ≡ ok ((id', v') ∷ (id, v) ∷ rest') =
        decrypt_cameras-put id' e' ((id, e) ∷ u) password' ((id, v) ∷ rest') second
          (decrypt_cameras-put id e u password rest' first more) in
      (
        (id', v') ∷ (id, v) ∷ rest',
        subst (λ b. decrypt_cameras lib key (b ∷ b' ∷ u) ≡ ok ((id', v') ∷ (id, v) ∷ rest')) same'
            (subst
              (λ b. decrypt_cameras lib key ((id', e') ∷ b ∷ u) ≡ ok ((id', v') ∷ (id, v) ∷ rest'))
              same swapped),
        subst (λ x. Permᴰ x ((id', v') ∷ (id, v) ∷ rest'))
            (sym (form ∙ ap (λ l. (id, v) ∷ l) form')) (Permᴰ.swap refl refl),
      )
  decrypt_cameras-perm t (Permᴰ.trans d d') h =
      let (t₁, h₁, p₁) = decrypt_cameras-perm t d h in
      let (t₂, h₂, p₂) = decrypt_cameras-perm t₁ d' h₁ in (t₂, h₂, Permᴰ.trans p₁ p₂)

  decrypt_profiles-cons :
      (id : Bytes) (e : EncryptedSftpProfile) (u : Table EncryptedSftpProfile)
      (t : Table SftpProfile)
      → decrypt_profiles lib key ((id, e) ∷ u) ≡ ok t
      → (password : Bytes) × (rest : Table SftpProfile) × (decrypt_password lib key
            e.profile.password e.password_cipher
          ≡ ok password)
        × (decrypt_profiles lib key u ≡ ok rest)
        × (t ≡ (id, record (e.profile) { password = password }) ∷ rest)
  unfolding decrypt_profiles
  decrypt_profiles-cons id e u t h =
      elim (Result-cases (decrypt_password lib key e.profile.password e.password_cipher)) [
        | inl (f, q) ↦ absurd (cc (rw q at h))
        | inr (password, q) ↦ elim (Result-cases (decrypt_profiles lib key u)) [
          | inl (f, r) ↦ absurd (cc (rw (q, r) at h))
          | inr (rest, r) ↦ (password, rest, q, r, cc (rw (q, r) at h))
        ]
      ]

  decrypt_profiles-put :
      (id : Bytes) (e : EncryptedSftpProfile) (u : Table EncryptedSftpProfile) (password : Bytes)
      (rest : Table SftpProfile)
      → decrypt_password lib key e.profile.password e.password_cipher ≡ ok password
      → decrypt_profiles lib key u ≡ ok rest
      → decrypt_profiles lib key ((id, e) ∷ u)
        ≡ ok ((id, record (e.profile) { password = password }) ∷ rest)
  unfolding decrypt_profiles
  decrypt_profiles-put id e u password rest first others = rw (first, others) refl

  decrypt_profiles-perm :
      {u u' : Table EncryptedSftpProfile} (t : Table SftpProfile)
      → Permᴰ u u'
      → decrypt_profiles lib key u ≡ ok t
      → (t' : Table SftpProfile) × (decrypt_profiles lib key u' ≡ ok t') × Permᴰ t t'
  decrypt_profiles-perm t Permᴰ.nil h = (t, h, Permᴰ.refl t)
  decrypt_profiles-perm t (Permᴰ.cons {a = (id, e)} {l₁ = u} {l₂ = u'} same d) h =
      let (password, rest, first, others, form) = decrypt_profiles-cons id e u t h in
      let (rest', others', perm) = decrypt_profiles-perm rest d others in
      let v : SftpProfile = record (e.profile) { password = password } in
      (
        (id, v) ∷ rest',
        subst (λ b. decrypt_profiles lib key (b ∷ u') ≡ ok ((id, v) ∷ rest')) same
            (decrypt_profiles-put id e u' password rest' first others'),
        subst (λ x. Permᴰ x ((id, v) ∷ rest')) (sym form) (Permᴰ.cons refl perm),
      )
  decrypt_profiles-perm t (Permᴰ.swap {a = (id, e)} {b = (id', e')} {b' = b'} {l = u} same same')
        h =
      let (password, rest, first, others, form) = decrypt_profiles-cons id e ((id', e') ∷ u) t h in
      let (password', rest', second, more, form') = decrypt_profiles-cons id' e' u rest others in
      let v : SftpProfile = record (e.profile) { password = password } in
      let v' : SftpProfile = record (e'.profile) { password = password' } in
      let swapped : decrypt_profiles lib key ((id', e') ∷ (id, e) ∷ u)
          ≡ ok ((id', v') ∷ (id, v) ∷ rest') =
        decrypt_profiles-put id' e' ((id, e) ∷ u) password' ((id, v) ∷ rest') second
          (decrypt_profiles-put id e u password rest' first more) in
      (
        (id', v') ∷ (id, v) ∷ rest',
        subst (λ b. decrypt_profiles lib key (b ∷ b' ∷ u) ≡ ok ((id', v') ∷ (id, v) ∷ rest')) same'
            (subst
              (λ b. decrypt_profiles lib key ((id', e') ∷ b ∷ u) ≡ ok ((id', v') ∷ (id, v) ∷ rest'))
              same swapped),
        subst (λ x. Permᴰ x ((id', v') ∷ (id, v) ∷ rest'))
            (sym (form ∙ ap (λ l. (id, v) ∷ l) form')) (Permᴰ.swap refl refl),
      )
  decrypt_profiles-perm t (Permᴰ.trans d d') h =
      let (t₁, h₁, p₁) = decrypt_profiles-perm t d h in
      let (t₂, h₂, p₂) = decrypt_profiles-perm t₁ d' h₁ in (t₂, h₂, Permᴰ.trans p₁ p₂)

  -- A state read from the same entries is the same up to their order.
  pub decode_state-Reordered :
      (d d' : DiskState) (s : State)
      → SameEntries d d'
      → decode_state lib key d ≡ ok s
      → (s' : State) × (decode_state lib key d' ≡ ok s') × Reordered s s'
  unfolding decode_state
  decode_state-Reordered d d' s same h = elim (Result-cases (decrypt_cameras lib key d.cameras)) [
    | inl (e, q) ↦ absurd (cc (rw q at h))
    | inr (cameras, q) ↦ elim (Result-cases (decrypt_profiles lib key d.sftp_profiles)) [
      | inl (e, r) ↦ absurd (cc (rw (q, r) at h))
      | inr (profiles, r) ↦
          let (cameras', q', c) = decrypt_cameras-perm cameras same.cameras q in
          let (profiles', r', p) = decrypt_profiles-perm profiles same.sftp_profiles r in
          let read : State = record {
            version = checked_version d.version;
            cameras = cameras;
            sessions = d.sessions;
            upload_queue = d.upload_queue;
            sftp_profiles = profiles;
            retention = checked_retention d.retention;
            events = d.events;
          } in
          let is : read ≡ s = cc (rw (q, r) at h) in
          let read' : State = record {
            version = checked_version d'.version;
            cameras = cameras';
            sessions = d'.sessions;
            upload_queue = d'.upload_queue;
            sftp_profiles = profiles';
            retention = checked_retention d'.retention;
            events = d'.events;
          } in
          (
            read',
            rw (decode_state, q', r') refl,
            subst (λ x. Reordered x read') is
                (record {
                  version = ap checked_version same.version;
                  cameras = c;
                  sessions = same.sessions;
                  upload_queue = same.upload_queue;
                  sftp_profiles = p;
                  retention = ap checked_retention same.retention;
                  events = same.events;
                }),
          )
    ]
  ]

module _ (lib : Library) (key : Bytes) (os : Answers) where
  encrypt_cameras-IsMap :
      (n m : ℕ) (t : Table Camera) (u : Table EncryptedCamera)
      → encrypt_cameras lib key os n t ≡ ok (u, m)
      → ((k : Bytes) → lookup k t ≡ none → lookup k u ≡ none) × (IsMap t → IsMap u)
  unfolding encrypt_cameras lookup
  encrypt_cameras-IsMap n m [] u h =
      let e : [] ≡ u = cc in
      (
        λ k absent. subst (λ x. lookup k x ≡ none) e refl,
        λ keys. subst (λ (x : Table EncryptedCamera). IsMap x) e tt,
      )
  encrypt_cameras-IsMap n m ((id, c) ∷ t) u h =
      elim (Result-cases (encrypt_password lib key os n c.password)) [
        | inl (e, q) ↦ absurd (cc (rw q at h))
        | inr ((cipher, k), q) ↦ elim (Result-cases (encrypt_cameras lib key os k t)) [
          | inl (e, r) ↦ absurd (cc (rw (q, r) at h))
          | inr ((rest, l), r) ↦
              let e : (id, record { camera = record c { password = [] }; password_cipher = cipher })
                    ∷ rest
                  ≡ u =
                cc (rw (q, r) at h) in
              let behind = encrypt_cameras-IsMap k l t rest r in
              (
                λ j absent. subst (λ x. lookup j x ≡ none) e (ground (arith, absent, behind.0 j)),
                λ keys.
                    subst (λ (x : Table EncryptedCamera). IsMap x) e
                      (behind.0 id keys.0, behind.1 keys.1),
              )
        ]
      ]

  encrypt_profiles-IsMap :
      (n m : ℕ) (t : Table SftpProfile) (u : Table EncryptedSftpProfile)
      → encrypt_profiles lib key os n t ≡ ok (u, m)
      → ((k : Bytes) → lookup k t ≡ none → lookup k u ≡ none) × (IsMap t → IsMap u)
  unfolding encrypt_profiles lookup
  encrypt_profiles-IsMap n m [] u h =
      let e : [] ≡ u = cc in
      (
        λ k absent. subst (λ x. lookup k x ≡ none) e refl,
        λ keys. subst (λ (x : Table EncryptedSftpProfile). IsMap x) e tt,
      )
  encrypt_profiles-IsMap n m ((id, c) ∷ t) u h =
      elim (Result-cases (encrypt_password lib key os n c.password)) [
        | inl (e, q) ↦ absurd (cc (rw q at h))
        | inr ((cipher, k), q) ↦ elim (Result-cases (encrypt_profiles lib key os k t)) [
          | inl (e, r) ↦ absurd (cc (rw (q, r) at h))
          | inr ((rest, l), r) ↦
              let e : (
                id,
                record { profile = record c { password = [] }; password_cipher = cipher },
              )
                    ∷ rest
                  ≡ u =
                cc (rw (q, r) at h) in
              let behind = encrypt_profiles-IsMap k l t rest r in
              (
                λ j absent. subst (λ x. lookup j x ≡ none) e (ground (arith, absent, behind.0 j)),
                λ keys.
                    subst (λ (x : Table EncryptedSftpProfile). IsMap x) e
                      (behind.0 id keys.0, behind.1 keys.1),
              )
        ]
      ]

  -- What is written has each key once, as the maps in memory.
  pub encode_state-HasTables :
      (s : State) (d : DiskState) → HasMaps s → encode_state lib key os s ≡ ok d → HasTables d
  unfolding encode_state
  encode_state-HasTables s d maps h = elim (Result-cases (encrypt_cameras lib key os 0 s.cameras)) [
    | inl (e, q) ↦ absurd (cc (rw q at h))
    | inr ((cameras, k), q) ↦ elim (Result-cases (encrypt_profiles lib key os k s.sftp_profiles)) [
      | inl (e, r) ↦ absurd (cc (rw (q, r) at h))
      | inr ((profiles, l), r) ↦
          let e : written s cameras profiles ≡ d = cc (rw (q, r) at h) in
          subst HasTables e (record {
            cameras = (encrypt_cameras-IsMap 0 k s.cameras cameras q).1 maps.cameras;
            sessions = maps.sessions;
            upload_queue = maps.upload_queue;
            sftp_profiles =
                (encrypt_profiles-IsMap k l s.sftp_profiles profiles r).1 maps.sftp_profiles;
            events = maps.events;
          })
    ]
  ]
