-- ===== src/Store/Reload.antt =====
-- Writing and reading in internal/store/store.go: passwords, the maps and the policy.
use fragata.Base.{
  ℕ, ◌≡◌, ◌≢◌, refl, ap, ◌∙◌, inl, inr, true, false, [], ◌∷◌, ◌++◌, none, some, Bytes, length,
  length-append, drop-append, take-append, arith, ltb, Table, Bool-cases, Option-cases,
}
use fragata.Model.{Camera, SftpProfile, State}
use fragata.Store.Disk.{
  ok, EncryptedCamera, EncryptedSftpProfile, DiskState, Library, Laws, Disk, Answers, encrypt,
  decrypt, encrypt_password, decrypt_password, encrypt_cameras, encrypt_profiles, decrypt_cameras,
  decrypt_profiles, encode_state, decode_state, checked_retention, checked_version, persist,
  replace_file,
}
use fragata.Store.Atomic.{Result-cases}

-- `io.ReadFull` gives as many bytes as the nonce holds.
pub record ReadsFully (lib : Library) (os : Answers) : Type 0 where
  pub size : (n : ℕ) (nonce : Bytes) → os.random n ≡ some nonce → length nonce ≡ lib.nonce_size

-- The disk form of a state, around its encrypted maps.
abbrev pub written : State → Table EncryptedCamera → Table EncryptedSftpProfile → DiskState
written s cameras profiles = record {
  version = s.version;
  cameras = cameras;
  sessions = s.sessions;
  upload_queue = s.upload_queue;
  sftp_profiles = profiles;
  retention = s.retention;
  events = s.events;
}

module _ (lib : Library) (laws : Laws lib) (key : Bytes) (os : Answers)
    (reads : ReadsFully lib os) where
  decrypt-sealed :
      (nonce plain : Bytes)
      → lib.new_gcm key ≡ true
      → length nonce ≡ lib.nonce_size
      → decrypt lib key (lib.encode_base64 (nonce ++ lib.seal key nonce plain)) ≡ ok plain
  unfolding decrypt
  decrypt-sealed nonce plain g e =
      let sealed : Bytes = lib.seal key nonce plain in
      let long : ltb (length (nonce ++ sealed)) lib.nonce_size ≡ false =
        ground (arith, length-append nonce sealed) in
      rw (laws.decode-encode (nonce ++ sealed), g, long, ← e)
        (rw (take-append nonce sealed, drop-append nonce sealed, laws.open-seal key nonce plain))

  decrypt_password-nonempty :
      (stored cipher : Bytes)
      → cipher ≢ []
      → decrypt_password lib key stored cipher ≡ decrypt lib key cipher
  unfolding decrypt_password
  decrypt_password-nonempty stored [] h = absurd (h refl)
  decrypt_password-nonempty stored (x ∷ xs) h = refl

  sealed_nonempty :
      (nonce rest : Bytes) → length nonce ≡ lib.nonce_size → lib.encode_base64 (nonce ++ rest) ≢ []
  sealed_nonempty [] rest e = absurd (omega (arith, laws.nonce_some))
  sealed_nonempty (x ∷ xs) rest e = laws.encode_nonempty x (xs ++ rest)

  ok_injective : {A : Type 0} (a b : A) → ok a ≡ ok b → a ≡ b
  ok_injective a b e = cc

  decrypt-encrypt :
      (n : ℕ) (plain cipher : Bytes)
      → encrypt lib key os n plain ≡ ok cipher
      → decrypt_password lib key [] cipher ≡ ok plain
  unfolding encrypt
  decrypt-encrypt n plain cipher h = elim (Bool-cases (lib.new_gcm key)) [
    | inr g ↦ absurd (cc (rw g at h))
    | inl g ↦ elim (Option-cases (os.random n)) [
      | inl r ↦ absurd (cc (rw (g, r) at h))
      | inr (nonce, r) ↦
          let size = reads.size n nonce r in
          let text : lib.encode_base64 (nonce ++ lib.seal key nonce plain) ≡ cipher =
            ok_injective _ _ (rw (g, r) at h) in
          rw (← text) (
            decrypt_password-nonempty [] _ (sealed_nonempty nonce _ size)
            ∙ decrypt-sealed nonce plain g size)
    ]
  ]

  -- A password comes back from its ciphertext, the empty one too, which is stored as it is.
  decrypt-encrypt_password :
      (n m : ℕ) (plain cipher : Bytes)
      → encrypt_password lib key os n plain ≡ ok (cipher, m)
      → decrypt_password lib key [] cipher ≡ ok plain
  unfolding encrypt_password decrypt_password
  decrypt-encrypt_password n m [] cipher h = let e : [] ≡ cipher = cc in rw (← e)
  decrypt-encrypt_password n m (x ∷ xs) cipher h =
      elim (Result-cases (encrypt lib key os n (x ∷ xs))) [
        | inl (e, q) ↦ absurd (cc (rw q at h))
        | inr (c, q) ↦
            let e : c ≡ cipher = cc (rw q at h) in rw (← e) (decrypt-encrypt n (x ∷ xs) c q)
      ]

  decrypt-encrypt_cameras :
      (n m : ℕ) (t : Table Camera) (u : Table EncryptedCamera)
      → encrypt_cameras lib key os n t ≡ ok (u, m)
      → decrypt_cameras lib key u ≡ ok t
  unfolding encrypt_cameras decrypt_cameras
  decrypt-encrypt_cameras n m [] u h = let e : [] ≡ u = cc in rw (← e)
  decrypt-encrypt_cameras n m ((id, c) ∷ t) u h =
      elim (Result-cases (encrypt_password lib key os n c.password)) [
        | inl (e, q) ↦ absurd (cc (rw q at h))
        | inr ((cipher, k), q) ↦ elim (Result-cases (encrypt_cameras lib key os k t)) [
          | inl (e, r) ↦ absurd (cc (rw (q, r) at h))
          | inr ((rest, l), r) ↦
              let e : (id, record { camera = record c { password = [] }; password_cipher = cipher })
                    ∷ rest
                  ≡ u =
                cc (rw (q, r) at h) in
              rw (← e) (
                rw (
                  decrypt-encrypt_password n k c.password cipher q,
                  decrypt-encrypt_cameras k l t rest r,
                ))
        ]
      ]

  decrypt-encrypt_profiles :
      (n m : ℕ) (t : Table SftpProfile) (u : Table EncryptedSftpProfile)
      → encrypt_profiles lib key os n t ≡ ok (u, m)
      → decrypt_profiles lib key u ≡ ok t
  unfolding encrypt_profiles decrypt_profiles
  decrypt-encrypt_profiles n m [] u h = let e : [] ≡ u = cc in rw (← e)
  decrypt-encrypt_profiles n m ((id, c) ∷ t) u h =
      elim (Result-cases (encrypt_password lib key os n c.password)) [
        | inl (e, q) ↦ absurd (cc (rw q at h))
        | inr ((cipher, k), q) ↦ elim (Result-cases (encrypt_profiles lib key os k t)) [
          | inl (e, r) ↦ absurd (cc (rw (q, r) at h))
          | inr ((rest, l), r) ↦
              let e : (
                id,
                record { profile = record c { password = [] }; password_cipher = cipher },
              )
                    ∷ rest
                  ≡ u =
                cc (rw (q, r) at h) in
              rw (← e) (
                rw (
                  decrypt-encrypt_password n k c.password cipher q,
                  decrypt-encrypt_profiles k l t rest r,
                ))
        ]
      ]

  -- The state as `load` makes it: an old version raised, an invalid policy replaced.
  pub decode-encode_state :
      (s : State) (d : DiskState)
      → encode_state lib key os s ≡ ok d
      → decode_state lib key d
        ≡ ok (record s {
          version = checked_version s.version;
          retention = checked_retention s.retention;
        })
  unfolding encode_state decode_state
  decode-encode_state s d h = elim (Result-cases (encrypt_cameras lib key os 0 s.cameras)) [
    | inl (e, q) ↦ absurd (cc (rw q at h))
    | inr ((cameras, k), q) ↦ elim (Result-cases (encrypt_profiles lib key os k s.sftp_profiles)) [
      | inl (e, r) ↦ absurd (cc (rw (q, r) at h))
      | inr ((profiles, l), r) ↦
          let e : written s cameras profiles ≡ d = cc (rw (q, r) at h) in
          rw (← e) (
            rw (
              decrypt-encrypt_cameras 0 k s.cameras cameras q,
              decrypt-encrypt_profiles k l s.sftp_profiles profiles r,
            ))
    ]
  ]

pub encode_state-version :
    (lib : Library) (key : Bytes) (os : Answers) (s : State) (d : DiskState)
    → encode_state lib key os s ≡ ok d
    → s.version ≡ d.version
unfolding encode_state
encode_state-version lib key os s d h =
    elim (Result-cases (encrypt_cameras lib key os 0 s.cameras)) [
      | inl (e, q) ↦ absurd (cc (rw q at h))
      | inr ((cameras, k), q) ↦
          elim (Result-cases (encrypt_profiles lib key os k s.sftp_profiles)) [
            | inl (e, r) ↦ absurd (cc (rw (q, r) at h))
            | inr ((profiles, l), r) ↦
                let e : written s cameras profiles ≡ d = cc (rw (q, r) at h) in
                ap (λ (x : DiskState). x.version) e
          ]
    ]

replace_file-ok :
    (os : Answers) (b : Bytes) (disk : Disk)
    → (replace_file os b disk).1 ≡ none
    → (replace_file os b disk).0.state_file ≡ some b
unfolding replace_file
replace_file-ok os b disk h = ground arith

-- A write that succeeds leaves the encoded state in the file.
pub persist-ok :
    (lib : Library) (key : Bytes) (os : Answers) (s : State) (disk : Disk)
    → (persist lib key os s disk).1 ≡ none
    → (d : DiskState) × (b : Bytes) × (encode_state lib key os s ≡ ok d)
      × (lib.marshal d ≡ some b)
      × ((persist lib key os s disk).0.state_file ≡ some (b ++ b'\n' ∷ []))
unfolding persist
persist-ok lib key os s disk h = elim (Result-cases (encode_state lib key os s)) [
  | inl (e, q) ↦ absurd (cc (rw (q, persist) at h))
  | inr (d, q) ↦ elim (Option-cases (lib.marshal d)) [
    | inl n ↦ absurd (cc (rw (q, n, persist) at h))
    | inr (b, n) ↦
        (d, b, q, n, rw (q, n, persist) (replace_file-ok os _ disk (rw (q, n, persist) at h)))
  ]
]
