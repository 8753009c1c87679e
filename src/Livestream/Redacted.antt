-- ===== src/Livestream/Redacted.antt =====
-- internal/livestream/manager.go: what is left of an address in a message.
use mathlib.Core.List.{append_assoc}
use fragata.Base.{
  ℕ, suc, ◌+◌, ◌≡◌, refl, sym, ap, ◌∙◌, false, [], ◌∷◌, ◌++◌, Bytes, codes, none, some, length,
  length-append, take, take-append, drop-append, arith, ◌==◌, All, All-append,
}
use fragata.Livestream.Reader.{is_prefix, index, last_index, redact_url}

-- A text has no `@`.
abbrev HasNoAt : Bytes → Type 0
HasNoAt text = All (λ b. (64 == b) ≡ false) text

index-append :
    (before rest : Bytes)
    → HasNoAt before
    → index (codes "@") (before ++ 64 ∷ rest) ≡ some (length before)
unfolding index is_prefix
index-append [] rest no_at = refl
index-append (b ∷ before) rest no_at = rw no_at.0 (rw (index-append before rest no_at.1) refl)

last_index-append :
    (needle before rest : Bytes) (i : ℕ)
    → last_index needle rest ≡ some i
    → last_index needle (before ++ rest) ≡ some (length before + i)
unfolding last_index
last_index-append needle [] rest i e =
    let none_more : 0 + i ≡ i = omega arith in e ∙ ap some (sym none_more)
last_index-append needle (b ∷ before) rest i e =
    let one_more : suc (length before + i) ≡ suc (length before) + i = omega arith in
    rw (last_index-append needle before rest i e) (ap some one_more)

scheme-last_index :
    (user : Bytes)
    → last_index (codes "://") user ≡ none
    → last_index (codes "://") (codes "://" ++ user) ≡ some 0
unfolding last_index is_prefix
scheme-last_index user e = rw e refl

take-scheme :
    (before user rest : Bytes)
    → take (length before + 0 + 3) ((before ++ (codes "://" ++ user)) ++ rest)
      ≡ before ++ codes "://"
take-scheme before user rest =
    let scheme : Bytes = codes "://" in
    let size : length before + 0 + 3 ≡ length (before ++ scheme) =
      omega (arith, length-append before scheme) in
    let parts : (before ++ (scheme ++ user)) ++ rest ≡ (before ++ scheme) ++ (user ++ rest) =
      ap (λ t. t ++ rest) (sym (append_assoc before scheme user))
      ∙ append_assoc (before ++ scheme) user rest in
    rw (size, parts) (take-append (before ++ scheme) (user ++ rest))

-- In a message with an address, the user and password in front of its `@` are replaced: the rest of
-- the message is as it was, where the message has no `@` before that one, and no `://` is in them.
pub redact_url-hides :
    (before user rest : Bytes)
    → HasNoAt before
    → HasNoAt user
    → last_index (codes "://") user ≡ none
    → redact_url ((before ++ (codes "://" ++ user)) ++ (codes "@" ++ rest))
      ≡ (before ++ codes "://") ++ codes "***:***" ++ (codes "@" ++ rest)
unfolding redact_url
redact_url-hides before user rest no_at no_at' e =
    let front = before ++ (codes "://" ++ user) in
    rw
      (
        redact_url,
        index-append front rest
            (All-append _ before (codes "://" ++ user) no_at (refl, (refl, (refl, no_at')))),
        take-append front (codes "@" ++ rest),
        last_index-append (codes "://") before (codes "://" ++ user) 0 (scheme-last_index user e),
        take-scheme before user (codes "@" ++ rest),
        drop-append front (codes "@" ++ rest),
      )
      refl
