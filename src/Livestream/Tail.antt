-- ===== src/Livestream/Tail.antt =====
-- What the `tailBuffer` of internal/livestream/manager.go holds.
use fragata.Base.{
  ℕ, zero, suc, ◌+◌, ◌-◌, ◌≤◌, ◌<◌, ◌≡◌, refl, sym, ap, ◌∙◌, inl, inr, true, ℤ, pos, negsuc, lt_int,
  pos_part, List, [], ◌∷◌, ◌++◌, Bytes, length, length-append, length-drop, drop, ltb, leb, arith,
  Bool-cases, ltb→le, ltb→lt, leb→le,
}
use fragata.Livestream.{tail_write}

-- The last n bytes, or all of fewer.
unfoldable pub last : ℕ → Bytes → Bytes
last n p = drop (length p - n) p

drop-left : (n : ℕ) (xs ys : Bytes) → n ≤ length xs → drop n (xs ++ ys) ≡ drop n xs ++ ys
drop-left zero xs ys h = refl
drop-left (suc n) [] ys h = absurd (omega arith)
drop-left (suc n) (x ∷ xs) ys h = drop-left n xs ys (omega arith)

drop-right : (k : ℕ) (xs ys : Bytes) → drop (length xs + k) (xs ++ ys) ≡ drop k ys
drop-right k [] ys = ap (λ n. drop n ys) (omega arith)
drop-right k (x ∷ xs) ys =
    let next : suc (length xs) + k ≡ suc (length xs + k) = omega arith in
    ap (λ n. drop n (x ∷ xs ++ ys)) next ∙ drop-right k xs ys

drop-nil : (n : ℕ) → drop {A = ℕ} n [] ≡ []
drop-nil zero = refl
drop-nil (suc n) = refl

drop-drop : (a b : ℕ) (xs : Bytes) → drop a (drop b xs) ≡ drop (b + a) xs
drop-drop a zero xs = ap (λ n. drop n xs) (omega arith)
drop-drop a (suc b) [] = drop-nil a ∙ sym (drop-nil (suc b + a))
drop-drop a (suc b) (x ∷ xs) =
    let next : suc (b + a) ≡ suc b + a = omega arith in
    drop-drop a b xs ∙ ap (λ n. drop n (x ∷ xs)) next

drop-all : (n : ℕ) (xs : Bytes) → length xs ≤ n → drop n xs ≡ []
drop-all n [] h = drop-nil n
drop-all zero (x ∷ xs) h = absurd (omega arith)
drop-all (suc n) (x ∷ xs) h = drop-all n xs (omega arith)

no_room : (limit : ℤ) → lt_int limit (pos 1) ≡ true → pos_part limit ≡ 0
no_room (pos n) h = ground arith
no_room (negsuc n) h = refl

-- What is kept of the buffer, up to some byte of the whole.
kept-left :
    (room skip : ℕ) (all p : Bytes)
    → length all - room + skip ≡ length (all ++ p) - room
    → length all - room + skip ≤ length all
    → drop skip (last room all) ++ p ≡ last room (all ++ p)
unfolding last
kept-left room skip all p same inside =
    ap (λ front. front ++ p) (drop-drop skip (length all - room) all)
    ∙ sym (drop-left (length all - room + skip) all p inside)
    ∙ ap (λ n. drop n (all ++ p)) same

tail_write-last :
    (limit : ℤ) (all p : Bytes)
    → tail_write limit (last (pos_part limit) all) p ≡ last (pos_part limit) (all ++ p)
unfolding tail_write last
tail_write-last limit all p =
    let room = pos_part limit in
    let total = length-append all p in
    let kept = length-drop (length all - room) all in
    elim (Bool-cases (lt_int limit (pos 1))) [
      | inl off ↦
          let none_ = no_room limit off in
          rw (tail_write, off)
            (drop-all (length all - room) all (omega (arith, none_))
              ∙ sym (drop-all (length (all ++ p) - room) (all ++ p) (omega (arith, none_))))
      | inr on ↦ elim (Bool-cases (leb room (length p))) [
        | inl long ↦
            rw (tail_write, on, long)
              (sym (drop-right (length p - room) all p)
                ∙ ap (λ n. drop n (all ++ p)) (omega (arith, total, leb→le _ _ long)))
        | inr short ↦ elim (Bool-cases (ltb room (length (last room all) + length p))) [
          | inl over ↦
              let skip = length (last room all) - (room - length p) in
              let short_ : length p < room = ground arith in
              let over_ = ltb→lt room (length (last room all) + length p) over in
              rw (tail_write, on, short, over)
                (kept-left room skip all p (omega (arith, total, kept, short_, over_))
                  (omega (arith, total, kept, short_, over_)))
          | inr fits ↦
              let fits_ = ltb→le room (length (last room all) + length p) fits in
              rw (tail_write, on, short, fits)
                (kept-left room 0 all p (omega (arith, total, kept, fits_))
                  (omega (arith, total, kept, fits_)))
        ]
      ]
    ]

-- All texts, one behind another.
unfoldable pub joined : Bytes → List Bytes → Bytes
joined all [] = all
joined all (p ∷ texts) = joined (all ++ p) texts

unfoldable pub tail_write_all : ℤ → Bytes → List Bytes → Bytes
tail_write_all limit buffer [] = buffer
tail_write_all limit buffer (p ∷ texts) = tail_write_all limit (tail_write limit buffer p) texts

-- A buffer with the last bytes of some text, as many as its limit, has the last bytes of the whole
-- after any sequence of further writes; a limit that is not positive counts as zero.
pub tail_write_all-last :
    (limit : ℤ) (all : Bytes) (texts : List Bytes)
    → tail_write_all limit (last (pos_part limit) all) texts
      ≡ last (pos_part limit) (joined all texts)
unfolding tail_write_all joined
tail_write_all-last limit all [] = refl
tail_write_all-last limit all (p ∷ texts) =
    ap (λ buffer. tail_write_all limit buffer texts) (tail_write-last limit all p)
    ∙ tail_write_all-last limit (all ++ p) texts
