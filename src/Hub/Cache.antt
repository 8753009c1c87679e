-- ===== src/Hub/Cache.antt =====
-- internal/stream/hub.go: what the cached group of pictures holds after a run of published units.
use fragata.Base.{
  ℕ, suc, ◌+◌, ◌≤◌, ◌≡◌, refl, sym, ap, ◌∙◌, ◌⊎◌, inl, inr, Bool, true, false, not, ◌&&◌, List, [],
  ◌∷◌, ◌++◌, length, length-append, All, All-append, keep, arith, ltb, leb, ◌==◌, ◌||◌, Bool-cases,
}
use mathlib.Core.List.{append-nil, append_assoc}
use fragata.Hub.{
  AccessUnit, Gop, no_gop, cache_access_unit, extend_gop, access_unit_size, is_nil,
  extend_if_started, max_cached_gop_units, max_cached_gop_bytes,
}

pub units_size : List AccessUnit → ℕ
units_size [] = 0
units_size (au ∷ aus) = access_unit_size au + units_size aus

-- The cache after a run of published units.
unfoldable pub cache_all : Gop → List AccessUnit → Gop
cache_all gop [] = gop
cache_all gop (au ∷ aus) = cache_all (cache_access_unit gop au) aus

-- The units that carry media.
pub media : List AccessUnit → List AccessUnit
media = keep (λ au. not au.discontinuity && not (is_nil au.nalus))

pub IsDelta : AccessUnit → Type 0
IsDelta au = au.key_frame ≡ false

-- Nothing, or a keyframe and then no further one.
pub StartsAtKey : List AccessUnit → Type 0
StartsAtKey [] = Unit
StartsAtKey (au ∷ aus) = (au.key_frame ≡ true) × All IsDelta aus

-- Its size is counted right, and is within both bounds unless it is one keyframe alone.
pub IsBounded : Gop → Type 0
IsBounded gop =
    (gop.size ≡ units_size gop.units)
    × (length gop.units ≤ max_cached_gop_units)
    × ((length gop.units ≤ 1) ⊎ (gop.size ≤ max_cached_gop_bytes))

pub IsGop : Gop → Type 0
IsGop gop = StartsAtKey gop.units × IsBounded gop

units_size-append :
    (xs ys : List AccessUnit) → units_size (xs ++ ys) ≡ units_size xs + units_size ys
unfolding units_size
units_size-append [] ys = omega arith
units_size-append (x ∷ xs) ys = omega (arith, units_size-append xs ys)

no_gop-IsGop : IsGop no_gop
unfolding IsGop IsBounded StartsAtKey units_size
no_gop-IsGop = (tt, (refl, omega arith, inl (omega arith)))

abbrev carries : AccessUnit → Bool
carries au = not au.discontinuity && not (is_nil au.nalus)

-- What one published unit can do to the cache: clear it, keep it, start it again or extend it.
data Change (gop : Gop) (au : AccessUnit) : Gop → Type 0 where
  clears : Change gop au no_gop
  skips : carries au ≡ false → Change gop au gop
  waits : gop.units ≡ [] → Change gop au gop
  starts :
      carries au ≡ true
      → au.key_frame ≡ true
      → Change gop au (record { units = au ∷ []; size = access_unit_size au })
  extends :
      (first : AccessUnit) (rest : List AccessUnit)
      → carries au ≡ true
      → au.key_frame ≡ false
      → gop.units ≡ first ∷ rest
      → suc (length gop.units) ≤ max_cached_gop_units
      → gop.size + access_unit_size au ≤ max_cached_gop_bytes
      → Change gop au
          (record { units = gop.units ++ au ∷ []; size = gop.size + access_unit_size au })

extend-Change :
    (first : AccessUnit) (rest : List AccessUnit) (gop : Gop) (au : AccessUnit)
    → carries au ≡ true
    → au.key_frame ≡ false
    → gop.units ≡ first ∷ rest
    → Change gop au (extend_gop first gop au)
unfolding extend_gop
extend-Change first rest gop au c k e =
    elim (Bool-cases (
      not (first.generation == 0)
      && (not (au.generation == 0) && not (first.generation == au.generation)))) [
        | inl h ↦ rw h clears
        | inr h ↦
            elim (Bool-cases (
              leb max_cached_gop_units (length gop.units)
              || ltb max_cached_gop_bytes (gop.size + access_unit_size au))) [
                | inl h' ↦ rw (h, h') clears
                | inr h' ↦ rw (h, h') (extends first rest c k e (ground arith) (ground arith))
              ]
      ]

carries-not_nil :
    (au : AccessUnit) → au.discontinuity ≡ false → is_nil au.nalus ≡ false → carries au ≡ true
carries-not_nil au d n = ground arith

carries-nil : (au : AccessUnit) → is_nil au.nalus ≡ true → carries au ≡ false
carries-nil au n = ground arith

cache-delta :
    (gop : Gop) (units : List AccessUnit) (au : AccessUnit)
    → gop.units ≡ units
    → carries au ≡ true
    → au.key_frame ≡ false
    → Change gop au (extend_if_started gop au units)
cache-delta gop [] au e c k = waits e
cache-delta gop (first ∷ rest) au e c k = extend-Change first rest gop au c k e

cache-Change : (gop : Gop) (au : AccessUnit) → Change gop au (cache_access_unit gop au)
unfolding cache_access_unit
cache-Change gop au = elim (Bool-cases au.discontinuity) [
  | inl d ↦ simp d clears
  | inr d ↦ elim (Bool-cases (is_nil au.nalus)) [
    | inl n ↦ simp (d, n) (skips (carries-nil au n))
    | inr n ↦ elim (Bool-cases au.key_frame) [
      | inl k ↦ simp (d, n, k) (starts (carries-not_nil au d n) k)
      | inr k ↦ simp (d, n, k) (cache-delta gop gop.units au refl (carries-not_nil au d n) k)
    ]
  ]
]

all-deltas :
    (first : AccessUnit) (rest units : List AccessUnit) (au : AccessUnit)
    → units ≡ first ∷ rest
    → StartsAtKey units
    → au.key_frame ≡ false
    → StartsAtKey (units ++ au ∷ [])
unfolding StartsAtKey IsDelta
all-deltas first rest [] au e h k = cc
all-deltas first rest (u ∷ us) au e h k = (h.0, All-append IsDelta us (au ∷ []) h.1 (k, tt))

change-IsGop : (gop gop' : Gop) (au : AccessUnit) → Change gop au gop' → IsGop gop → IsGop gop'
unfolding IsGop IsBounded units_size StartsAtKey
change-IsGop gop gop' au clears h = no_gop-IsGop
change-IsGop gop gop' au (skips c) h = h
change-IsGop gop gop' au (waits e) h = h
change-IsGop gop gop' au (starts c k) h = ((k, tt), (omega arith, omega arith, inl (omega arith)))
change-IsGop gop gop' au (extends first rest c k e n b) h =
    let total = units_size-append gop.units (au ∷ []) in
    let counted = length-append gop.units (au ∷ []) in
    (
      all-deltas first rest gop.units au e h.0 k,
      (omega (arith, total, h.1.0), omega (arith, counted), inr b),
    )

-- The cached units end what was published before.
IsTail : List AccessUnit → List AccessUnit → Type 0
IsTail units published = (earlier : List AccessUnit) × (earlier ++ units ≡ published)

change-IsTail :
    (gop gop' : Gop) (au : AccessUnit) (published : List AccessUnit)
    → Change gop au gop'
    → IsTail gop.units published
    → IsTail gop'.units (published ++ media (au ∷ []))
unfolding IsTail media
change-IsTail gop gop' au published clears h = (published ++ media (au ∷ []), append-nil _)
change-IsTail gop gop' au published (skips c) h = rw (c, append-nil published) h
change-IsTail gop gop' au published (waits e) h =
    (published ++ media (au ∷ []), rw e (append-nil _))
change-IsTail gop gop' au published (starts c k) h = rw c (published, refl)
change-IsTail gop gop' au published (extends first rest c k e n b) (earlier, joined) = rw c (
  earlier,
  sym (append_assoc earlier gop.units (au ∷ [])) ∙ ap (λ before. before ++ au ∷ []) joined,
)

media-cons :
    (au : AccessUnit) (aus : List AccessUnit) → media (au ∷ []) ++ media aus ≡ media (au ∷ aus)
unfolding media
media-cons au aus = elim (Bool-cases (carries au)) [ inl c ↦ simp c refl | inr c ↦ simp c refl ]

cache_from-IsGop : (gop : Gop) (aus : List AccessUnit) → IsGop gop → IsGop (cache_all gop aus)
unfolding cache_all
cache_from-IsGop gop [] h = h
cache_from-IsGop gop (au ∷ aus) h =
    cache_from-IsGop (cache_access_unit gop au) aus (change-IsGop gop _ au (cache-Change gop au) h)

cache_from-IsTail :
    (gop : Gop) (aus published : List AccessUnit)
    → IsTail gop.units published
    → IsTail (cache_all gop aus).units (published ++ media aus)
unfolding cache_all media IsTail
cache_from-IsTail gop [] published h = rw (append-nil published) h
cache_from-IsTail gop (au ∷ aus) published h =
    let later = change-IsTail gop _ au published (cache-Change gop au) h in
    let all =
      cache_from-IsTail (cache_access_unit gop au) aus (published ++ media (au ∷ [])) later in
    (
      all.0,
      all.1
          ∙ append_assoc published (media (au ∷ [])) (media aus)
          ∙ ap (published ++◌) (media-cons au aus),
    )

-- Whatever units are published, the cache is empty or one keyframe followed by units that are none;
-- its recorded size is that of its units; it has at most 600 of them, and at most 24 MiB unless it
-- is a single unit.
pub cache_all-IsGop : (aus : List AccessUnit) → IsGop (cache_all no_gop aus)
cache_all-IsGop aus = cache_from-IsGop no_gop aus no_gop-IsGop

-- The cache holds the last units that were published with media and without a discontinuity, in
-- their order and with none left out between them.
pub cache_all-IsTail :
    (aus : List AccessUnit)
    → (earlier : List AccessUnit) × (earlier ++ (cache_all no_gop aus).units ≡ media aus)
unfolding IsTail
cache_all-IsTail aus = cache_from-IsTail no_gop aus [] ([], refl)
