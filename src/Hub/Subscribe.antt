-- ===== src/Hub/Subscribe.antt =====
-- internal/stream/hub.go: how a subscription starts and ends.
use mathlib.Core.List.{append-nil, append_assoc}
use fragata.Base.{
  ℕ, suc, ◌+◌, ◌≤◌, ◌≡◌, refl, sym, ap, ◌∙◌, inl, inr, Bool, true, false, not, ℤ, List, [], ◌∷◌,
  ◌++◌, Option, none, some, length, length-append, arith, if◌then◌else◌, Bool-cases,
}
use fragata.Hub.{
  AccessUnit, Subscription, send, prefill, open_access_units, open_audio, unsubscribe, shut,
  accepted, size_or, raised, AudioPacket,
}

prefill-some :
    {A : Type 0} (items : List A) (s : Subscription A)
    → length s.queue + length items ≤ s.capacity
    → prefill items s ≡ some (record s { queue = s.queue ++ items })
unfolding prefill send
prefill-some [] s room = ap (λ queue. some (record s { queue = queue })) (sym (append-nil s.queue))
prefill-some (a ∷ items) s room =
    let next = record s { queue = s.queue ++ a ∷ [] } in
    let sent : send a s ≡ some next = ground arith in
    rw (prefill, sent)
      (prefill-some items next (omega (arith, length-append s.queue (a ∷ [])))
        ∙ ap (λ queue. some (record s { queue = queue })) (append_assoc s.queue (a ∷ []) items))

raised-le : (size minimum : ℕ) → minimum ≤ raised size minimum
raised-le size minimum = ground arith

-- A subscriber of a hub gets a subscription without waiting, whatever size it asks for: its channel
-- holds the cached units, for a viewer of an open hub, and nothing otherwise, never more than it has
-- room for. Its `done` is closed, and it is not in the hub's map, exactly if the hub is closed; its
-- `once` is never used up.
pub open_access_units-returns :
    (size : ℤ) (reliable closed : Bool) (gop : List AccessUnit)
    → (s : Subscription AccessUnit) × (open_access_units size reliable closed gop ≡ some s)
      × (s.queue ≡ (if closed then [] else if reliable then [] else gop))
      × (length s.queue ≤ s.capacity)
      × (s.done ≡ closed)
      × (s.once ≡ false)
      × (s.member ≡ not closed)
unfolding open_access_units
open_access_units-returns size reliable true gop = (_, refl, refl, omega arith, refl, refl, refl)
open_access_units-returns size true false gop = (
  _,
  prefill-some [] (accepted (size_or size 64) true) (omega arith),
  refl,
  omega arith,
  refl,
  refl,
  refl,
)
open_access_units-returns size false false [] = (
  _,
  prefill-some [] (accepted (size_or size 64) false) (omega arith),
  refl,
  omega arith,
  refl,
  refl,
  refl,
)
open_access_units-returns size false false (au ∷ aus) =
    let room = raised-le (size_or size 64) (suc (length aus) + 32) in
    (
      _,
      prefill-some (au ∷ aus) (accepted (raised (size_or size 64) (suc (length aus) + 32)) false)
          (omega (arith, room)),
      refl,
      omega (arith, room),
      refl,
      refl,
      refl,
    )

-- A subscription to a closed hub cannot be ended: the function returned with it closes `done` a
-- second time, and panics.
pub unsubscribe-closed :
    {Packet : Type 0} (size : ℤ) (reliable : Bool) (gop : List AccessUnit)
    → ((s : Subscription AccessUnit) × (open_access_units size reliable true gop ≡ some s)
        × (unsubscribe s ≡ none))
      × (unsubscribe (open_audio {P = Packet} size reliable true) ≡ none)
unfolding open_access_units open_audio unsubscribe
unsubscribe-closed size reliable gop = ((_, refl, refl), refl)

-- What can end a subscription: its own function, any number of times, and the hub's Close.
pub data Ending : Type 0 where
  unsubscribes : Ending
  closes : Ending

-- `none` is a panic.
pub endings : {A : Type 0} → List Ending → Subscription A → Option (Subscription A)
endings [] s = some s
endings (unsubscribes ∷ more) s = elim (unsubscribe s) [ none ↦ none | some s' ↦ endings more s' ]
endings (closes ∷ more) s = endings more (shut s)

-- Its flags agree: `done` is closed by `once` alone, which also takes it out of the map.
pub IsConsistent : {A : Type 0} → Subscription A → Type 0
IsConsistent s = (s.once ≡ s.done) × (s.member ≡ not s.done)

unsubscribe-IsConsistent :
    {A : Type 0} (s : Subscription A)
    → IsConsistent s
    → (s' : Subscription A) × (unsubscribe s ≡ some s') × IsConsistent s'
unfolding unsubscribe IsConsistent
unsubscribe-IsConsistent s h = elim (Bool-cases s.once) [
  | inl o ↦ (s, rw o refl, h)
  | inr o ↦ (record s { once = true; done = true; member = false }, ground arith, (refl, refl))
]

shut-IsConsistent : {A : Type 0} (s : Subscription A) → IsConsistent s → IsConsistent (shut s)
unfolding shut IsConsistent
shut-IsConsistent s h = ground arith

endings-IsConsistent :
    {A : Type 0} (more : List Ending) (s : Subscription A)
    → IsConsistent s
    → (s' : Subscription A) × (endings more s ≡ some s') × IsConsistent s'
unfolding endings
endings-IsConsistent [] s h = (s, refl, h)
endings-IsConsistent (unsubscribes ∷ more) s h =
    let (s', e, h') = unsubscribe-IsConsistent s h in
    let (s'', e', h'') = endings-IsConsistent more s' h' in (s'', rw (endings, e) e', h'')
endings-IsConsistent (closes ∷ more) s h =
    endings-IsConsistent more (shut s) (shut-IsConsistent s h)

-- A subscription to an open hub is ended without a panic by any sequence of calls of its function
-- and of the hub's Close, and so is one for audio.
pub endings-returns :
    {Packet : Type 0} (size : ℤ) (reliable : Bool) (gop : List AccessUnit) (more : List Ending)
    → ((s : Subscription AccessUnit) × (s' : Subscription AccessUnit) × (open_access_units size
            reliable false gop
          ≡ some s)
        × (endings more s ≡ some s'))
      × ((s' : Subscription (AudioPacket Packet)) × (endings more (open_audio size reliable false)
            ≡ some s'))
unfolding open_audio IsConsistent
endings-returns size reliable gop more =
    let (s, opened, _, _, done, once, member) = open_access_units-returns size reliable false gop in
    let (s', ended, _) =
      endings-IsConsistent more s (once ∙ sym done, member ∙ ap not (sym done)) in
    let (s'', ended', _) =
      endings-IsConsistent more (accepted (size_or size 256) reliable) (refl, refl) in
    ((s, s', opened, ended), (s'', ended'))
