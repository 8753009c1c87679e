-- ===== src/Hub/Rtp.antt =====
-- internal/stream/hub.go: the channels of packets, which are closed themselves.
use fragata.Base.{
  ℕ, zero, suc, ◌≡◌, refl, sym, inl, inr, Bool, true, false, ℤ, List, [], ◌∷◌, ◌++◌, Option, none,
  some, All, All-append, arith, Bool-cases, ltb, length,
}
use fragata.Hub.{Hub, RtpSubscription}
use fragata.Hub.Packets.{send_rtp, open_rtp, unsubscribe_rtp, shut_rtp, each}
use fragata.Hub.Operations.{publish_rtp, subscribe_rtp, close, new_hub, shut_down}

-- A channel in the map is open.
IsOpen : {P : Type 0} → RtpSubscription P → Type 0
IsOpen s = s.member ≡ true → s.is_closed ≡ false

-- A step that keeps its subscriptions open never panics.
Sound : {P : Type 0} → (RtpSubscription P → Option (RtpSubscription P)) → Type 0
Sound {P} f =
    (s : RtpSubscription P) → IsOpen s → (s' : RtpSubscription P) × (f s ≡ some s') × IsOpen s'

send_rtp-Sound : {P : Type 0} (pkt : P) → Sound (send_rtp pkt)
unfolding send_rtp Sound IsOpen
send_rtp-Sound pkt s h = elim (Bool-cases s.member) [
  | inr out ↦ (s, rw out refl, h)
  | inl in_ ↦ elim (Bool-cases (ltb (length s.queue) s.capacity)) [
    | inl room ↦ (record s { queue = s.queue ++ pkt ∷ [] }, ground (arith, h), h)
    | inr full ↦ (s, ground (arith, h), h)
  ]
]

unsubscribe_rtp-Sound : (P : Type 0) → Sound {P = P} unsubscribe_rtp
unfolding unsubscribe_rtp Sound IsOpen
unsubscribe_rtp-Sound P s h = elim (Bool-cases s.once) [
  | inl o ↦ (s, rw o refl, h)
  | inr o ↦ elim (Bool-cases s.member) [
    | inr out ↦ (record s { once = true }, ground (arith), h)
    | inl in_ ↦
        (record s { once = true; is_closed = true; member = false }, ground (arith, h), λ m. sym m)
  ]
]

shut_rtp-Sound : (P : Type 0) → Sound {P = P} shut_rtp
unfolding shut_rtp Sound IsOpen
shut_rtp-Sound P s h = elim (Bool-cases s.member) [
  | inr out ↦ (s, rw out refl, h)
  | inl in_ ↦ (record s { is_closed = true; member = false }, ground (arith, h), λ m. sym m)
]

each-Sound :
    {P : Type 0} (f : RtpSubscription P → Option (RtpSubscription P))
    (subs : List (RtpSubscription P))
    → Sound f
    → All IsOpen subs
    → (subs' : List (RtpSubscription P)) × (each f subs ≡ some subs') × All IsOpen subs'
unfolding Sound
each-Sound f [] sound h = ([], refl, tt)
each-Sound f (s ∷ rest) sound (h, hs) =
    let (s', e, h') = sound s h in
    let (rest', e', hs') = each-Sound f rest sound hs in
    (s' ∷ rest', rw (each, e, e') refl, (h', hs'))

open_rtp-IsOpen : (P : Type 0) (size : ℤ) (closed : Bool) → IsOpen (open_rtp {P = P} size closed)
unfolding open_rtp IsOpen
open_rtp-IsOpen P size true m = sym m
open_rtp-IsOpen P size false m = refl

-- The function that the n-th subscription of the list returned is called.
unfoldable pub end_rtp :
    {P : Type 0} → ℕ → List (RtpSubscription P) → Option (List (RtpSubscription P))
end_rtp n [] = some []
end_rtp zero (s ∷ rest) = elim (unsubscribe_rtp s) [ none ↦ none | some s' ↦ some (s' ∷ rest) ]
end_rtp (suc n) (s ∷ rest) = elim (end_rtp n rest) [ none ↦ none | some rest' ↦ some (s ∷ rest') ]

-- What the camera and the viewers do.
pub data RtpUse (P : Type 0) : Type 0 where
  publishes : P → RtpUse P
  subscribes : ℤ → RtpUse P
  ends : ℕ → RtpUse P
  shuts : RtpUse P

module _ {P : Type 0} where
  -- `none` is a panic.
  unfoldable pub use_hub : RtpUse P → Hub P → Option (Hub P)
  use_hub (publishes pkt) h = publish_rtp pkt h
  use_hub (subscribes size) h = some (subscribe_rtp size h)
  use_hub (ends n) h = elim (end_rtp n h.rtp_subs) [
    | none ↦ none
    | some subs ↦ some (record h { rtp_subs = subs })
  ]
  use_hub shuts h = close h

  unfoldable pub use_hub_all : List (RtpUse P) → Hub P → Option (Hub P)
  use_hub_all [] h = some h
  use_hub_all (u ∷ uses) h = elim (use_hub u h) [ none ↦ none | some h' ↦ use_hub_all uses h' ]

  end_rtp-IsOpen :
      (n : ℕ) (subs : List (RtpSubscription P))
      → All IsOpen subs
      → (subs' : List (RtpSubscription P)) × (end_rtp n subs ≡ some subs') × All IsOpen subs'
  unfolding end_rtp Sound
  end_rtp-IsOpen n [] h = ([], refl, tt)
  end_rtp-IsOpen zero (s ∷ rest) (h, hs) =
      let (s', e, h') = unsubscribe_rtp-Sound P s h in (s' ∷ rest, rw (end_rtp, e) refl, (h', hs))
  end_rtp-IsOpen (suc n) (s ∷ rest) (h, hs) =
      let (rest', e, hs') = end_rtp-IsOpen n rest hs in (s ∷ rest', rw (end_rtp, e) refl, (h, hs'))

  use_hub-IsOpen :
      (u : RtpUse P) (h : Hub P)
      → All IsOpen h.rtp_subs
      → (h' : Hub P) × (use_hub u h ≡ some h') × All IsOpen h'.rtp_subs
  unfolding use_hub publish_rtp subscribe_rtp close
  use_hub-IsOpen (publishes pkt) h o = elim (Bool-cases h.closed) [
    | inl c ↦ (h, rw c refl, o)
    | inr c ↦
        let (subs, e, o') = each-Sound (send_rtp pkt) h.rtp_subs (send_rtp-Sound pkt) o in
        (record h { rtp_subs = subs }, rw (publish_rtp, c, e) refl, o')
  ]
  use_hub-IsOpen (subscribes size) h o = (
    subscribe_rtp size h,
    refl,
    All-append IsOpen h.rtp_subs (open_rtp size h.closed ∷ []) o
        (open_rtp-IsOpen P size h.closed, tt),
  )
  use_hub-IsOpen (ends n) h o =
      let (subs, e, o') = end_rtp-IsOpen n h.rtp_subs o in
      (record h { rtp_subs = subs }, rw (use_hub, e) refl, o')
  use_hub-IsOpen shuts h o = elim (Bool-cases h.closed) [
    | inl c ↦ (h, rw c refl, o)
    | inr c ↦
        let (subs, e, o') = each-Sound shut_rtp h.rtp_subs (shut_rtp-Sound P) o in
        (shut_down h subs, rw (close, c, e) refl, o')
  ]

  use_hub_all-IsOpen :
      (uses : List (RtpUse P)) (h : Hub P)
      → All IsOpen h.rtp_subs
      → (h' : Hub P) × (use_hub_all uses h ≡ some h')
  unfolding use_hub_all
  use_hub_all-IsOpen [] h o = (h, refl)
  use_hub_all-IsOpen (u ∷ uses) h o =
      let (h', e, o') = use_hub-IsOpen u h o in
      let (h'', e') = use_hub_all-IsOpen uses h' o' in (h'', rw (use_hub_all, e) e')

  -- No sequence of packets published, subscriptions to packets made and ended, however often, and
  -- closings of the hub, before or after one another, makes it panic: no packet is sent on a closed
  -- channel, and none is closed twice.
  pub use_hub_all-returns :
      (uses : List (RtpUse P)) → (h : Hub P) × (use_hub_all uses new_hub ≡ some h)
  unfolding new_hub
  use_hub_all-returns uses = use_hub_all-IsOpen uses new_hub tt
