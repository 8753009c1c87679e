-- ===== src/Examples/Hub.antt =====
-- internal/stream/hub_test.go: a group of pictures, a viewer and a recorder.
use fragata.Base.{
  ℕ, ◌≤◌, ◌≡◌, refl, inl, Bool, true, false, List, [], ◌∷◌, ◌++◌, none, some, pos, length, arith,
}
use fragata.Hub.{
  Hub, AccessUnit, AudioPacket, Subscription, no_gop, cache_access_unit, extend_gop,
  open_access_units, open_audio, unsubscribe, accepted, deliver, send, receive,
}
use fragata.Hub.Operations.{new_hub}
use fragata.Hub.Cache.{IsGop, cache_all, cache_all-IsGop, cache_all-IsTail, media}
use fragata.Hub.Channels.{
  Event, delivers, receives, follow, receive_next, published, follow-reliable, follow-returns,
}
use fragata.Hub.Rtp.{RtpUse, publishes, subscribes, ends, shuts, use_hub_all, use_hub_all-returns}
use fragata.Hub.Subscribe.{unsubscribes, closes, endings, endings-returns, unsubscribe-closed}

abbrev unit_of : ℕ → Bool → ℕ → AccessUnit
unit_of at key source = record {
  pts = pos at;
  nalus = (101 ∷ 1 ∷ []) ∷ [];
  key_frame = key;
  generation = source;
  discontinuity = false;
}

abbrev stream : List AccessUnit
stream =
    unit_of 0 false 1
    ∷ unit_of 1 true 1
    ∷ unit_of 2 false 1
    ∷ unit_of 3 true 1
    ∷ unit_of 4 false 1
    ∷ []

stream-cached :
    cache_all no_gop stream ≡ record { units = unit_of 3 true 1 ∷ unit_of 4 false 1 ∷ []; size = 4 }
unfolding cache_all cache_access_unit extend_gop
stream-cached = refl

cache_all-IsGop_example : IsGop (cache_all no_gop stream)
cache_all-IsGop_example = cache_all-IsGop stream

cache_all-IsTail_example :
    (earlier : List AccessUnit) × (earlier ++ (cache_all no_gop stream).units ≡ media stream)
cache_all-IsTail_example = cache_all-IsTail stream

abbrev recorder : Subscription ℕ
recorder = accepted 2 true

abbrev busy : List (Event ℕ)
busy = delivers true 7 ∷ delivers false 8 ∷ receives ∷ delivers true 9 ∷ receives ∷ []

abbrev after_busy : Subscription ℕ
after_busy = record recorder { queue = 9 ∷ [] }

busy-followed : follow busy [] recorder ≡ some (7 ∷ 8 ∷ [], after_busy)
unfolding follow deliver send receive receive_next
busy-followed = refl

-- A third unit finds no room.
full-waits : follow (delivers true 7 ∷ delivers true 8 ∷ delivers true 9 ∷ []) [] recorder ≡ none
unfolding follow deliver send
full-waits = refl

follow-reliable_example : (7 ∷ 8 ∷ []) ++ after_busy.queue ≡ [] ++ recorder.queue ++ published busy
follow-reliable_example =
    follow-reliable busy [] (7 ∷ 8 ∷ []) recorder after_busy refl refl busy-followed

abbrev viewer : Subscription ℕ
viewer = accepted 2 false

follow-returns_example :
    (got : List ℕ) × (s : Subscription ℕ) × (follow busy [] viewer ≡ some (got, s))
    × (length s.queue ≤ viewer.capacity)
follow-returns_example = follow-returns busy [] viewer refl (omega arith) (inl refl)

endings-returns_example :
    ((s : Subscription AccessUnit) × (s' : Subscription AccessUnit) × (open_access_units
          (pos 1)
          true
          false
          []
        ≡ some s)
      × (endings (unsubscribes ∷ closes ∷ unsubscribes ∷ []) s ≡ some s'))
    × ((s' : Subscription (AudioPacket ℕ)) × (endings
            (unsubscribes ∷ closes ∷ unsubscribes ∷ [])
            (open_audio (pos 1) true false)
          ≡ some s'))
endings-returns_example =
    endings-returns (pos 1) true [] (unsubscribes ∷ closes ∷ unsubscribes ∷ [])

unsubscribe-closed_example :
    ((s : Subscription AccessUnit) × (open_access_units (pos 1) true true [] ≡ some s)
      × (unsubscribe s ≡ none))
    × (unsubscribe (open_audio {P = ℕ} (pos 1) true true) ≡ none)
unsubscribe-closed_example = unsubscribe-closed (pos 1) true []

abbrev packets : List (RtpUse ℕ)
packets =
    subscribes (pos 1)
    ∷ publishes 5
    ∷ publishes 6
    ∷ ends 0
    ∷ publishes 7
    ∷ shuts
    ∷ subscribes (pos 1)
    ∷ ends 1
    ∷ ends 0
    ∷ []

use_hub_all-returns_example : (h : Hub ℕ) × (use_hub_all packets new_hub ≡ some h)
use_hub_all-returns_example = use_hub_all-returns packets
