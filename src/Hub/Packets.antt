-- ===== src/Hub/Packets.antt =====
-- internal/stream/hub.go: the channels of RTP packets.
use mathlib.Core.Option
use fragata.Base.{
  ℕ, ◌+◌, Bool, true, false, not, ℤ, List, [], ◌∷◌, ◌++◌, Option, none, some, length, ltb,
  if◌then◌else◌,
}
use fragata.Hub.{RtpSubscription, size_or}

-- One packet to one subscription; `none` is the panic of a send on a closed channel.
unfoldable pub send_rtp : {P : Type 0} → P → RtpSubscription P → Option (RtpSubscription P)
send_rtp pkt s =
    if not s.member
    then some s
    else if s.is_closed
    then none
    else if ltb (length s.queue) s.capacity
    then some (record s { queue = s.queue ++ pkt ∷ [] })
    else some s

unfoldable pub open_rtp : {P : Type 0} → ℤ → Bool → RtpSubscription P
open_rtp size closed = record {
  queue = [];
  capacity = size_or size 256;
  is_closed = closed;
  once = false;
  member = not closed;
}

-- The function that `SubscribeRTP` returns; `none` is the panic of closing a closed channel.
unfoldable pub unsubscribe_rtp : {P : Type 0} → RtpSubscription P → Option (RtpSubscription P)
unsubscribe_rtp s =
    if s.once
    then some s
    else if not s.member
    then some (record s { once = true })
    else if s.is_closed
    then none
    else some (record s { once = true; is_closed = true; member = false })

-- `close(ch)` for a channel in the map; the map is dropped after.
unfoldable pub shut_rtp : {P : Type 0} → RtpSubscription P → Option (RtpSubscription P)
shut_rtp s =
    if not s.member
    then some s
    else if s.is_closed
    then none
    else some (record s { is_closed = true; member = false })

-- A step on each subscription.
abbrev pub each : {A : Type 0} → (A → Option A) → List A → Option (List A)
each f [] = some []
each f (a ∷ rest) =
    let others = each f rest in
    elim (f a) [ none ↦ none | some a' ↦ Option.map (λ rest'. a' ∷ rest') others ]

abbrev pub members : {P : Type 0} → List (RtpSubscription P) → ℕ
members [] = 0
members (s ∷ rest) = (if s.member then 1 else 0) + members rest
