-- ===== src/Hub.antt =====
-- internal/stream/hub.go: one camera's stream, handed to recorders and viewers. Slices are values,
-- so the clones of the source need no model; a channel is its queue and its capacity.
pub mod Packets
pub mod Operations
pub mod Cache
pub mod Channels
pub mod Subscribe
pub mod Rtp
use mathlib.Core.Option
use fragata.Base.{
  ℕ, zero, suc, ◌+◌, ◌-◌, ◌%◌, ◌^◌, Bool, true, false, not, ◌&&◌, ◌||◌, ℤ, pos, lt_int, pos_part,
  List, [], ◌∷◌, ◌++◌, Option, none, some, Bytes, length, map, keep, ltb, leb, ◌==◌, if◌then◌else◌,
}

pub record Info : Type 0 where
  pub codec : Bytes
  pub width : ℤ
  pub height : ℤ
  pub vps : Bytes
  pub sps : Bytes
  pub pps : Bytes

pub record AudioInfo : Type 0 where
  pub codec : Bytes
  pub sample_rate : ℤ
  pub channels : ℤ
  pub codec_private : Bytes

abbrev pub no_info : Info
no_info = record { codec = []; width = pos 0; height = pos 0; vps = []; sps = []; pps = [] }

abbrev pub no_audio : AudioInfo
no_audio = record { codec = []; sample_rate = pos 0; channels = pos 0; codec_private = [] }

pub record AccessUnit : Type 0 where
  pub pts : ℤ
  pub nalus : List Bytes
  pub key_frame : Bool
  pub generation : ℕ
  pub discontinuity : Bool

-- The RTP packet beside the payload is the library's, and only handed on.
pub record AudioPacket (Packet : Type 0) : Type 0 where
  pub pts : ℤ
  pub payload : Bytes
  pub rtp : Option Packet
  pub generation : ℕ
  pub discontinuity : Bool

-- A subscription: its channel, and whether `done` is closed, `once` is used up, and the hub's map
-- still holds it.
pub record Subscription (A : Type 0) : Type 0 where
  pub queue : List A
  pub capacity : ℕ
  pub reliable : Bool
  pub done : Bool
  pub once : Bool
  pub member : Bool

-- A subscription to packets, whose channel itself is closed at its end.
pub record RtpSubscription (Packet : Type 0) : Type 0 where
  pub queue : List Packet
  pub capacity : ℕ
  pub is_closed : Bool
  pub once : Bool
  pub member : Bool

-- The subscriptions are numbered in the order in which they were made.
pub record Hub (Packet : Type 0) : Type 0 where
  pub info : Info
  pub audio_info : AudioInfo
  pub rtp_subs : List (RtpSubscription Packet)
  pub au_subs : List (Subscription AccessUnit)
  pub audio_subs : List (Subscription (AudioPacket Packet))
  pub generation : ℕ
  pub viewers : ℕ
  pub closed : Bool
  pub cached_gop : List AccessUnit
  pub cached_size : ℕ

abbrev pub max_cached_gop_units : ℕ
max_cached_gop_units = 600

abbrev pub max_cached_gop_bytes : ℕ
max_cached_gop_bytes = 25_165_824

pub record Gop : Type 0 where
  pub units : List AccessUnit
  pub size : ℕ

abbrev pub no_gop : Gop
no_gop = record { units = []; size = 0 }

abbrev pub total_length : List Bytes → ℕ
total_length [] = 0
total_length (nalu ∷ nalus) = length nalu + total_length nalus

abbrev pub access_unit_size : AccessUnit → ℕ
access_unit_size au = total_length au.nalus

abbrev pub is_nil : {A : Type 0} → List A → Bool
is_nil [] = true
is_nil (x ∷ xs) = false

-- The last tests of `cacheAccessUnitLocked`, on the first cached unit.
unfoldable pub extend_gop : AccessUnit → Gop → AccessUnit → Gop
extend_gop first gop au =
    let next_size = gop.size + access_unit_size au in
    if not (first.generation == 0)
      && (not (au.generation == 0) && not (first.generation == au.generation))
    then no_gop
    else if leb max_cached_gop_units (length gop.units) || ltb max_cached_gop_bytes next_size
    then no_gop
    else record { units = gop.units ++ au ∷ []; size = next_size }

abbrev pub extend_if_started : Gop → AccessUnit → List AccessUnit → Gop
extend_if_started gop au [] = gop
extend_if_started gop au (first ∷ rest) = extend_gop first gop au

unfoldable pub cache_access_unit : Gop → AccessUnit → Gop
cache_access_unit gop au =
    if au.discontinuity
    then no_gop
    else if is_nil au.nalus
    then gop
    else if au.key_frame
    then record { units = au ∷ []; size = access_unit_size au }
    else extend_if_started gop au gop.units

abbrev pub gop_of : {Packet : Type 0} → Hub Packet → Gop
gop_of h = record { units = h.cached_gop; size = h.cached_size }

-- A send that does not wait; `none` is the wait for room, or for `done`.
unfoldable pub send : {A : Type 0} → A → Subscription A → Option (Subscription A)
send a s =
    if ltb (length s.queue) s.capacity then some (record s { queue = s.queue ++ a ∷ [] }) else none

-- One delivery of `PublishAccessUnit` or `PublishAudio`. Where both the send and `done` are ready the
-- runtime picks one: `send_first` is its choice. `none` is a publisher that waits.
unfoldable pub deliver : {A : Type 0} → Bool → A → Subscription A → Option (Subscription A)
unfolding send
deliver send_first a s = elim (send a s) [
  | some s' ↦ some (if s.done && not send_first then s else s')
  | none ↦ if s.done then some s else if s.reliable then none else some s
]

-- The consumer's receive.
unfoldable pub receive : {A : Type 0} → Subscription A → Option (A × Subscription A)
receive s = elim s.queue [ [] ↦ none | a ∷ rest ↦ some (a, record s { queue = rest }) ]

-- `subscription.channel <- au` for each cached unit, under the lock; `none` would be a deadlock.
unfoldable pub prefill : {A : Type 0} → List A → Subscription A → Option (Subscription A)
prefill [] s = some s
prefill (a ∷ rest) s = elim (send a s) [ none ↦ none | some s' ↦ prefill rest s' ]

abbrev pub size_or : ℤ → ℕ → ℕ
size_or size default = if lt_int size (pos 1) then default else pos_part size

abbrev pub raised : ℕ → ℕ → ℕ
raised size minimum = if ltb size minimum then minimum else size

-- A subscription to a closed hub: `done` is closed, `once` is not used.
abbrev pub refused : {A : Type 0} → ℕ → Bool → Subscription A
refused size reliable = record {
  queue = [];
  capacity = size;
  reliable = reliable;
  done = true;
  once = false;
  member = false;
}

abbrev pub accepted : {A : Type 0} → ℕ → Bool → Subscription A
accepted size reliable = record {
  queue = [];
  capacity = size;
  reliable = reliable;
  done = false;
  once = false;
  member = true;
}

-- What an unreliable subscriber is sent first.
abbrev pub cached_for : Bool → List AccessUnit → List AccessUnit
cached_for reliable gop = if reliable then [] else gop

unfoldable pub open_access_units :
    ℤ → Bool → Bool → List AccessUnit → Option (Subscription AccessUnit)
open_access_units size reliable closed gop =
    let cached = cached_for reliable gop in
    let wanted = size_or size 64 in
    let capacity = if is_nil cached then wanted else raised wanted (length cached + 32) in
    if closed then some (refused capacity reliable) else prefill cached (accepted capacity reliable)

unfoldable pub open_audio : {P : Type 0} → ℤ → Bool → Bool → Subscription (AudioPacket P)
open_audio size reliable closed =
    if closed then refused (size_or size 256) reliable else accepted (size_or size 256) reliable

-- The function that a subscription returns, called while no `Close` is under way; `none` is the panic of
-- closing `done` twice.
unfoldable pub unsubscribe : {A : Type 0} → Subscription A → Option (Subscription A)
unsubscribe s =
    if s.once
    then some s
    else if s.done
    then none
    else some (record s { once = true; done = true; member = false })

-- What `Close` does to a subscription in the map, and to the map.
unfoldable pub shut : {A : Type 0} → Subscription A → Subscription A
shut s = if s.member then record s { once = true; done = true; member = false } else s

-- The loop over the map's subscriptions; `send_first` is the runtime's choice for each of them.
unfoldable pub deliver_all :
    {A : Type 0} → (ℕ → Bool) → A → List (Subscription A) → Option (List (Subscription A))
deliver_all send_first a [] = some []
deliver_all send_first a (s ∷ rest) =
    let others = deliver_all send_first a rest in
    elim (if s.member then deliver (send_first (length rest)) a s else some s) [
      | none ↦ none
      | some s' ↦ Option.map (λ rest'. s' ∷ rest') others
    ]
