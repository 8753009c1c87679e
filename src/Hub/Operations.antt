-- ===== src/Hub/Operations.antt =====
-- internal/stream/hub.go: the operations of the hub.
use mathlib.Core.Option
use fragata.Base.{
  ℕ, ◌+◌, ◌-◌, ◌%◌, ◌^◌, Bool, true, false, ℤ, pos, List, [], ◌∷◌, ◌++◌, Option, none, some, map,
  ltb, ◌==◌, if◌then◌else◌,
}
use fragata.Hub.{
  Info, no_info, AudioInfo, no_audio, AccessUnit, AudioPacket, RtpSubscription, Hub, gop_of,
  cache_access_unit, deliver_all, open_access_units, open_audio, shut,
}
use fragata.Hub.Packets.{send_rtp, open_rtp, shut_rtp, each, members}

module _ {Packet : Type 0} where
  unfoldable pub new_hub : Hub Packet
  new_hub = record {
    info = no_info;
    audio_info = no_audio;
    rtp_subs = [];
    au_subs = [];
    audio_subs = [];
    generation = 0;
    viewers = 0;
    closed = false;
    cached_gop = [];
    cached_size = 0;
  }

  unfoldable pub set_info : Info → Hub Packet → Hub Packet
  set_info i h = record h { info = i }

  unfoldable pub set_audio_info : AudioInfo → Hub Packet → Hub Packet
  set_audio_info i h = record h { audio_info = i }

  unfoldable pub begin_source : Hub Packet → Hub Packet × ℕ
  begin_source h = if h.closed then (h, 0) else (
    record h {
      generation = (h.generation + 1) % 2 ^ 64;
      audio_info = no_audio;
      cached_gop = [];
      cached_size = 0;
    },
    (h.generation + 1) % 2 ^ 64,
  )

  -- The locked part of `PublishAccessUnit`; `deliver` to each member follows.
  unfoldable pub cache_published : AccessUnit → Hub Packet → Hub Packet
  cache_published au h =
      let gop = cache_access_unit (gop_of h) au in
      if h.closed then h else record h { cached_gop = gop.units; cached_size = gop.size }

  unfoldable pub publish_access_unit : (ℕ → Bool) → AccessUnit → Hub Packet → Option (Hub Packet)
  publish_access_unit send_first au h =
      if h.closed
      then some h
      else Option.map (λ subs. record (cache_published au h) { au_subs = subs })
          (deliver_all send_first au h.au_subs)

  unfoldable pub publish_audio : (ℕ → Bool) → AudioPacket Packet → Hub Packet → Option (Hub Packet)
  publish_audio send_first packet h =
      if h.closed
      then some h
      else Option.map (λ subs. record h { audio_subs = subs })
          (deliver_all send_first packet h.audio_subs)

  unfoldable pub end_source : (ℕ → Bool) → (ℕ → Bool) → ℕ → Hub Packet → Option (Hub Packet)
  end_source send_first send_first' source h =
      let no_unit : AccessUnit = record {
        pts = pos 0;
        nalus = [];
        key_frame = false;
        generation = source;
        discontinuity = true;
      } in
      let no_packet : AudioPacket Packet = record {
        pts = pos 0;
        payload = [];
        rtp = none;
        generation = source;
        discontinuity = true;
      } in
      let marked : Option (Hub Packet) = elim (publish_access_unit send_first no_unit h) [
        | none ↦ none
        | some h' ↦ publish_audio send_first' no_packet h'
      ] in
      if source == 0 then some h else marked

  unfoldable pub subscribe_access_units : ℤ → Bool → Hub Packet → Option (Hub Packet)
  subscribe_access_units size reliable h =
      elim (open_access_units size reliable h.closed h.cached_gop) [
        | none ↦ none
        | some s ↦ some (record h { au_subs = h.au_subs ++ s ∷ [] })
      ]

  unfoldable pub subscribe_audio : ℤ → Bool → Hub Packet → Hub Packet
  subscribe_audio size reliable h = record h {
    audio_subs = h.audio_subs ++ open_audio size reliable h.closed ∷ [];
  }

  unfoldable pub acquire_viewer : Hub Packet → Hub Packet
  acquire_viewer h = if h.closed then h else record h { viewers = h.viewers + 1 }

  unfoldable pub release_viewer : Hub Packet → Hub Packet
  release_viewer h = if ltb 0 h.viewers then record h { viewers = h.viewers - 1 } else h

  unfoldable pub publish_rtp : Packet → Hub Packet → Option (Hub Packet)
  publish_rtp pkt h =
      if h.closed
      then some h
      else Option.map (λ subs. record h { rtp_subs = subs }) (each (send_rtp pkt) h.rtp_subs)

  unfoldable pub subscribe_rtp : ℤ → Hub Packet → Hub Packet
  subscribe_rtp size h = record h { rtp_subs = h.rtp_subs ++ open_rtp size h.closed ∷ [] }

  unfoldable pub viewer_count : Hub Packet → ℕ
  viewer_count h = members h.rtp_subs + h.viewers

  -- A closed hub, with these subscriptions to packets.
  abbrev pub shut_down : Hub Packet → List (RtpSubscription Packet) → Hub Packet
  shut_down h subs = record h {
    closed = true;
    cached_gop = [];
    cached_size = 0;
    rtp_subs = subs;
    au_subs = map shut h.au_subs;
    audio_subs = map shut h.audio_subs;
  }

  -- `none` is a panic.
  unfoldable pub close : Hub Packet → Option (Hub Packet)
  close h = if h.closed then some h else Option.map (shut_down h) (each shut_rtp h.rtp_subs)
