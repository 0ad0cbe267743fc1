-- ===== src/Session/Policy.antt =====
-- Which way a message goes: `is_live_path_alive` and `select_outbound_policy`.
pub mod Live
use i2pchat.Prelude.{
  Bool, false, ◌&&◌, ◌||◌, Option, some, [], if◌then◌else◌, is_empty, is_some, get_or,
}
use i2pchat.Text.{Str, codes, str_eq}
use i2pchat.Text.Strip.{strip}
use i2pchat.Text.Case.{CaseMapping}
use i2pchat.PeerAddress.{normalize_peer_id}
use i2pchat.Dict.{has_key}
use i2pchat.Session.State.{
  Time, OutboundPolicy, live_only, prefer_live_fallback_blindbox, queue_then_retry_live,
  blindbox_only, SessionManager,
}
use i2pchat.Session.Peers.{or_text}
use i2pchat.Session.Health.{is_peer_secure_channel_ready}

-- The last branches of `select_outbound_policy`
unfoldable pub policy_for : Str → Bool → OutboundPolicy
policy_for route live_alive =
    if str_eq route (codes "live")
    then live_only
    else if str_eq route (codes "offline")
    then blindbox_only
    else if live_alive
    then prefer_live_fallback_blindbox
    else queue_then_retry_live

module _ (u : CaseMapping) where
  unfoldable pub is_live_path_alive :
      Time → Option Bool → Option Bool → Option Str → SessionManager → Bool × SessionManager
  is_live_path_alive now connected handshake_complete peer_id m =
      let explicit_peer = normalize_peer_id u (or_text peer_id []) in
      if is_empty explicit_peer
      then if is_some connected || is_some handshake_complete
        then (get_or false connected && get_or false handshake_complete, m)
        else (false, m)
      else if has_key explicit_peer m.peer_transport
      then is_peer_secure_channel_ready u now (some explicit_peer) m
      else (false, m)

  unfoldable pub select_outbound_policy :
      Time
      → Str
      → Option Bool
      → Option Bool
      → Option Str
      → SessionManager
      → OutboundPolicy × SessionManager
  select_outbound_policy now requested_route connected handshake_complete peer_id m =
      let route =
        u.lower (strip (if is_empty requested_route then codes "auto" else requested_route)) in
      let (live_alive, m') = is_live_path_alive now connected handshake_complete peer_id m in
      (policy_for route live_alive, m')
