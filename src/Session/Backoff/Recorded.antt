-- ===== src/Session/Backoff/Recorded.antt =====
-- What a peer's record says of its attempts, through the calls that do not schedule a reconnect.
use i2pchat.Prelude.{
  option_rule, suc, ◌≡◌, refl, sym, ◌∙◌, ap, Bool, false, get_or, subst, Option, none, some, [],
  List, ◌∷◌, arith, Bool-cases, inl, inr,
}
use i2pchat.Text.{Str, str_eq, str_eq_iff}
use i2pchat.Text.Case.{CaseMapping}
use i2pchat.Dict.{lookup, put, lookup-put, keys}
use i2pchat.Session.State.{
  Time, Clock, TransportState, secure, peer_state_eq, PeerTransportState, ReconnectMetadata,
  no_reconnect, SessionManager,
}
use i2pchat.Session.Peers.{store, sync_legacy_views, resolve_peer_id, transition_transport}
use i2pchat.Session.Peers.Rules.{peer_rule}
use i2pchat.Session.Health.{
  has_expired, refresh_peer_health, is_peer_secure_channel_ready, ready_among, has_ready_peer,
  transition_unless_ready,
}
use i2pchat.Session.Health.Ready.{peer_transport-sync}

unfoldable pub reconnect_or : Option PeerTransportState → Option ReconnectMetadata
reconnect_or none = none
reconnect_or (some peer) = some peer.reconnect

-- What the table records of a peer's attempts
unfoldable pub recorded : Str → SessionManager → Option ReconnectMetadata
recorded k m = reconnect_or (lookup k m.peer_transport)

-- A peer that is not in the table has made none.
unfoldable pub attempts_of : Str → SessionManager → ReconnectMetadata
attempts_of k m = get_or no_reconnect (recorded k m)

-- A write that keeps its peer's attempts keeps every peer's.
store-recorded :
    (j k : Str) (v w : PeerTransportState) (m : SessionManager)
    → lookup k m.peer_transport ≡ some w
    → v.reconnect ≡ w.reconnect
    → recorded j (store k v m) ≡ recorded j m
unfolding recorded reconnect_or
store-recorded j k v w m found same = elim (Bool-cases (str_eq k j)) [
  | inl e ↦
      let here : lookup j (put k v m.peer_transport) ≡ some v =
        lookup-put k j v m.peer_transport ∙ rw e in
      let there : lookup j m.peer_transport ≡ some w =
        subst (λ i. lookup i m.peer_transport ≡ some w) ((str_eq_iff k j).0 e) found in
      ap reconnect_or {y = some v} here ∙ ap some same ∙ sym (ap reconnect_or there)
  | inr e ↦
      ap reconnect_or {y = lookup j m.peer_transport} (lookup-put k j v m.peer_transport ∙ rw e)
]

pub sync-recorded : (j : Str) (m : SessionManager) → recorded j (sync_legacy_views m) ≡ recorded j m
unfolding recorded
sync-recorded j m = rw peer_transport-sync

transport-recorded :
    (j : Str) (s : TransportState) (reason : Str) (m : SessionManager)
    → recorded j (transition_transport s reason m) ≡ recorded j m
unfolding recorded transition_transport
transport-recorded j s reason m = ground arith

module _ (u : CaseMapping) (j : Str) where
  refresh-recorded :
      (now : Time) (p : Option Str) (m : SessionManager)
      → recorded j (refresh_peer_health u now p m) ≡ recorded j m
  unfolding refresh_peer_health
  refresh-recorded now p m =
      let P = λ (n : SessionManager). recorded j n ≡ recorded j m in
      let key = resolve_peer_id u p in
      peer_rule P key m.peer_transport m _ refl λ peer found.
        elim (Bool-cases (has_expired m.secure_session_ttl now peer)) [
          | inr e ↦ rw e
          | inl e ↦ elim (Bool-cases (peer_state_eq peer.peer_state secure)) [
            | inl s ↦ rw (e, s) (sync-recorded j _ ∙ store-recorded j key _ peer m found refl)
            | inr s ↦ rw (e, s) (store-recorded j key _ peer m found refl)
          ]
        ]

  is_ready-recorded :
      (now : Time) (p : Option Str) (m : SessionManager)
      → recorded j (is_peer_secure_channel_ready u now p m).1 ≡ recorded j m
  unfolding is_peer_secure_channel_ready
  is_ready-recorded now p m =
      let P = λ (r : Bool × SessionManager). recorded j r.1 ≡ recorded j m in
      let key = resolve_peer_id u p in
      peer_rule P key m.peer_transport (false, m) _ refl
        λ peer found.
          let kept = refresh-recorded now (some key) m in
          option_rule P _ (false, _) _ (λ _. kept) (λ _ _. kept)

  ready_among-recorded :
      (t : Clock) (ks : List Str) (m : SessionManager)
      → recorded j (ready_among u t ks m).1 ≡ recorded j m
  unfolding ready_among
  ready_among-recorded t [] m = refl
  ready_among-recorded t (k ∷ ks) m =
      let r = is_peer_secure_channel_ready u (t 0) (some k) m in
      let kept = is_ready-recorded (t 0) (some k) m in
      elim (Bool-cases r.0) [
        | inl e ↦ rw e kept
        | inr e ↦ rw e (ready_among-recorded (λ i. t (suc i)) ks r.1 ∙ kept)
      ]

  pub unless_ready-recorded :
      (t : Clock) (s : TransportState) (reason : Str) (m : SessionManager)
      → recorded j (transition_unless_ready u t s reason m) ≡ recorded j m
  unfolding transition_unless_ready has_ready_peer
  unless_ready-recorded t s reason m =
      let r = ready_among u t (keys m.peer_transport) m in
      let kept = ready_among-recorded t (keys m.peer_transport) m in
      elim (Bool-cases r.0) [
        | inl e ↦ rw e kept
        | inr e ↦ rw e (transport-recorded j s reason r.1 ∙ kept)
      ]
