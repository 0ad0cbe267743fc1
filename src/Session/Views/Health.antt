-- ===== src/Session/Views/Health.antt =====
-- The derived views under the helpers that the methods share, and under the checks of health.
use i2pchat.Prelude.{
  if_rule, option_rule, suc, ◌≡◌, refl, sym, ◌∙◌, ap, Bool, false, Option, none, some, List, [],
  ◌∷◌, arith, Bool-cases, inl, inr,
}
use i2pchat.Text.{Str}
use i2pchat.Text.Case.{CaseMapping}
use i2pchat.PeerAddress.{normalize_peer_id}
use i2pchat.Dict.{Dict, lookup, keys, keys-put}
use i2pchat.Session.State.{
  Time, Clock, secure, peer_state_eq, TransportState, PeerTransportState, SessionManager, Result,
  ok, ◌>>=◌, new_peer, OutboundStreamInfo,
}
use i2pchat.Session.Peers.{
  transition_transport, derive_aggregate_peer_state, merge_streams, ensure_peer_transport, store,
  resolve_peer_id,
}
use i2pchat.Session.Peers.Rules.{peer_rule, ensure_rule}
use i2pchat.Session.Streams
use i2pchat.Session.Health
use i2pchat.Session.Calls.{settle}
use i2pchat.Session.Views.{IsSynced, sync_legacy_views-IsSynced}
use i2pchat.Session.Views.Table.{
  derive-put, derive-put_new, merge_streams-put, merge_streams-put_new,
}

-- The views look at three fields only.
pub same_views :
    (m n : SessionManager)
    → n.peer_state ≡ m.peer_state
    → n.peer_transport ≡ m.peer_transport
    → n.outbound_streams ≡ m.outbound_streams
    → IsSynced m
    → IsSynced n
same_views m n a b c h = record {
  state = a ∙ h.state ∙ ap derive_aggregate_peer_state (sym b);
  streams = c ∙ h.streams ∙ ap (λ d. merge_streams d []) (sym b);
}

-- A write to a peer that is there, which keeps its state and the keys of its streams
pub store-IsSynced :
    (k : Str) (v w : PeerTransportState) (m : SessionManager)
    → lookup k m.peer_transport ≡ some w
    → v.peer_state ≡ w.peer_state
    → keys v.outbound_streams ≡ keys w.outbound_streams
    → IsSynced m
    → IsSynced (store k v m)
store-IsSynced k v w m e s t h = record {
  state = h.state ∙ sym (derive-put k v w m.peer_transport e s);
  streams = h.streams ∙ sym (merge_streams-put k v w m.peer_transport [] e t);
}

pub store_new-IsSynced :
    (k : Str) (now : Time) (m : SessionManager)
    → lookup k m.peer_transport ≡ none
    → IsSynced m
    → IsSynced (store k (new_peer k now) m)
store_new-IsSynced k now m e h = record {
  state = h.state ∙ sym (derive-put_new k (new_peer k now) m.peer_transport e refl);
  streams = h.streams ∙ sym (merge_streams-put_new k (new_peer k now) m.peer_transport [] e refl);
}

pub transport-IsSynced :
    (s : TransportState) (reason : Str) (m : SessionManager)
    → IsSynced m
    → IsSynced (transition_transport s reason m)
unfolding transition_transport
transport-IsSynced s reason m h = same_views m _ (ground arith) (ground arith) (ground arith) h

pub recover-IsSynced : (m : SessionManager) → IsSynced m → IsSynced (Health.recover_transport m)
unfolding Health.recover_transport
recover-IsSynced m h =
    if_rule IsSynced (Health.recovers m.transport_state) _ m (λ _. transport-IsSynced _ _ m h)
      (λ _. h)

pub touched_keys :
    (now : Time) (d : Str) (streams : Dict OutboundStreamInfo)
    → keys (Streams.touched_streams now d streams) ≡ keys streams
unfolding Streams.touched_streams
touched_keys now d streams =
    option_rule (λ r. keys r ≡ keys streams) (lookup d streams) streams _ (λ _. refl)
      (λ info e. keys-put d _ info streams e)

abbrev pub Settled : SessionManager → Result SessionManager → Type 0
Settled m r = IsSynced (settle m r)

module _ (u : CaseMapping) where
  pub ensure-IsSynced :
      (t : Time) (p : Str) (m : SessionManager)
      → IsSynced m
      → Settled m (ensure_peer_transport u t p m >>= λ r. ok r.2)
  unfolding settle
  ensure-IsSynced t p m h =
      ensure_rule (Settled m) u t p m (λ r. ok r.2) h (λ peer found. h)
        (λ missing. store_new-IsSynced (normalize_peer_id u p) t m missing h)

  -- A method that makes sure of its peer and then ends by rebuilding the views
  pub synced_after :
      (t : Time) (p : Str) (m : SessionManager)
      (f : Str × PeerTransportState × SessionManager → SessionManager)
      → ((r : Str × PeerTransportState × SessionManager) → IsSynced (f r))
      → IsSynced m
      → Settled m (ensure_peer_transport u t p m >>= λ r. ok (f r))
  unfolding settle
  synced_after t p m f k h =
      ensure_rule (Settled m) u t p m (λ r. ok (f r)) h (λ peer found. k _) (λ missing. k _)

  pub refresh-IsSynced :
      (now : Time) (p : Option Str) (m : SessionManager)
      → IsSynced m
      → IsSynced (Health.refresh_peer_health u now p m)
  unfolding Health.refresh_peer_health
  refresh-IsSynced now p m h =
      peer_rule IsSynced (resolve_peer_id u p) m.peer_transport m _ h λ peer found.
        elim (Bool-cases (Health.has_expired m.secure_session_ttl now peer)) [
          | inr e ↦ rw e h
          | inl e ↦ elim (Bool-cases (peer_state_eq peer.peer_state secure)) [
            | inl s ↦ rw (e, s) (sync_legacy_views-IsSynced _)
            | inr s ↦
                let peer' = record peer {
                  stale_since_mono = Health.stale_from now peer.stale_since_mono;
                } in
                rw (e, s) (store-IsSynced (resolve_peer_id u p) peer' peer m found refl refl h)
          ]
        ]

  pub is_ready-IsSynced :
      (now : Time) (p : Option Str) (m : SessionManager)
      → IsSynced m
      → IsSynced (Health.is_peer_secure_channel_ready u now p m).1
  unfolding Health.is_peer_secure_channel_ready
  is_ready-IsSynced now p m h =
      let P = λ (r : Bool × SessionManager). IsSynced r.1 in
      peer_rule P (resolve_peer_id u p) m.peer_transport (false, m) _ h
        λ peer found.
          let m' = Health.refresh_peer_health u now (some (resolve_peer_id u p)) m in
          let h' = refresh-IsSynced now (some (resolve_peer_id u p)) m h in
          option_rule P (lookup (resolve_peer_id u p) m'.peer_transport) (false, m') _ (λ _. h')
            (λ _ _. h')

  ready_among-IsSynced :
      (t : Clock) (ks : List Str) (m : SessionManager)
      → IsSynced m
      → IsSynced (Health.ready_among u t ks m).1
  unfolding Health.ready_among
  ready_among-IsSynced t [] m h = h
  ready_among-IsSynced t (k ∷ ks) m h =
      let r = Health.is_peer_secure_channel_ready u (t 0) (some k) m in
      let h' = is_ready-IsSynced (t 0) (some k) m h in
      elim (Bool-cases r.0) [
        | inl e ↦ rw e h'
        | inr e ↦ rw e (ready_among-IsSynced (λ i. t (suc i)) ks r.1 h')
      ]

  pub unless_ready-IsSynced :
      (t : Clock) (s : TransportState) (reason : Str) (m : SessionManager)
      → IsSynced m
      → IsSynced (Health.transition_unless_ready u t s reason m)
  unfolding Health.transition_unless_ready Health.has_ready_peer
  unless_ready-IsSynced t s reason m h =
      let r = Health.ready_among u t (keys m.peer_transport) m in
      let h' = ready_among-IsSynced t (keys m.peer_transport) m h in
      elim (Bool-cases r.0) [ inl e ↦ rw e h' | inr e ↦ rw e (transport-IsSynced s reason r.1 h') ]
