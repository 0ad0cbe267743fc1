-- ===== src/Groups/Manager/Delivery.antt =====
-- Which way a group message reaches a member.
use i2pchat.Prelude.{
  ◌≡◌, ◌≢◌, ◌↔◌, Bool, true, false, Option, none, some, arith, if◌then◌else◌, is_empty,
}
use i2pchat.Text.{Str, codes, str_eq}
use i2pchat.Text.Strip.{strip}
use i2pchat.Text.Case.{CaseMapping}
use i2pchat.Session.State.{Clock, SessionManager, OutboundPolicy, live_only, blindbox_only}
use i2pchat.Session.Policy.{select_outbound_policy, is_live_path_alive, policy_for}
use i2pchat.Groups.Models.{
  GroupDeliveryStatus, GroupTransportOutcome, GroupMemberDeliveryResult, delivered_live,
  queued_offline, GroupRecipientDeliveryMetadata, GroupEnvelope,
}
use i2pchat.Groups.Manager.{
  Sender, is_live_only, tries_live, deliver_offline, deliver_live, deliver_to_member,
}

-- The status of a result, if the call did not raise
abbrev pub status_of :
    Option (GroupMemberDeliveryResult × SessionManager) → Option GroupDeliveryStatus
status_of none = none
status_of (some r) = some r.0.status

-- A sender answered that it took the message.
abbrev pub is_accepted : Option (GroupTransportOutcome × SessionManager) → Bool
is_accepted none = false
is_accepted (some r) = r.0.accepted

module _ (u : CaseMapping) {P : Type 0} (send_live send_offline : Sender P) (t : Clock) (r : Str)
    (envelope : GroupEnvelope P) (metadata : GroupRecipientDeliveryMetadata) (route : Str)
    (m : SessionManager) where
  -- A message counts as delivered live exactly when the policy tries the live path, the path is
  -- ready, and the live sender accepts.
  pub delivered_live_iff :
      let (policy, m1) = select_outbound_policy u (t 0) route none none (some r) m in
      let (ready, m2) = is_live_path_alive u (t 1) none none (some r) m1 in
      (status_of (deliver_to_member u send_live send_offline t r envelope metadata route m)
        ≡ some delivered_live)
      ↔ ((tries_live policy ≡ true)
          × (ready ≡ true)
          × (is_accepted (send_live r envelope metadata m2) ≡ true))
  unfolding deliver_to_member deliver_live deliver_offline
  delivered_live_iff = (λ h. ground arith, λ h. ground arith)

  abbrev given : Str
  given = u.lower (strip (if is_empty route then codes "auto" else route))

  abbrev chosen : OutboundPolicy
  chosen = (select_outbound_policy u (t 0) route none none (some r) m).0

  live_route : given ≡ codes "live" → chosen ≡ live_only
  unfolding select_outbound_policy policy_for str_eq
  live_route e = rw e

  offline_route : given ≡ codes "offline" → chosen ≡ blindbox_only
  unfolding select_outbound_policy policy_for str_eq
  offline_route e = rw e

  never_queued :
      chosen ≡ live_only
      → status_of (deliver_to_member u send_live send_offline t r envelope metadata route m)
        ≢ some queued_offline
  unfolding deliver_to_member deliver_live is_live_only tries_live
  never_queued e = ground arith

  never_live :
      chosen ≡ blindbox_only
      → status_of (deliver_to_member u send_live send_offline t r envelope metadata route m)
        ≢ some delivered_live
  unfolding deliver_to_member deliver_offline tries_live
  never_live e = ground arith

  -- On the live route a message is never queued, and on the offline route never delivered live.
  pub route_kept :
      let asked = u.lower (strip (if is_empty route then codes "auto" else route)) in
      let status =
        status_of (deliver_to_member u send_live send_offline t r envelope metadata route m) in
      (asked ≡ codes "live" → status ≢ some queued_offline)
      × (asked ≡ codes "offline" → status ≢ some delivered_live)
  route_kept = (λ e. never_queued (live_route e), λ e. never_live (offline_route e))
