-- ===== src/Groups/Import/Trusted.antt =====
-- What the checks of `_validate_imported_group_transport` of i2pchat/core/i2p_chat_core.py establish.
use i2pchat.Prelude.{
  ℕ, ◌≡◌, refl, ap, ◌∙◌, sym, Bool, true, false, not, ◌||◌, ◌&&◌, ◌⊎◌, inl, inr, Option, none, some,
  List, leb, ◌==◌, is_empty, length,
}
use i2pchat.Text.{Str, codes, str_eq, str_eq_iff}
use i2pchat.Text.Strip.{strip}
use i2pchat.BlindBox.{◌>>=◌}
use i2pchat.PeerAddress.{normalize_member_id}
use i2pchat.PeerAddress.Typed.{normalize_peer_addr}
use i2pchat.Groups.Models.{GroupState}
use i2pchat.Groups.Wire.Hex.{from_hex}
use i2pchat.Groups.Wire.Fields.{fits}
use i2pchat.Groups.Wire.Decoding.{DecodedGroupTransportMessage, require, group_blindbox_scope}
use i2pchat.Groups.Wire.Encoding.{group_blindbox_signature_payload}
use i2pchat.Groups.Wire.Valid.{Yields, Yields-bind, Yields-if, Yields-some, require_holds}
use i2pchat.Groups.Import.Checks.{
  Core, or_blank, local_member, same, in_roster, is_authorized, is_self_join, trusted_signer_hex,
  same_bytes, check_recipient, check_blindbox, is_bound, scope_of, check_scope, check_fields,
  validate_imported_group_transport,
}

Yields-require :
    {B : Type 0} (P : B → Type 0) (b : Bool) (f : Bool → Option B)
    → (b ≡ true → (t : Bool) → Yields P (f t))
    → Yields P (require b >>= f)
Yields-require P b f h = Yields-bind P (require b) f (λ t e. h (require_holds b t e) t)

Yields-last : (Q : Type 0) (b : Bool) → (b ≡ true → Q) → Yields (λ _. Q) (require b)
Yields-last Q true h = h refl
Yields-last Q false h = tt

pub Yields-map : (P Q : Type 0) (o : Option Bool) → (P → Q) → Yields (λ _. P) o → Yields (λ _. Q) o
Yields-map P Q none f h = tt
Yields-map P Q (some b) f h = f h

or_cases : (a b : Bool) → a || b ≡ true → (a ≡ true) ⊎ (b ≡ true)
or_cases true b e = inl refl
or_cases false b e = inr e

module _ (core : Core) (m : DecodedGroupTransportMessage) where
  -- The sender as it is compared
  abbrev pub sender_of : Str
  sender_of = normalize_member_id core.env.case m.envelope.sender_id

  -- The transport names no peer, or the sender.
  abbrev pub IsBound : Str → Type 0
  IsBound source_peer =
      let source = normalize_member_id core.env.case source_peer in
      (is_empty source ≡ true) ⊎ (same core sender_of source ≡ true)

  -- The group is not known, or the sender is in its roster, or it announces itself.
  abbrev pub IsAuthorized : Option GroupState → Type 0
  IsAuthorized local_state =
      (local_state ≡ none)
      ⊎ (state : GroupState) × (local_state ≡ some state)
        × ((in_roster core sender_of state ≡ true)
            ⊎ (is_self_join core sender_of m.envelope ≡ true))

  -- A message to one member comes from the peer that the transport names, if any, and is for this profile.
  pub record IsDirect (source_peer : Str) : Type 0 where
    pub bound : IsBound source_peer
    pub for_profile :
        is_empty (local_member core) || same core (or_blank m.recipient_id) (local_member core)
        ≡ true

  -- A message to the BlindBox of the group is signed with the key that is pinned for its sender.
  pub record IsVerified : Type 0 where
    pub key : List ℕ
    pub signature : List ℕ
    pub peer : Str
    pub payload : Str
    pub with_key : m.signer_key ≡ some key
    pub with_signature : m.signature ≡ some signature
    pub peer_known : normalize_peer_addr core.env.case sender_of ≡ some peer
    pub pinned : from_hex (trusted_signer_hex core sender_of peer) ≡ some key
    pub signed :
        group_blindbox_signature_payload core.time core.dumps m.state m.envelope key ≡ some payload
    pub verified : core.verify_signature key payload signature ≡ true

  -- What the checks establish, given the local state of the group
  pub record IsTrusted (local_state : Option GroupState) (source_peer : Str) : Type 0 where
    pub claimed : in_roster core sender_of m.state ≡ true
    pub authorized : IsAuthorized local_state
    pub authentic : IsDirect source_peer ⊎ IsVerified

  abbrev ForProfile : Type 0
  ForProfile =
      is_empty (local_member core) || same core (or_blank m.recipient_id) (local_member core) ≡ true

  check_recipient-ForProfile : Yields (λ _. ForProfile) (check_recipient core m)
  unfolding check_recipient
  check_recipient-ForProfile =
      Yields-require (λ _. ForProfile)
        (not (is_empty (or_blank m.recipient_id)) && not (is_empty (or_blank m.delivery_id))) _
        (λ _ _.
          Yields-require (λ _. ForProfile) (in_roster core (or_blank m.recipient_id) m.state) _
            (λ _ _.
              Yields-last ForProfile
                (is_empty (local_member core)
                  || same core (or_blank m.recipient_id) (local_member core))
                (λ e. e)))

  check_blindbox-IsVerified : Yields (λ _. IsVerified) (check_blindbox core sender_of m)
  unfolding check_blindbox same_bytes
  check_blindbox-IsVerified =
      let P = λ (_ : Bool). IsVerified in
      Yields-require P (is_empty (or_blank m.recipient_id) && is_empty (or_blank m.delivery_id)) _
        (λ _ _. Yields-bind P m.signer_key _ (λ key has_key.
          Yields-require P (length key == 32) _ (λ _ _.
            Yields-bind P m.signature _ (λ signature has_signature.
              Yields-require P (length signature == 64) _ (λ _ _.
                Yields-bind P (normalize_peer_addr core.env.case sender_of) _ (λ peer known.
                  let hex = trusted_signer_hex core sender_of peer in
                  Yields-require P (not (is_empty hex)) _ (λ _ _.
                    Yields-bind P (from_hex hex) _ (λ trusted read.
                      Yields-require P (str_eq key trusted) _ (λ matching _.
                        Yields-bind P
                          (group_blindbox_signature_payload core.time core.dumps m.state m.envelope
                            key)
                          _
                          (λ payload signed.
                            Yields-require P (core.verify_signature key payload signature) _
                              (λ checked _.
                                Yields-last IsVerified
                                  (is_empty (local_member core)
                                    || in_roster core (local_member core) m.state)
                                  (λ _. record {
                                    key = key;
                                    signature = signature;
                                    peer = peer;
                                    payload = payload;
                                    with_key = has_key;
                                    with_signature = has_signature;
                                    peer_known = known;
                                    pinned =
                                        read ∙ ap some (sym ((str_eq_iff key trusted).0 matching));
                                    signed = signed;
                                    verified = checked;
                                  }))))))))))))

  abbrev IsAuthentic : Str → Type 0
  IsAuthentic source_peer = IsDirect source_peer ⊎ IsVerified

  transport_cases :
      (source_peer : Str) → is_bound core sender_of source_peer ≡ true → IsBound source_peer
  unfolding is_bound
  transport_cases source_peer e = or_cases _ _ e

  roster_cases :
      (local_state : Option GroupState)
      → is_authorized core local_state sender_of m.envelope ≡ true
      → IsAuthorized local_state
  unfolding is_authorized
  roster_cases none e = inl refl
  roster_cases (some state) e = inr (state, refl, or_cases _ _ e)

  check_scope-IsAuthentic :
      (source_peer : Str)
      → Yields (λ _. IsAuthentic source_peer) (check_scope core sender_of source_peer m)
  unfolding check_scope
  check_scope-IsAuthentic source_peer =
      let P = λ (_ : Bool). IsAuthentic source_peer in
      Yields-if P (str_eq (scope_of m) (codes "recipient")) _ _
        (λ _. Yields-require P (is_bound core sender_of source_peer) _ (λ bound _.
          Yields-map ForProfile (IsAuthentic source_peer) (check_recipient core m)
            (λ for_profile.
              inl (record { bound = transport_cases source_peer bound; for_profile = for_profile }))
            check_recipient-ForProfile))
        (λ _.
          Yields-if P (str_eq (scope_of m) group_blindbox_scope) (check_blindbox core sender_of m)
            none
            (λ _.
              Yields-map IsVerified (IsAuthentic source_peer) (check_blindbox core sender_of m)
                (λ v. inr v) check_blindbox-IsVerified)
            (λ _. tt))

  abbrev IsClaimed : Type 0
  IsClaimed = in_roster core sender_of m.state ≡ true

  check_fields-IsClaimed : Yields (λ _. IsClaimed) (check_fields core m)
  unfolding check_fields
  check_fields-IsClaimed =
      let P = λ (_ : Bool). IsClaimed in
      Yields-require P (not (is_empty (strip m.envelope.group_id))) _ (λ _ _.
        Yields-require P (str_eq (strip m.envelope.group_id) (strip m.state.group_id)) _ (λ _ _.
          Yields-require P (not (is_empty (strip m.envelope.msg_id))) _ (λ _ _.
            Yields-require P (not (is_empty sender_of)) _ (λ _ _.
              Yields-require P (leb 1 m.envelope.group_seq) _
                (λ _ _. Yields-last IsClaimed (in_roster core sender_of m.state) (λ e. e))))))

  pub validate-IsTrusted :
      (local_state : Option GroupState) (source_peer : Option Str)
      → Yields
          (λ _. IsTrusted local_state (or_blank source_peer))
          (validate_imported_group_transport core local_state source_peer m)
  unfolding validate_imported_group_transport
  validate-IsTrusted local_state source_peer =
      let source = or_blank source_peer in
      let P = λ (_ : Bool). IsTrusted local_state source in
      Yields-bind P (check_fields core m) _ (λ a named.
        let claimed =
          Yields-some (λ _. IsClaimed) (check_fields core m) a check_fields-IsClaimed named in
        Yields-require P (is_authorized core local_state sender_of m.envelope) _ (λ authorized _.
          Yields-bind P (check_scope core sender_of source m) _ (λ b scoped.
            let authentic =
              Yields-some (λ _. IsAuthentic source) (check_scope core sender_of source m) b
                (check_scope-IsAuthentic source) scoped in
            Yields-bind P m.envelope.payload _ (λ payload _.
              Yields-last (IsTrusted local_state source) (fits m.envelope.content_type payload)
                (λ _. record {
                  claimed = claimed;
                  authorized = roster_cases local_state authorized;
                  authentic = authentic;
                })))))
