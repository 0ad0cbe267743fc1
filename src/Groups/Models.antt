-- ===== src/Groups/Models.antt =====
-- i2pchat/groups/models.py. A payload is of any type, and a time is a number.
pub mod Members
use i2pchat.Prelude.{
  ℕ, Bool, true, false, ◌||◌, Option, none, some, List, [], ◌∷◌, if◌then◌else◌, is_empty, get_or,
}
use i2pchat.Text.{Str, str_in}
use i2pchat.Text.Strip.{strip}
use i2pchat.Text.Case.{CaseMapping}
use i2pchat.PeerAddress.{normalize_member_id}
use i2pchat.Dict.{Dict}

pub data GroupContentType : Type 0 where
  group_text group_control : GroupContentType

pub data GroupDeliveryStatus : Type 0 where
  delivered_live queued_offline failed : GroupDeliveryStatus

pub record GroupState : Type 0 where
  pub group_id : Str
  pub epoch : ℕ
  pub members : List Str
  pub title : Option Str
  pub created_at : ℕ
  pub updated_at : ℕ

-- `text or None`
abbrev pub or_none : Str → Option Str
or_none [] = none
or_none (c ∷ s) = some (c ∷ s)

module _ (u : CaseMapping) where
  -- The loop of `__post_init__`; `seen` holds the members that were kept.
  unfoldable pub distinct_members : List Str → List Str → List Str
  distinct_members seen [] = []
  distinct_members seen (raw_member ∷ rest) =
      let member_id = normalize_member_id u raw_member in
      let skip = is_empty member_id || str_in member_id seen in
      let others = distinct_members (if skip then seen else member_id ∷ seen) rest in
      if skip then others else member_id ∷ others

  -- `GroupState(…)`
  unfoldable pub make_state : Str → ℕ → List Str → Option Str → ℕ → ℕ → GroupState
  make_state group_id epoch members title created_at updated_at = record {
    group_id = strip group_id;
    epoch = epoch;
    members = distinct_members [] members;
    title = or_none (strip (get_or [] title));
    created_at = created_at;
    updated_at = updated_at;
  }

pub record GroupRecipientDeliveryMetadata : Type 0 where
  pub recipient_id : Str
  pub delivery_id : Str
  pub ciphertext : Option (List ℕ)

pub record GroupEnvelope (P : Type 0) : Type 0 where
  pub group_id : Str
  pub epoch : ℕ
  pub msg_id : Str
  pub sender_id : Str
  pub group_seq : ℕ
  pub content_type : GroupContentType
  pub payload : Option P
  pub ciphertext : Option (List ℕ)
  pub created_at : ℕ
  pub member_metadata : Dict GroupRecipientDeliveryMetadata

pub record GroupTransportOutcome : Type 0 where
  pub accepted : Bool
  pub reason : Str
  pub transport_message_id : Option Str

pub record GroupMemberDeliveryResult : Type 0 where
  pub recipient_id : Str
  pub status : GroupDeliveryStatus
  pub reason : Str
  pub transport_message_id : Option Str
  pub delivery_id : Option Str

pub record GroupSendResult (P : Type 0) : Type 0 where
  pub envelope : GroupEnvelope P
  pub delivery_results : Dict GroupMemberDeliveryResult
