-- ===== src/Groups/Store/Models.antt =====
-- The records of i2pchat/storage/group_store.py and what their constructors make of the arguments. The
-- numbers of a file are integers; a time is a number.
use i2pchat.Prelude.{
  ℕ, Bool, true, false, ◌||◌, ◌&&◌, Option, List, [], ◌∷◌, if◌then◌else◌, is_empty, get_or, ℤ, pos,
  negsuc,
}
use i2pchat.Text.{Str, codes, str_eq}
use i2pchat.Text.Strip.{strip}
use i2pchat.Text.Case.{CaseMapping}
use i2pchat.Json.{Json, null, string, str_of, truthy}
use i2pchat.PeerAddress.{normalize_member_id}
use i2pchat.Dict.{Dict, put}
use i2pchat.Groups.Models.{GroupContentType, group_text, group_control, or_none, distinct_members}

-- `max(0, int(value))`
unfoldable pub at_least_zero : ℤ → ℕ
at_least_zero (pos n) = n
at_least_zero (negsuc n) = 0

pub record GroupHistoryEntry : Type 0 where
  pub kind : Str
  pub sender_id : Str
  pub content_type : GroupContentType
  pub text : Str
  pub payload : Json
  pub msg_id : Option Str
  pub group_seq : ℤ
  pub epoch : ℤ
  pub created_at : ℕ
  pub source_peer : Option Str
  pub delivery_results : Dict Str
  pub delivery_reasons : Dict Str

pub record GroupPendingDelivery : Type 0 where
  pub group_id : Str
  pub group_title : Option Str
  pub group_members : List Str
  pub sender_id : Str
  pub recipient_id : Str
  pub delivery_id : Str
  pub msg_id : Str
  pub group_seq : ℤ
  pub epoch : ℤ
  pub content_type : GroupContentType
  pub payload : Json
  pub created_at : ℕ

pub record GroupPendingBlindBoxMessage : Type 0 where
  pub group_id : Str
  pub group_title : Option Str
  pub group_members : List Str
  pub sender_id : Str
  pub msg_id : Str
  pub group_seq : ℤ
  pub epoch : ℤ
  pub content_type : GroupContentType
  pub payload : Json
  pub created_at : ℕ

-- `str(value or "").strip() or None`
unfoldable pub strip_or_none : Option Str → Option Str
strip_or_none o = or_none (strip (get_or [] o))

module _ (repr : Json → Str) where
  -- `text or (str(payload) if payload is not None else "")`
  unfoldable pub text_or_payload : Str → Json → Str
  text_or_payload [] null = []
  text_or_payload [] payload = str_of repr payload
  text_or_payload (c ∷ s) payload = c ∷ s

  unfoldable pub entry_text : GroupContentType → Str → Json → Str
  entry_text group_text text payload = text_or_payload text payload
  entry_text group_control text payload = text

  unfoldable pub entry_payload : GroupContentType → Str → Json → Json
  entry_payload group_text text payload = string (text_or_payload text payload)
  entry_payload group_control text payload = payload

  -- `str(payload or "")` of a text
  unfoldable pub pending_payload : GroupContentType → Json → Json
  pending_payload group_text payload = string (if truthy payload then str_of repr payload else [])
  pending_payload group_control payload = payload

module _ (u : CaseMapping) where
  -- `"me" if kind.strip().lower() == "me" else "peer"`
  unfoldable pub entry_kind : Str → Str
  entry_kind kind = if str_eq (u.lower (strip kind)) (codes "me") then codes "me" else codes "peer"

  -- The two dictionaries: keys are made canonical, and what has no key, or no text where one is
  -- wanted, is left out.
  unfoldable pub gather : Bool → Dict Str → Dict Str → Dict Str
  gather wants_text acc [] = acc
  gather wants_text acc ((raw_recipient_id, value) ∷ rest) =
      let recipient_id = normalize_member_id u raw_recipient_id in
      let skip = is_empty recipient_id || (wants_text && is_empty (strip value)) in
      gather wants_text (if skip then acc else put recipient_id (strip value) acc) rest

module _ (u : CaseMapping) (repr : Json → Str) where
  -- `GroupHistoryEntry(…)`
  unfoldable pub make_entry : GroupHistoryEntry → GroupHistoryEntry
  make_entry e = record {
    kind = entry_kind u e.kind;
    sender_id = normalize_member_id u e.sender_id;
    content_type = e.content_type;
    text = entry_text repr e.content_type e.text e.payload;
    payload = entry_payload repr e.content_type e.text e.payload;
    msg_id = strip_or_none e.msg_id;
    group_seq = pos (at_least_zero e.group_seq);
    epoch = pos (at_least_zero e.epoch);
    created_at = e.created_at;
    source_peer = strip_or_none e.source_peer;
    delivery_results = gather u false [] e.delivery_results;
    delivery_reasons = gather u true [] e.delivery_reasons;
  }

  -- `GroupPendingDelivery(…)`
  unfoldable pub make_delivery : GroupPendingDelivery → GroupPendingDelivery
  make_delivery d = record {
    group_id = strip d.group_id;
    group_title = strip_or_none d.group_title;
    group_members = distinct_members u [] d.group_members;
    sender_id = normalize_member_id u d.sender_id;
    recipient_id = normalize_member_id u d.recipient_id;
    delivery_id = strip d.delivery_id;
    msg_id = strip d.msg_id;
    group_seq = pos (at_least_zero d.group_seq);
    epoch = pos (at_least_zero d.epoch);
    content_type = d.content_type;
    payload = pending_payload repr d.content_type d.payload;
    created_at = d.created_at;
  }

  -- `GroupPendingBlindBoxMessage(…)`
  unfoldable pub make_message : GroupPendingBlindBoxMessage → GroupPendingBlindBoxMessage
  make_message m = record {
    group_id = strip m.group_id;
    group_title = strip_or_none m.group_title;
    group_members = distinct_members u [] m.group_members;
    sender_id = normalize_member_id u m.sender_id;
    msg_id = strip m.msg_id;
    group_seq = pos (at_least_zero m.group_seq);
    epoch = pos (at_least_zero m.epoch);
    content_type = m.content_type;
    payload = pending_payload repr m.content_type m.payload;
    created_at = m.created_at;
  }
