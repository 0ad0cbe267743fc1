-- ===== src/Groups/Wire/Reads.antt =====
-- Objects whose fields are those of a message of i2pchat/groups/wire.py are decoded to it.
use i2pchat.Prelude.{
  ℕ, ◌≤◌, ◌≡◌, refl, ap, ◌∙◌, sym, Bool, true, false, not, Option, none, some, List, [], ◌∷◌, arith,
  is_empty, map, pos, get_or,
}
use i2pchat.Text.{Str, codes, str_eq}
use i2pchat.Text.Strip.{strip, lstrip, rstrip, is_space}
use i2pchat.Text.Case.{CaseMapping}
use i2pchat.Json.{
  Json, null, string, array, int, int_of, from_items, truthy, str_of, items-from_items,
}
use i2pchat.Groups.Models.{
  GroupContentType, group_text, group_control, GroupState, GroupEnvelope, make_state, or_none,
  distinct_members,
}
use i2pchat.Groups.Models.Members.{IsMember}
use i2pchat.Groups.Wire.Fields.{
  Object, TimeText, text_field, required_text_field, required_int_field, at_least, fits,
  parse_datetime, content_type_of, content_type_text, member_texts, field_or_null,
}
use i2pchat.Groups.Wire.Decoding.{member_field, is_member, state_field, require, decode_body}
use i2pchat.Groups.Wire.Encoding.{text_or_null}
use i2pchat.Groups.Wire.Valid.{IsFilled}

-- The fields that a state and an envelope are written to
pub record Reads (time : TimeText) (state : GroupState) (e : GroupEnvelope Json) (get : Object)
    : Type 0 where
  pub group_id : get (codes "group_id") ≡ some (string state.group_id)
  pub title : get (codes "group_title") ≡ some (text_or_null state.title)
  pub members : get (codes "members") ≡ some (array (from_items (map string state.members)))
  pub epoch : get (codes "epoch") ≡ some (int (pos e.epoch))
  pub msg_id : get (codes "msg_id") ≡ some (string e.msg_id)
  pub sender_id : get (codes "sender_id") ≡ some (string e.sender_id)
  pub group_seq : get (codes "group_seq") ≡ some (int (pos e.group_seq))
  pub content_type : get (codes "content_type") ≡ some (string (content_type_text e.content_type))
  pub payload : get (codes "payload") ≡ some (get_or null e.payload)
  pub created_at : get (codes "created_at") ≡ some (string (time.isoformat e.created_at))

-- A state and an envelope that the group manager makes
pub record IsSendable (u : CaseMapping) (state : GroupState) (e : GroupEnvelope Json) : Type 0 where
  pub group_ok : IsFilled state.group_id
  pub title_ok : or_none (strip (get_or [] state.title)) ≡ state.title
  pub members_ok : distinct_members u [] state.members ≡ state.members
  pub members_filled : is_empty state.members ≡ false
  pub sender_ok : IsMember u e.sender_id
  pub sender_filled : IsFilled e.sender_id
  pub sender_in : is_member u e.sender_id state ≡ true
  pub msg_id_ok : IsFilled e.msg_id
  pub seq_ok : 1 ≤ e.group_seq
  pub content : Json
  pub payload_ok : e.payload ≡ some content
  pub fits_ok : fits e.content_type content ≡ true

-- What a message holds of the state and of the envelope
abbrev pub sent_state : GroupState → GroupEnvelope Json → GroupState
sent_state state e = record {
  group_id = state.group_id;
  epoch = e.epoch;
  members = state.members;
  title = state.title;
  created_at = e.created_at;
  updated_at = e.created_at;
}

abbrev pub sent_envelope : GroupState → GroupEnvelope Json → GroupEnvelope Json
sent_envelope state e = record {
  group_id = state.group_id;
  epoch = e.epoch;
  msg_id = e.msg_id;
  sender_id = e.sender_id;
  group_seq = e.group_seq;
  content_type = e.content_type;
  payload = e.payload;
  ciphertext = none;
  created_at = e.created_at;
  member_metadata = [];
}

content_type-text : (t : GroupContentType) → content_type_of (content_type_text t) ≡ some t
unfolding content_type_of content_type_text str_eq
content_type-text group_text = refl
content_type-text group_control = refl

content_type_text-IsFilled : (t : GroupContentType) → IsFilled (content_type_text t)
unfolding content_type_text strip lstrip rstrip is_space
content_type_text-IsFilled group_text = (refl, refl)
content_type_text-IsFilled group_control = (refl, refl)

pub require-true : (b : Bool) → b ≡ true → require b ≡ some true
require-true true h = refl
require-true false h = absurd (cc h)

pub required_int-pos :
    (get : Object) (key : Str) (minimum n : ℕ)
    → get key ≡ some (int (pos n))
    → minimum ≤ n
    → required_int_field minimum get key ≡ some n
unfolding required_int_field int_of at_least
required_int-pos get key minimum n e h = rw e (ground arith)

module _ (repr : Json → Str) where
  pub required_text-string :
      (get : Object) (key s : Str)
      → get key ≡ some (string s)
      → IsFilled s
      → required_text_field repr get key ≡ some s
  unfolding required_text_field text_field field_or_null truthy str_of
  required_text-string get key s e h = rw e (rw h.1 (rw h.0 (rw h.1 refl)))

  text_field-option :
      (get : Object) (key : Str) (o : Option Str)
      → get key ≡ some (text_or_null o)
      → text_field repr get key ≡ strip (get_or [] o)
  unfolding text_field field_or_null truthy str_of
  text_field-option get key none e = rw e refl
  text_field-option get key (some []) e = rw e refl
  text_field-option get key (some (c ∷ s)) e = rw e refl

  texts : (ms : List Str) → map (str_of repr) (map string ms) ≡ ms
  unfolding str_of
  texts [] = refl
  texts (m ∷ ms) = ap (◌∷◌ m) (texts ms)

  member_texts-list :
      (get : Object) (ms : List Str)
      → get (codes "members") ≡ some (array (from_items (map string ms)))
      → member_texts repr get ≡ some ms
  unfolding member_texts
  member_texts-list get ms e =
      rw (e, member_texts)
        (ap some (ap (map (str_of repr)) (items-from_items (map string ms)) ∙ texts ms))

module _ (u : CaseMapping) (repr : Json → Str) where
  pub member_field-string :
      (get : Object) (key s : Str)
      → get key ≡ some (string s)
      → IsMember u s
      → IsFilled s
      → member_field u repr get key ≡ some s
  unfolding member_field
  member_field-string get key s e h f =
      rw (required_text-string repr get key s e f) (rw h.0 (rw h.1 refl))

  state_field-sent :
      (time : TimeText) (state : GroupState) (e : GroupEnvelope Json) (get : Object)
      → Reads time state e get
      → IsSendable u state e
      → state_field u repr get e.created_at ≡ some (sent_state state e)
  unfolding state_field make_state
  state_field-sent time state e get r ok =
      let title = ok.title_ok in
      rw
        (
          required_text-string repr get (codes "group_id") state.group_id r.group_id ok.group_ok,
          member_texts-list repr get state.members r.members,
          required_int-pos get (codes "epoch") 0 e.epoch r.epoch (omega arith),
          text_field-option repr get (codes "group_title") state.title r.title,
        )
        (λ i. some (record {
          group_id = ok.group_ok.0 i;
          epoch = e.epoch;
          members = ok.members_ok i;
          title = (ap (λ t. or_none (strip (get_or [] t))) title ∙ title) i;
          created_at = e.created_at;
          updated_at = e.created_at;
        }))

module _ (u : CaseMapping) (repr : Json → Str) (time : TimeText) where
  parse-isoformat : (t : ℕ) → parse_datetime time (time.isoformat t) ≡ some t
  unfolding parse_datetime
  parse-isoformat t =
      ap time.fromisoformat (time.replace_z-isoformat t) ∙ time.fromisoformat-isoformat t

  payload_field :
      (state : GroupState) (e : GroupEnvelope Json) (get : Object) (r : Reads time state e get)
      (ok : IsSendable u state e)
      → field_or_null get (codes "payload") ≡ ok.content
  unfolding field_or_null
  payload_field state e get r ok = ap (get_or null) r.payload ∙ ap (get_or null) ok.payload_ok

  sender_in :
      (state : GroupState) (e : GroupEnvelope Json)
      → IsSendable u state e
      → is_member u e.sender_id (sent_state state e) ≡ true
  unfolding is_member
  sender_in state e ok = ok.sender_in

  pub decode_body-sent :
      (state : GroupState) (e : GroupEnvelope Json) (get : Object)
      → Reads time state e get
      → IsSendable u state e
      → decode_body u repr time get ≡ some (sent_state state e, sent_envelope state e)
  unfolding decode_body
  decode_body-sent state e get r ok =
      let sent = sent_state state e in
      let time_text : IsFilled (time.isoformat e.created_at) =
        (time.strip-isoformat e.created_at, time.isoformat_filled e.created_at) in
      let filled : not (is_empty sent.members) ≡ true = rw ok.members_filled refl in
      rw
        (
          required_text-string repr get (codes "content_type") (content_type_text e.content_type)
              r.content_type (content_type_text-IsFilled e.content_type),
          content_type-text e.content_type,
          required_text-string repr get (codes "msg_id") e.msg_id r.msg_id ok.msg_id_ok,
          member_field-string u repr get (codes "sender_id") e.sender_id r.sender_id ok.sender_ok
              ok.sender_filled,
          required_text-string repr get (codes "created_at") (time.isoformat e.created_at)
              r.created_at time_text,
          parse-isoformat e.created_at,
          payload_field state e get r ok,
          require-true (fits e.content_type ok.content) ok.fits_ok,
          state_field-sent u repr time state e get r ok,
          require-true (not (is_empty sent.members)) filled,
          require-true (is_member u e.sender_id sent) (sender_in state e ok),
          required_int-pos get (codes "group_seq") 1 e.group_seq r.group_seq ok.seq_ok,
        )
        (λ i. some (sent, record (sent_envelope state e) { payload = sym ok.payload_ok i }))
