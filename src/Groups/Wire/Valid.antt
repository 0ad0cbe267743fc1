-- ===== src/Groups/Wire/Valid.antt =====
-- What every message satisfies that i2pchat/groups/wire.py accepts.
use i2pchat.Prelude.{
  ℕ, ◌≤◌, ◌≡◌, refl, ap, ◌∙◌, subst, Bool, true, false, not, Option, none, some, arith, leb,
  if◌then◌else◌, is_empty, All, ℤ, pos, negsuc,
}
use i2pchat.Text.{Str, codes, Distinct}
use i2pchat.Text.Strip.{strip, strip_idem}
use i2pchat.Text.Case.{CaseMapping}
use i2pchat.Json.{Json, int_of}
use i2pchat.BlindBox.{◌>>=◌}
use i2pchat.PeerAddress.{normalize_member_id}
use i2pchat.PeerAddress.Canonical.{normalize_member_id_idem}
use i2pchat.Groups.Models.{GroupState, GroupEnvelope, make_state}
use i2pchat.Groups.Models.Members.{IsMember, members_canonical}
use i2pchat.Groups.Wire.Fields.{
  Object, TimeText, text_field, required_text_field, required_int_field, at_least, fits,
  parse_datetime, content_type_of, member_texts, field_or_null,
}
use i2pchat.Groups.Wire.Decoding.{require, member_field, is_member, state_field, decode_body}

-- A result, if there is one, has a property.
abbrev pub Yields : {A : Type 0} → (A → Type 0) → Option A → Type 0
Yields P none = Unit
Yields P (some a) = P a

pub Yields-bind :
    {A B : Type 0} (P : B → Type 0) (o : Option A) (f : A → Option B)
    → ((a : A) → o ≡ some a → Yields P (f a))
    → Yields P (o >>= f)
Yields-bind P none f h = tt
Yields-bind P (some a) f h = h a refl

pub Yields-some :
    {A : Type 0} (P : A → Type 0) (o : Option A) (a : A) → Yields P o → o ≡ some a → P a
Yields-some P o a h e = subst (Yields P) e h

pub Yields-if :
    {A : Type 0} (P : A → Type 0) (b : Bool) (x y : Option A)
    → (b ≡ true → Yields P x)
    → (b ≡ false → Yields P y)
    → Yields P (if b then x else y)
Yields-if P true x y f g = f refl
Yields-if P false x y f g = g refl

pub require_holds : (b t : Bool) → require b ≡ some t → b ≡ true
require_holds true t h = refl
require_holds false t h = absurd (cc h)

abbrev pub IsFilled : Str → Type 0
IsFilled s = (strip s ≡ s) × (is_empty s ≡ false)

at_least-le : (minimum : ℕ) (z : ℤ) → Yields (λ n. minimum ≤ n) (at_least minimum z)
unfolding at_least
at_least-le minimum (pos n) =
    Yields-if (λ n. minimum ≤ n) (leb minimum n) (some n) none (λ e. ground arith) (λ _. tt)
at_least-le minimum (negsuc n) = tt

required_int-le :
    (minimum : ℕ) (get : Object) (key : Str)
    → Yields (λ n. minimum ≤ n) (required_int_field minimum get key)
unfolding required_int_field
required_int-le minimum get key =
    Yields-bind _ (get key) _
      (λ value _. Yields-bind _ (int_of value) _ (λ z _. at_least-le minimum z))

module _ (repr : Json → Str) where
  pub required_text-IsFilled :
      (get : Object) (key : Str) → Yields IsFilled (required_text_field repr get key)
  unfolding required_text_field text_field
  required_text-IsFilled get key =
      let value = text_field repr get key in
      Yields-if IsFilled (is_empty value) none (some value) (λ _. tt) (λ e. (strip_idem _, e))

module _ (u : CaseMapping) where
  -- A state as it comes from a message
  abbrev pub IsState : GroupState → Type 0
  IsState s = IsFilled s.group_id × All (IsMember u) s.members × Distinct s.members

  -- What both versions read: the group and the texts are named, the members are canonical and distinct, the
  -- sender is one of them, numbers are in range, and the payload is of the type that is named.
  pub record IsBody (state : GroupState) (envelope : GroupEnvelope Json) : Type 0 where
    pub state_ok : IsState state
    pub sender_ok : IsMember u envelope.sender_id
    pub msg_id_ok : IsFilled envelope.msg_id
    pub sender_in : is_member u envelope.sender_id state ≡ true
    pub same_group : envelope.group_id ≡ state.group_id
    pub same_epoch : envelope.epoch ≡ state.epoch
    pub seq_ok : 1 ≤ envelope.group_seq
    pub payload_fits :
        (j : Json) × (envelope.payload ≡ some j) × (fits envelope.content_type j ≡ true)

  abbrev pub BodyOk : GroupState × GroupEnvelope Json → Type 0
  BodyOk b = IsBody b.0 b.1

module _ (u : CaseMapping) (repr : Json → Str) where
  pub member_field-IsMember :
      (get : Object) (key : Str) → Yields (IsMember u) (member_field u repr get key)
  unfolding member_field
  member_field-IsMember get key =
      Yields-bind (IsMember u) (required_text_field repr get key) _ (λ value _.
        let id = normalize_member_id u value in
        Yields-if (IsMember u) (is_empty id) none (some id) (λ _. tt)
          (λ e. (normalize_member_id_idem u value, e)))

  state_field-IsState : (get : Object) (t : ℕ) → Yields (IsState u) (state_field u repr get t)
  unfolding state_field make_state
  state_field-IsState get t =
      let id_field = required_text_field repr get (codes "group_id") in
      Yields-bind (IsState u) id_field _ (λ group_id found.
        let filled =
          Yields-some IsFilled id_field group_id
            (required_text-IsFilled repr get (codes "group_id")) found in
        Yields-bind (IsState u) (member_texts repr get) _ (λ raw _.
          Yields-bind (IsState u) (required_int_field 0 get (codes "epoch")) _ (λ epoch _.
            let (members, distinct, _) = members_canonical u raw in
            ((strip_idem group_id, ap is_empty filled.0 ∙ filled.1), members, distinct))))

module _ (u : CaseMapping) (repr : Json → Str) (time : TimeText) where
  pub decode_body-IsBody : (get : Object) → Yields (BodyOk u) (decode_body u repr time get)
  unfolding decode_body
  decode_body-IsBody get =
      let id_field = required_text_field repr get (codes "msg_id") in
      let sender_field = member_field u repr get (codes "sender_id") in
      let payload = field_or_null get (codes "payload") in
      let seq_field = required_int_field 1 get (codes "group_seq") in
      let text = required_text_field repr get in
      Yields-bind (BodyOk u) (text (codes "content_type")) _ (λ type_text _.
        Yields-bind (BodyOk u) (content_type_of type_text) _ (λ type _.
          Yields-bind (BodyOk u) id_field _ (λ msg_id named.
            Yields-bind (BodyOk u) sender_field _ (λ sender sent.
              Yields-bind (BodyOk u) (text (codes "created_at")) _ (λ created_text _.
                Yields-bind (BodyOk u) (parse_datetime time created_text) _ (λ created _.
                  Yields-bind (BodyOk u) (require (fits type payload)) _ (λ a fitting.
                    Yields-bind (BodyOk u) (state_field u repr get created) _ (λ state built.
                      Yields-bind (BodyOk u) (require (not (is_empty state.members))) _ (λ b _.
                        Yields-bind (BodyOk u) (require (is_member u sender state)) _ (λ c inside.
                          Yields-bind (BodyOk u) seq_field _ (λ seq counted. record {
                            state_ok =
                                Yields-some (IsState u) _ state
                                  (state_field-IsState u repr get created) built;
                            sender_ok =
                                Yields-some (IsMember u) _ sender
                                  (member_field-IsMember u repr get (codes "sender_id")) sent;
                            msg_id_ok =
                                Yields-some IsFilled _ msg_id
                                  (required_text-IsFilled repr get (codes "msg_id")) named;
                            sender_in = require_holds (is_member u sender state) c inside;
                            same_group = refl;
                            same_epoch = refl;
                            seq_ok =
                                Yields-some (λ n. 1 ≤ n) _ seq
                                  (required_int-le 1 get (codes "group_seq")) counted;
                            payload_fits =
                                (payload, refl, require_holds (fits type payload) a fitting);
                          })))))))))))
