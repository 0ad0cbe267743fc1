-- ===== src/Groups/Store/Normal.antt =====
-- The records of the group store are normal forms: building one from its own fields changes nothing.
use i2pchat.Prelude.{
  ◌≡◌, refl, ap, ◌∙◌, sym, Bool, true, false, ◌||◌, ◌&&◌, Option, [], ◌∷◌, ◌++◌, arith,
  if◌then◌else◌, is_empty, get_or, Bool-cases, inl, inr, if_rule, append_assoc, append-nil, ℤ, pos,
  All,
}
use i2pchat.Text.{Str, codes, str_eq, str_eq_iff, str_in, Distinct}
use i2pchat.Text.Strip.{strip, strip_idem, lstrip, rstrip, is_space}
use i2pchat.Text.Case.{CaseMapping, ascii_lower}
use i2pchat.Json.{Json, string, str_of, truthy}
use i2pchat.Dict.{Dict, put, keys, Entries, Entries-put}
use i2pchat.Dict.Keys.{put-Distinct, put-new, str_in-keys-put}
use i2pchat.Prelude.{List}
use i2pchat.PeerAddress.{normalize_member_id}
use i2pchat.PeerAddress.Canonical.{normalize_member_id_idem}
use i2pchat.Groups.Models.{GroupContentType, group_text, group_control, or_none}
use i2pchat.Groups.Models.Members.{members_canonical}
use i2pchat.Groups.Store.Models.{
  strip_or_none, at_least_zero, gather, make_entry, make_delivery, make_message, entry_kind,
  entry_text, entry_payload, text_or_payload, pending_payload, GroupHistoryEntry,
  GroupPendingDelivery, GroupPendingBlindBoxMessage,
}

-- `str(o or "").strip() or None` twice
pub strip_or_none_idem : (o : Option Str) → strip_or_none (strip_or_none o) ≡ strip_or_none o
unfolding strip_or_none
strip_or_none_idem o = again (strip (get_or [] o)) (strip_idem (get_or [] o))
  where
    again : (s : Str) → strip s ≡ s → or_none (strip (get_or [] (or_none s))) ≡ or_none s
    again [] h = ap or_none h
    again (c ∷ s) h = ap or_none h

at_least_zero_idem : (z : ℤ) → at_least_zero (pos (at_least_zero z)) ≡ at_least_zero z
unfolding at_least_zero
at_least_zero_idem z = refl

module _ (u : CaseMapping) (w : Bool) where
  abbrev IsClean : Dict Str → Type 0
  IsClean = Entries (λ k v.
      (normalize_member_id u k ≡ k)
      × (is_empty k ≡ false)
      × (strip v ≡ v)
      × (w && is_empty v ≡ false))

  gather-IsClean :
      (acc d : Dict Str)
      → IsClean acc
      → Distinct (keys acc)
      → IsClean (gather u w acc d) × Distinct (keys (gather u w acc d))
  unfolding gather
  gather-IsClean acc [] h k = (h, k)
  gather-IsClean acc ((raw, v) ∷ d) h k =
      let id = normalize_member_id u raw in
      elim (Bool-cases (is_empty id || (w && is_empty (strip v)))) [
        | inl e ↦ rw e (gather-IsClean acc d h k)
        | inr e ↦ rw e (
            gather-IsClean (put id (strip v) acc) d
              (Entries-put _ id (strip v) acc
                (normalize_member_id_idem u raw, ground arith, strip_idem v, ground arith) h)
              (put-Distinct id (strip v) acc k))
      ]

  abbrev NotIn : Dict Str → List Str → Type 0
  NotIn acc = All (λ j. str_in j (keys acc) ≡ false)

  NotIn-put :
      (k v : Str) (acc : Dict Str) (js : List Str)
      → str_in k js ≡ false
      → NotIn acc js
      → NotIn (put k v acc) js
  unfolding str_in
  NotIn-put k v acc [] h n = tt
  NotIn-put k v acc (j ∷ js) h n = (
    ground (arith, str_eq_iff j k, str_eq_iff k j, str_in-keys-put j k v acc),
    NotIn-put k v acc js (ground arith) n.1,
  )

  gather_again :
      (acc d : Dict Str)
      → IsClean d
      → Distinct (keys d)
      → NotIn acc (keys d)
      → gather u w acc d ≡ acc ++ d
  unfolding gather
  gather_again acc [] c k n = sym (append-nil acc)
  gather_again acc ((i, v) ∷ d) c k n =
      rw (c.0.0, c.0.2, c.0.1, c.0.3)
        (gather_again (put i v acc) d c.1 k.1 (NotIn-put i v acc (keys d) k.0 n.1)
          ∙ ap (λ a. a ++ d) (put-new i v acc n.0)
          ∙ append_assoc acc ((i, v) ∷ []) d)

  no_keys : (js : List Str) → NotIn [] js
  unfolding str_in
  no_keys [] = tt
  no_keys (j ∷ js) = (refl, no_keys js)

  pub gather_idem : (d : Dict Str) → gather u w [] (gather u w [] d) ≡ gather u w [] d
  gather_idem d =
      let (c, k) = gather-IsClean [] d tt tt in gather_again [] (gather u w [] d) c k (no_keys _)

module _ (repr : Json → Str) where
  text_or_payload_id : (s : Str) → text_or_payload repr s (string s) ≡ s
  unfolding text_or_payload str_of
  text_or_payload_id [] = refl
  text_or_payload_id (c ∷ s) = refl

  or_empty_id : (s : Str) → (if truthy (string s) then str_of repr (string s) else []) ≡ s
  unfolding truthy str_of
  or_empty_id [] = refl
  or_empty_id (c ∷ s) = refl

  entry_text_idem :
      (t : GroupContentType) (text : Str) (p : Json)
      → entry_text repr t (entry_text repr t text p) (entry_payload repr t text p)
        ≡ entry_text repr t text p
  unfolding entry_text entry_payload
  entry_text_idem group_control text p = refl
  entry_text_idem group_text text p = text_or_payload_id (text_or_payload repr text p)

  entry_payload_idem :
      (t : GroupContentType) (text : Str) (p : Json)
      → entry_payload repr t (entry_text repr t text p) (entry_payload repr t text p)
        ≡ entry_payload repr t text p
  unfolding entry_text entry_payload
  entry_payload_idem group_control text p = refl
  entry_payload_idem group_text text p = ap string (entry_text_idem group_text text p)

  pending_payload_idem :
      (t : GroupContentType) (p : Json)
      → pending_payload repr t (pending_payload repr t p) ≡ pending_payload repr t p
  unfolding pending_payload
  pending_payload_idem group_control p = refl
  pending_payload_idem group_text p =
      ap string (or_empty_id (if truthy p then str_of repr p else []))

module _ (u : CaseMapping) where
  entry_kind-me : entry_kind u (codes "me") ≡ codes "me"
  unfolding entry_kind strip lstrip rstrip is_space str_eq ascii_lower
  entry_kind-me = rw (u.lower_ascii (codes "me") (omega arith, (omega arith, tt))) refl

  entry_kind-peer : entry_kind u (codes "peer") ≡ codes "peer"
  unfolding entry_kind strip lstrip rstrip is_space str_eq ascii_lower
  entry_kind-peer =
      rw
        (u.lower_ascii (codes "peer")
          (omega arith, (omega arith, (omega arith, (omega arith, tt)))))
        refl

  entry_kind_idem : (kind : Str) → entry_kind u (entry_kind u kind) ≡ entry_kind u kind
  unfolding entry_kind
  entry_kind_idem kind =
      if_rule (λ k. entry_kind u k ≡ k) (str_eq (u.lower (strip kind)) (codes "me")) (codes "me")
        (codes "peer") (λ _. entry_kind-me) (λ _. entry_kind-peer)

module _ (u : CaseMapping) (repr : Json → Str) where
  pub make_entry_idem :
      (e : GroupHistoryEntry) → make_entry u repr (make_entry u repr e) ≡ make_entry u repr e
  unfolding make_entry at_least_zero
  make_entry_idem e = λ i. record {
    kind = entry_kind_idem u e.kind i;
    sender_id = normalize_member_id_idem u e.sender_id i;
    content_type = e.content_type;
    text = entry_text_idem repr e.content_type e.text e.payload i;
    payload = entry_payload_idem repr e.content_type e.text e.payload i;
    msg_id = strip_or_none_idem e.msg_id i;
    group_seq = pos (at_least_zero e.group_seq);
    epoch = pos (at_least_zero e.epoch);
    created_at = e.created_at;
    source_peer = strip_or_none_idem e.source_peer i;
    delivery_results = gather_idem u false e.delivery_results i;
    delivery_reasons = gather_idem u true e.delivery_reasons i;
  }

  pub make_delivery_idem :
      (d : GroupPendingDelivery)
      → make_delivery u repr (make_delivery u repr d) ≡ make_delivery u repr d
  unfolding make_delivery at_least_zero
  make_delivery_idem d = λ i. record {
    group_id = strip_idem d.group_id i;
    group_title = strip_or_none_idem d.group_title i;
    group_members = (members_canonical u d.group_members).2 i;
    sender_id = normalize_member_id_idem u d.sender_id i;
    recipient_id = normalize_member_id_idem u d.recipient_id i;
    delivery_id = strip_idem d.delivery_id i;
    msg_id = strip_idem d.msg_id i;
    group_seq = pos (at_least_zero d.group_seq);
    epoch = pos (at_least_zero d.epoch);
    content_type = d.content_type;
    payload = pending_payload_idem repr d.content_type d.payload i;
    created_at = d.created_at;
  }

  pub make_message_idem :
      (m : GroupPendingBlindBoxMessage)
      → make_message u repr (make_message u repr m) ≡ make_message u repr m
  unfolding make_message at_least_zero
  make_message_idem m = λ i. record {
    group_id = strip_idem m.group_id i;
    group_title = strip_or_none_idem m.group_title i;
    group_members = (members_canonical u m.group_members).2 i;
    sender_id = normalize_member_id_idem u m.sender_id i;
    msg_id = strip_idem m.msg_id i;
    group_seq = pos (at_least_zero m.group_seq);
    epoch = pos (at_least_zero m.epoch);
    content_type = m.content_type;
    payload = pending_payload_idem repr m.content_type m.payload i;
    created_at = m.created_at;
  }
