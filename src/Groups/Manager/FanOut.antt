-- ===== src/Groups/Manager/FanOut.antt =====
-- One result for each recipient.
use i2pchat.Prelude.{
  ℕ, suc, ◌≡◌, refl, sym, ◌∙◌, ap, Bool, true, false, Option, none, some, if_rule, List, [], ◌∷◌,
  ◌++◌, arith, if◌then◌else◌, All, Option-cases, Bool-cases, inl, inr, append-nil, append_assoc,
  is_some, keep,
}
use i2pchat.Text.{Str, str_eq, str_eq_iff, str_in, Distinct}
use i2pchat.Text.Case.{CaseMapping}
use i2pchat.Dict.{
  Dict, lookup, put, keys, has_key, lookup-put, keys-put_new, has_key-put, has_key-put_self,
}
use i2pchat.Session.State.{Clock, SessionManager, OutboundPolicy}
use i2pchat.Session.Policy.{select_outbound_policy, is_live_path_alive}
use i2pchat.Groups.Models.{
  GroupContentType, GroupState, GroupRecipientDeliveryMetadata, GroupEnvelope,
  GroupMemberDeliveryResult, GroupSendResult,
}
use i2pchat.Groups.Manager.{
  Sender, Sequences, is_live_only, tries_live, deliver_offline, deliver_live, deliver_to_member,
  deliver_all, recipient_ids, metadata_for,
}
use i2pchat.Groups.Manager.Sending.{build_envelope, send_payload}

-- Every recipient has its metadata.
abbrev Covers : Dict GroupRecipientDeliveryMetadata → List Str → Type 0
Covers entries = All (λ r. has_key r entries ≡ true)

-- No recipient has an entry yet.
abbrev Open {ℓ} : {V : Type ℓ} → Dict V → List Str → Type ℓ
Open results = All (λ r. lookup r results ≡ none)

Open-empty {ℓ} : (V : Type ℓ) (rs : List Str) → Open {V = V} [] rs
unfolding lookup
Open-empty V [] = tt
Open-empty V (r ∷ rs) = (refl, Open-empty V rs)

keep-not-in :
    (p : Str → Bool) (s : Str) (xs : List Str) → str_in s xs ≡ false → str_in s (keep p xs) ≡ false
unfolding keep str_in
keep-not-in p s [] e = refl
keep-not-in p s (x ∷ xs) e = ground (arith, keep-not-in p s xs)

metadata_for-keeps :
    (id r : Str) (rs : List Str) (entries : Dict GroupRecipientDeliveryMetadata)
    → has_key r entries ≡ true
    → has_key r (metadata_for id rs entries) ≡ true
unfolding metadata_for
metadata_for-keeps id r [] entries h = h
metadata_for-keeps id r (x ∷ rs) entries h =
    metadata_for-keeps id r rs _ (has_key-put r x _ entries h)

Open-put {ℓ} :
    {V : Type ℓ} (r : Str) (v : V) (results : Dict V) (rs : List Str)
    → str_in r rs ≡ false
    → Open results rs
    → Open (put r v results) rs
unfolding str_in
Open-put r v results [] e h = tt
Open-put r v results (x ∷ rs) e h =
    let apart : str_eq r x ≡ false = ground (arith, str_eq_iff r x, str_eq_iff x r) in
    let other : (if str_eq r x then some v else lookup x results) ≡ none = rw apart h.0 in
    (lookup-put r x v results ∙ other, Open-put r v results rs (ground arith) h.1)

metadata_for-Covers :
    (id : Str) (rs : List Str) (entries : Dict GroupRecipientDeliveryMetadata)
    → Covers (metadata_for id rs entries) rs
unfolding metadata_for
metadata_for-Covers id [] entries = tt
metadata_for-Covers id (x ∷ rs) entries =
    (metadata_for-keeps id x rs _ (has_key-put_self x _ entries), metadata_for-Covers id rs _)

metadata_for-keys :
    (id : Str) (rs : List Str) (entries : Dict GroupRecipientDeliveryMetadata)
    → Distinct rs
    → Open entries rs
    → keys (metadata_for id rs entries) ≡ keys entries ++ rs
unfolding metadata_for
metadata_for-keys id [] entries d o = sym (append-nil (keys entries))
metadata_for-keys id (x ∷ rs) entries d o =
    metadata_for-keys id rs _ d.1 (Open-put x _ entries rs d.0 o.1)
    ∙ ap (λ ks. ks ++ rs) (keys-put_new x _ entries o.0)
    ∙ append_assoc (keys entries) (x ∷ []) rs

keep-Distinct : (p : Str → Bool) (xs : List Str) → Distinct xs → Distinct (keep p xs)
unfolding keep
keep-Distinct p [] d = tt
keep-Distinct p (x ∷ xs) d = elim (Bool-cases (p x)) [
  | inl e ↦ rw e (keep-not-in p x xs d.0, keep-Distinct p xs d.1)
  | inr e ↦ rw e (keep-Distinct p xs d.1)
]

-- A sender does not raise for a member.
abbrev pub Answers : {P : Type 0} → Sender P → Str → Type 0
Answers {P} send r =
    (e : GroupEnvelope P) (md : GroupRecipientDeliveryMetadata) (m : SessionManager)
    → is_some (send r e md m) ≡ true

module _ (u : CaseMapping) {P : Type 0} (send_live send_offline : Sender P) (r : Str)
    (live : Answers send_live r) (offline : Answers send_offline r) (envelope : GroupEnvelope P)
    (metadata : GroupRecipientDeliveryMetadata) where
  offline_returns :
      (m : SessionManager)
      → is_some (deliver_offline u send_live send_offline r envelope metadata m) ≡ true
  unfolding deliver_offline
  offline_returns m = elim (Option-cases (send_offline r envelope metadata m)) [
    | inl e ↦ cc (sym (offline envelope metadata m) ∙ ap is_some {y = none} e)
    | inr (q, e) ↦ rw e refl
  ]

  live_returns :
      (policy : OutboundPolicy) (m : SessionManager)
      → is_some (deliver_live u send_live send_offline policy r envelope metadata m) ≡ true
  unfolding deliver_live
  live_returns policy m = elim (Option-cases (send_live r envelope metadata m)) [
    | inl e ↦ cc (sym (live envelope metadata m) ∙ ap is_some {y = none} e)
    | inr (q, e) ↦
        let Q = λ (o : Option (GroupMemberDeliveryResult × SessionManager)). is_some o ≡ true in
        rw e (
          if_rule Q q.0.accepted _ _ (λ _. refl)
            (λ _. if_rule Q (is_live_only policy) _ _ (λ _. refl) (λ _. offline_returns q.1)))
  ]

  deliver_returns :
      (t : Clock) (route : Str) (m : SessionManager)
      → is_some (deliver_to_member u send_live send_offline t r envelope metadata route m) ≡ true
  unfolding deliver_to_member
  deliver_returns t route m =
      let Q = λ (o : Option (GroupMemberDeliveryResult × SessionManager)). is_some o ≡ true in
      let (policy, m1) = select_outbound_policy u (t 0) route none none (some r) m in
      let (ready, m2) = is_live_path_alive u (t 1) none none (some r) m1 in
      if_rule Q (tries_live policy) _ _
        (λ _.
          if_rule Q ready _ _ (λ _. live_returns policy m2)
            (λ _. if_rule Q (is_live_only policy) _ _ (λ _. refl) (λ _. offline_returns m2)))
        (λ _. offline_returns m1)

module _ (u : CaseMapping) {P : Type 0} (send_live send_offline : Sender P)
    (envelope : GroupEnvelope P) (route : Str) where
  -- A result for each recipient, behind those that are there
  deliver_all-keys :
      (t : ℕ → Clock) (rs : List Str) (results : Dict GroupMemberDeliveryResult)
      (m : SessionManager)
      → All (Answers send_live) rs
      → All (Answers send_offline) rs
      → Covers envelope.member_metadata rs
      → Distinct rs
      → Open results rs
      → (results' : Dict GroupMemberDeliveryResult) × (m' : SessionManager) × (deliver_all u
            send_live send_offline t rs envelope route results m
          ≡ some (results', m'))
        × (keys results' ≡ keys results ++ rs)
  unfolding deliver_all
  deliver_all-keys t [] results m al ao c d o = (results, m, refl, sym (append-nil (keys results)))
  deliver_all-keys t (r ∷ rs) results m al ao c d o =
      elim (Option-cases (lookup r envelope.member_metadata)) [
        | inl missing ↦ cc (sym c.0 ∙ ap is_some {y = none} missing)
        | inr (metadata, found) ↦
            elim (Option-cases
              (deliver_to_member u send_live send_offline (t 0) r envelope metadata route m)) [
                | inl raised ↦ cc (
                    sym (
                      deliver_returns u send_live send_offline r al.0 ao.0 envelope metadata (t 0)
                        route m)
                    ∙ ap is_some {y = none} raised)
                | inr (step, answered) ↦
                    let (results', m', e, k) =
                      deliver_all-keys (λ i. t (suc i)) rs (put r step.0 results) step.1 al.1 ao.1
                        c.1 d.1 (Open-put r step.0 results rs d.0 o.1) in
                    (
                      results',
                      m',
                      rw (found, deliver_all) (rw answered e),
                      k
                          ∙ ap (λ ks. ks ++ rs) (keys-put_new r step.0 results o.0)
                          ∙ append_assoc (keys results) (r ∷ []) rs,
                    )
              ]
      ]

recipients-Distinct :
    (u : CaseMapping) (state : GroupState) (sender_id : Str)
    → Distinct state.members
    → Distinct (recipient_ids u state sender_id)
unfolding recipient_ids
recipients-Distinct u state sender_id d = keep-Distinct _ state.members d

module _ (u : CaseMapping) {P : Type 0} (msg_id : Str) (now : ℕ) (state : GroupState)
    (sender_id : Str) (payload : P) (content_type : GroupContentType) (rs : List Str)
    (seqs : Sequences) where
  abbrev built : GroupEnvelope P
  built = (build_envelope u msg_id now state sender_id payload content_type rs seqs).0

  built-Covers : Covers built.member_metadata rs
  unfolding build_envelope
  built-Covers = metadata_for-Covers msg_id rs []

  built-keys : Distinct rs → keys built.member_metadata ≡ rs
  unfolding build_envelope
  built-keys d = metadata_for-keys msg_id rs [] d (Open-empty _ rs)

module _ (u : CaseMapping) {P : Type 0} (send_live send_offline : Sender P) where
  -- A message to a group whose members are distinct is sent, if no sender raises for a recipient: no recipient
  -- lacks its metadata, and the results are one for each recipient, in the order of the members, whatever the
  -- senders answer.
  pub send_payload-keys :
      (t : ℕ → Clock) (msg_id : Str) (now : ℕ) (state : GroupState) (sender_id : Str) (payload : P)
      (content_type : GroupContentType) (route : Str) (seqs : Sequences) (m : SessionManager)
      → Distinct state.members
      → All (Answers send_live) (recipient_ids u state sender_id)
      → All (Answers send_offline) (recipient_ids u state sender_id)
      → (r : GroupSendResult P) × (seqs' : Sequences) × (m' : SessionManager) × (send_payload u
            send_live send_offline t msg_id now state sender_id payload content_type route seqs m
          ≡ some (r, seqs', m'))
        × (keys r.delivery_results ≡ recipient_ids u state sender_id)
        × (keys r.envelope.member_metadata ≡ recipient_ids u state sender_id)
  unfolding send_payload
  send_payload-keys t msg_id now state sender_id payload content_type route seqs m d al ao =
      let rs = recipient_ids u state sender_id in
      let built = build_envelope u msg_id now state sender_id payload content_type rs seqs in
      let distinct = recipients-Distinct u state sender_id d in
      let (results, m', e, k) =
        deliver_all-keys u send_live send_offline built.0 route t rs [] m al ao
          (built-Covers u msg_id now state sender_id payload content_type rs seqs) distinct
          (Open-empty _ rs) in
      (
        record { envelope = built.0; delivery_results = results },
        built.1,
        m',
        rw (e, send_payload) refl,
        k,
        built-keys u msg_id now state sender_id payload content_type rs seqs distinct,
      )
