-- ===== src/Groups/Store/Bounds.antt =====
-- What holds of every conversation that i2pchat/storage/group_store.py saves, however long it is.
use i2pchat.Prelude.{
  ℕ, ◌≤◌, ◌<◌, ◌≡◌, refl, Bool, true, false, ◌||◌, Option, none, some, List, [], ◌∷◌, ◌++◌, arith,
  length, not, ◌&&◌, if◌then◌else◌, map, ℤ, pos, is_empty, Bool-cases, inl, inr,
}
use i2pchat.Text.{Str, str_eq_iff, str_eq_refl, str_in, Distinct}
use i2pchat.Text.Strip.{strip}
use i2pchat.Groups.Models.{GroupState}
use i2pchat.Groups.Store.Models.{
  at_least_zero, GroupHistoryEntry, GroupPendingDelivery, GroupPendingBlindBoxMessage,
}
use i2pchat.Groups.Store.Conversation.{
  StoredGroupConversation, Channel, entry_id, highest_group_seq, distinct_by, make_conversation,
  resolve_seen_msg_ids, remember_all, stripped, cut_seen,
}
use i2pchat.Groups.Store.SeenIds.{AreIds, remember_all-AreIds, cut_seen-AreIds, cut_seen-length}
use i2pchat.Groups.Store.Stored.{delivery_key, message_key}
use i2pchat.Groups.Store.Operations.{updated, history_of, seen_of, appended, resolve_next_group_seq}

module _ {A : Type 0} (key : A → Str) where
  distinct_by-fresh :
      (s : Str) (seen : List Str) (xs : List A)
      → str_in s seen ≡ true
      → str_in s (map key (distinct_by key seen xs)) ≡ false
  unfolding distinct_by str_in
  distinct_by-fresh s seen [] h = refl
  distinct_by-fresh s seen (x ∷ xs) h =
      elim (Bool-cases (is_empty (key x) || str_in (key x) seen)) [
        | inl e ↦ rw e (distinct_by-fresh s seen xs h)
        | inr e ↦ rw e (ground (arith, str_eq_iff (key x) s, distinct_by-fresh s (key x ∷ seen) xs))
      ]

  distinct_by-Distinct :
      (seen : List Str) (xs : List A) → Distinct (map key (distinct_by key seen xs))
  unfolding distinct_by str_in
  distinct_by-Distinct seen [] = tt
  distinct_by-Distinct seen (x ∷ xs) = elim (Bool-cases (is_empty (key x) || str_in (key x) seen)) [
    | inl e ↦ rw e (distinct_by-Distinct seen xs)
    | inr e ↦ rw e (
      distinct_by-fresh (key x) (key x ∷ seen) xs (ground (arith, str_eq_refl (key x))),
      distinct_by-Distinct (key x ∷ seen) xs,
    )
  ]

-- The bounds of a conversation
pub record IsBounded (c : StoredGroupConversation) : Type 0 where
  pub seen_ids : AreIds c.seen_msg_ids
  pub seen_few : length c.seen_msg_ids ≤ 4096
  pub next_above : highest_group_seq c.history < c.next_group_seq
  pub deliveries : Distinct (map delivery_key c.pending_deliveries)
  pub messages : Distinct (map message_key c.pending_group_blindbox_messages)

make-IsBounded :
    (state : GroupState) (next : ℤ) (history : List GroupHistoryEntry) (seen : List Str)
    (pending : List GroupPendingDelivery) (channel : Option Channel)
    (messages : List GroupPendingBlindBoxMessage)
    → IsBounded (make_conversation state next history seen pending channel messages)
unfolding make_conversation resolve_seen_msg_ids
make-IsBounded state next history seen pending channel messages =
    let stored = remember_all-AreIds [] (stripped seen) (tt, tt) in
    let all = remember_all-AreIds (remember_all [] (stripped seen)) (map entry_id history) stored in
    record {
      seen_ids = cut_seen-AreIds _ all;
      seen_few = cut_seen-length _;
      next_above = omega arith;
      deliveries = distinct_by-Distinct delivery_key [] pending;
      messages = distinct_by-Distinct message_key [] messages;
    }

updated-IsBounded :
    (existing : Option StoredGroupConversation) (state : GroupState) (next : ℕ)
    (history : List GroupHistoryEntry) (seen : List Str)
    → IsBounded (updated existing state next history seen)
      × ((updated existing state next history seen).history ≡ history)
      × (next ≤ (updated existing state next history seen).next_group_seq)
unfolding updated make_conversation at_least_zero
updated-IsBounded none state next history seen =
    (make-IsBounded state (pos next) history seen [] none [], refl, omega arith)
updated-IsBounded (some c) state next history seen = (
  make-IsBounded state (pos next) history seen c.pending_deliveries c.blindbox_channel
      c.pending_group_blindbox_messages,
  refl,
  omega arith,
)

-- The next number of the record that is there
abbrev pub next_of : Option StoredGroupConversation → ℕ
next_of none = 1
next_of (some c) = c.next_group_seq

resolve_next-le :
    (existing : Option StoredGroupConversation) (z : Option ℤ)
    → next_of existing ≤ resolve_next_group_seq existing z
unfolding resolve_next_group_seq
resolve_next-le none none = omega arith
resolve_next-le none (some z) = omega arith
resolve_next-le (some c) none = omega arith
resolve_next-le (some c) (some z) = omega arith

-- The id of an entry is one that the record remembers.
abbrev pub is_repeat : Option StoredGroupConversation → GroupHistoryEntry → Bool
is_repeat existing e =
    not (is_empty (strip (entry_id e))) && str_in (strip (entry_id e)) (seen_of existing)

-- An append to any record yields one with distinct ids, at most 4096 of them, with a next number above those
-- of its history and not below the one before, and with distinct pending items; the entry goes to the end of
-- the history, and is reported as new, unless its id is remembered.
pub appended-IsBounded :
    (existing : Option StoredGroupConversation) (state : GroupState) (e : GroupHistoryEntry)
    (z : Option ℤ)
    → let r = appended existing state e z in
      IsBounded r.0
      × (next_of existing ≤ r.0.next_group_seq)
      × (r.1 ≡ not (is_repeat existing e))
      × (r.0.history
          ≡ (if is_repeat existing e then history_of existing else history_of existing ++ e ∷ []))
unfolding appended
appended-IsBounded existing state e z =
    let next = resolve_next_group_seq existing z in
    let id = strip (entry_id e) in
    let old = history_of existing in
    let higher = resolve_next-le existing z in
    let saved = λ (history : List GroupHistoryEntry) (ids : List Str).
      updated-IsBounded existing state next history ids in
    elim (Bool-cases (is_empty id)) [
      | inl blank ↦
          let s = saved (old ++ e ∷ []) (seen_of existing) in
          rw blank (s.0, omega (arith, s.2, higher), refl, s.1)
      | inr named ↦ elim (Bool-cases (str_in id (seen_of existing))) [
        | inl known ↦
            let s = saved old (seen_of existing) in
            rw (named, known) (s.0, omega (arith, s.2, higher), refl, s.1)
        | inr new ↦
            let s = saved (old ++ e ∷ []) (cut_seen (seen_of existing ++ id ∷ [])) in
            rw (named, new) (s.0, omega (arith, s.2, higher), refl, s.1)
      ]
    ]
