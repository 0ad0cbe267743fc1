-- ===== src/Groups/Import/Remembered.antt =====
-- What `import_group_transport` of i2pchat/core/i2p_chat_core.py stores is remembered by the record of the group.
use i2pchat.Prelude.{
  ℕ, ◌+◌, max, ◌≤◌, ◌≡◌, refl, ap, ◌∙◌, sym, subst, Bool, true, false, not, ◌&&◌, Option, none,
  some, arith, is_empty, length, ℤ, pos,
}
use i2pchat.Text.{Str, str_in}
use i2pchat.Text.Strip.{strip}
use i2pchat.PeerAddress.Typed.{normalize_peer_addr}
use i2pchat.Groups.Models.{GroupState}
use i2pchat.Groups.Store.Models.{GroupHistoryEntry, make_entry}
use i2pchat.Groups.Store.Conversation.{StoredGroupConversation, entry_id}
use i2pchat.Groups.Store.Files.{Bytes, Disk}
use i2pchat.Groups.Store.Operations.{
  existing_of, seen_of, appended, load_group_conversation, save_group_conversation,
}
use i2pchat.Groups.Store.Log.{Log}
use i2pchat.Groups.Store.Refinement.{Represents, appended-Represents}
use i2pchat.Groups.Store.Runs.{Holds, append-result, saved-loads, appended-state}
use i2pchat.Groups.Wire.Decoding.{DecodedGroupTransportMessage}
use i2pchat.Groups.Wire.Valid.{Yields, Yields-bind, Yields-if, Yields-some}
use i2pchat.Groups.Import.Checks.{Core}
use i2pchat.Groups.Import.Snapshot.{
  merge_group_state_snapshot, imported_state, build_group_history_entry,
}
use i2pchat.Groups.Import.Transport.{
  GroupImportResult, ImportState, stored_result, source_or, store_message, import_checked, state_of,
  next_or_one,
}
use i2pchat.Groups.Import.Made.{
  IsMade, merged-IsMade, imported-IsMade, IsEntryOf, built-IsEntryOf, log_append-has,
}

stored_result-disk :
    (m : DecodedGroupTransportMessage) (old : Option GroupState) (source : Str)
    (c : StoredGroupConversation) (new : Bool) (s : ImportState)
    → (stored_result m old source c new s).1.disk ≡ s.disk
unfolding stored_result
stored_result-disk m old source c true s = refl
stored_result-disk m old source c false s = refl

none_seen : (id : Str) → str_in id (seen_of none) ≡ true → ⊥
unfolding seen_of str_in
none_seen id e = cc e

module _ (core : Core) where
  -- The record of a group in the directory remembers an id.
  pub record Remembers (group_id id : Str) (disk : Disk) : Type 0 where
    pub conversation : StoredGroupConversation
    pub loads :
        (now : ℤ)
        → existing_of (load_group_conversation core.env now group_id disk)
          ≡ some (some conversation)
    pub seen : str_in id (seen_of (some conversation)) ≡ true

  -- One append of an entry with an id
  append-Remembers :
      (now : ℤ) (fresh : Bytes) (group_id : Str) (state : GroupState) (e : GroupHistoryEntry)
      (z : Option ℤ) (existing : Option StoredGroupConversation) (disk : Disk) (log : Log) (n : ℕ)
      → strip group_id ≡ group_id
      → IsMade core group_id state
      → Represents core.env.case core.env.repr existing log n
      → n + 1 ≤ 4096
      → make_entry core.env.case core.env.repr e ≡ e
      → is_empty (entry_id e) ≡ false
      → length fresh ≡ 32
      → Remembers group_id
          (entry_id e)
          (save_group_conversation core.env fresh (appended existing state e z).0 disk)
  append-Remembers now fresh group_id state e z existing disk log n trimmed made rep few entry_ok
        named size =
      let c = appended existing state e z in
      let (_, stands) =
        appended-Represents core.env.case core.env.repr existing state e z log n rep made.0 entry_ok
          few in
      let group =
        ap (λ (s : GroupState). s.group_id) (appended-state existing state e z)
        ∙ made.1
        ∙ trimmed in
      record {
        conversation = c.0;
        loads = saved-loads core.env group_id fresh c.0 disk stands.existing_ok size group;
        seen = stands.agrees (entry_id e) named ∙ log_append-has e log named;
      }

  -- The part that stores the message
  store_message-Remembers :
      (now : ℤ) (fresh : Bytes) (m : DecodedGroupTransportMessage) (history_source source : Str)
      (existing : Option StoredGroupConversation) (s : ImportState) (log : Log) (n : ℕ)
      → strip m.state.group_id ≡ m.state.group_id
      → is_empty (strip m.envelope.msg_id) ≡ false
      → existing_of (load_group_conversation core.env now m.state.group_id s.disk) ≡ some existing
      → Represents core.env.case core.env.repr existing log n
      → n + 1 ≤ 4096
      → length fresh ≡ 32
      → Yields
          (λ r. Remembers m.state.group_id (strip m.envelope.msg_id) r.1.disk)
          (store_message core now fresh m history_source source existing s)
  unfolding store_message
  store_message-Remembers now fresh m history_source source existing s log n trimmed named known rep
        few size =
      let group_id = m.state.group_id in
      let P = λ (r : GroupImportResult × ImportState).
        Remembers group_id (strip m.envelope.msg_id) r.1.disk in
      let merged = merge_group_state_snapshot core (state_of existing) m.state m.envelope in
      let z = some (pos (max (m.envelope.group_seq + 1) (next_or_one existing))) in
      Yields-bind P (imported_state core merged m.envelope) _ (λ state found.
        let made =
          Yields-some (IsMade core group_id) (imported_state core merged m.envelope) state
            (imported-IsMade core merged m.envelope group_id
              (merged-IsMade core (state_of existing) m.state m.envelope))
            found in
        Yields-bind P (build_group_history_entry core m.envelope history_source) _ (λ e built.
          let entry =
            Yields-some (IsEntryOf core m.envelope)
              (build_group_history_entry core m.envelope history_source) e
              (built-IsEntryOf core m.envelope history_source) built in
          let here =
            subst (λ g. existing_of (load_group_conversation core.env now g s.disk) ≡ some existing)
              (sym (made.1 ∙ trimmed)) known in
          let kept =
            append-Remembers now fresh group_id state e z existing s.disk log n trimmed made rep few
              entry.0 (ap is_empty entry.1 ∙ named) size in
          rw (append-result core.env now fresh state e z existing s.disk here) (
            rw
              (stored_result-disk m (state_of existing) source (appended existing state e z).0
                (appended existing state e z).1
                (record s {
                  disk =
                      save_group_conversation core.env fresh (appended existing state e z).0 s.disk;
                }))
              (subst
                (λ i.
                  Remembers group_id i
                    (save_group_conversation core.env fresh (appended existing state e z).0 s.disk))
                entry.1 kept))))

  -- What follows the checks leaves a directory that remembers the message.
  pub import_checked-Remembers :
      (now : ℤ) (fresh : Bytes) (m : DecodedGroupTransportMessage) (source_peer : Option Str)
      (s : ImportState) (log : Log) (n : ℕ)
      → strip m.state.group_id ≡ m.state.group_id
      → is_empty (strip m.envelope.msg_id) ≡ false
      → Holds core.env m.state.group_id s.disk log n
      → n + 1 ≤ 4096
      → length fresh ≡ 32
      → Yields
          (λ r. Remembers m.state.group_id (strip m.envelope.msg_id) r.1.disk)
          (import_checked core now fresh m source_peer s)
  unfolding import_checked
  import_checked-Remembers now fresh m source_peer s log n trimmed named h few size =
      let id = strip m.envelope.msg_id in
      let P = λ (r : GroupImportResult × ImportState). Remembers m.state.group_id id r.1.disk in
      let history_source = source_or source_peer m.envelope.sender_id in
      Yields-bind P (normalize_peer_addr core.env.case history_source) _ (λ source _.
        rw (h.loads now) (
          Yields-if P (not (is_empty id) && str_in id (seen_of h.existing)) _ _
            (λ old. known_before id h.existing h.loads (and_right (not (is_empty id)) _ old))
            (λ _.
              store_message-Remembers now fresh m history_source source h.existing _ log n trimmed
                named (h.loads now) h.stands few size)))
    where
      and_right : (a b : Bool) → a && b ≡ true → b ≡ true
      and_right a b e = ground arith

      known_before :
          (id : Str) (existing : Option StoredGroupConversation)
          → ((now : ℤ)
              → existing_of (load_group_conversation core.env now m.state.group_id s.disk)
                ≡ some existing)
          → str_in id (seen_of existing) ≡ true
          → Remembers m.state.group_id id s.disk
      known_before id none loads seen = absurd (none_seen id seen)
      known_before id (some c) loads seen = record { conversation = c; loads = loads; seen = seen }
