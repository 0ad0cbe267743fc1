-- ===== src/Groups/Import/Once.antt =====
-- A message that i2pchat/core/i2p_chat_core.py has imported is not imported again.
use i2pchat.Prelude.{
  ℕ, ◌+◌, ◌≤◌, ◌≡◌, ◌≢◌, refl, ap, ◌∙◌, false, not, ◌&&◌, Option, none, some, is_empty, length,
  option_rule, ℤ,
}
use i2pchat.Text.{Str, str_in}
use i2pchat.Text.Strip.{strip}
use i2pchat.BlindBox.{◌>>=◌}
use i2pchat.PeerAddress.Typed.{normalize_peer_addr}
use i2pchat.Groups.Store.Files.{Bytes, Disk}
use i2pchat.Groups.Store.Operations.{seen_of}
use i2pchat.Groups.Store.Log.{Log}
use i2pchat.Groups.Store.Runs.{Holds}
use i2pchat.Groups.Wire.Decoding.{DecodedGroupTransportMessage, decode_group_transport_text}
use i2pchat.Groups.Wire.Valid.{Yields, Yields-bind, Yields-if, Yields-some}
use i2pchat.Groups.Wire.Accepted.{decode_text-IsMessage}
use i2pchat.Groups.Import.Checks.{Core}
use i2pchat.Groups.Import.Transport.{
  imported, GroupImportResult, ImportState, result, source_or, validated, after_checks,
  import_checked, import_message, import_group_transport,
}
use i2pchat.Groups.Import.Results.{done_with, done_with-inverse}
use i2pchat.Groups.Import.Remembered.{Remembers, import_checked-Remembers}

module _ (core : Core) where
  -- The directory is as it was, and the message is not imported.
  abbrev pub IsKept : Disk → GroupImportResult × ImportState → Type 0
  IsKept disk r = (r.0.status ≢ imported) × (r.1.disk ≡ disk)

  -- A message that is remembered is not imported.
  import_checked-IsKept :
      (now : ℤ) (fresh : Bytes) (m : DecodedGroupTransportMessage) (source_peer : Option Str)
      (s : ImportState)
      → is_empty (strip m.envelope.msg_id) ≡ false
      → Remembers core m.state.group_id (strip m.envelope.msg_id) s.disk
      → Yields (IsKept s.disk) (import_checked core now fresh m source_peer s)
  unfolding import_checked result
  import_checked-IsKept now fresh m source_peer s named h =
      let id = strip m.envelope.msg_id in
      let history_source = source_or source_peer m.envelope.sender_id in
      Yields-bind (IsKept s.disk) (normalize_peer_addr core.env.case history_source) _ (λ source _.
        rw (h.loads now) (
          Yields-if (IsKept s.disk) (not (is_empty id) && str_in id (seen_of (some h.conversation)))
            _ _ (λ _. ((λ e. cc e), refl)) (λ new. absurd (cc (rw (named, h.seen) at new)))))

  import_message-IsKept :
      (now : ℤ) (fresh : Bytes) (m : DecodedGroupTransportMessage) (source_peer : Option Str)
      (s : ImportState)
      → is_empty (strip m.envelope.msg_id) ≡ false
      → Remembers core m.state.group_id (strip m.envelope.msg_id) s.disk
      → Yields (IsKept s.disk) (import_message core now fresh m source_peer s)
  unfolding import_message result after_checks
  import_message-IsKept now fresh m source_peer s named h =
      option_rule (Yields (IsKept s.disk)) (validated core now m source_peer s.disk) _ _
        (λ _.
          Yields-bind (IsKept s.disk)
            (normalize_peer_addr core.env.case (source_or source_peer m.envelope.sender_id)) _
            (λ source _. ((λ e. cc e), refl)))
        (λ _ _. import_checked-IsKept now fresh m source_peer (after_checks core now m s) named h)

  -- An imported message is remembered.
  import_message-Remembers :
      (now : ℤ) (fresh : Bytes) (m : DecodedGroupTransportMessage) (source_peer : Option Str)
      (s : ImportState) (log : Log) (n : ℕ)
      → strip m.state.group_id ≡ m.state.group_id
      → is_empty (strip m.envelope.msg_id) ≡ false
      → Holds core.env m.state.group_id s.disk log n
      → n + 1 ≤ 4096
      → length fresh ≡ 32
      → Yields
          (λ r.
            (r.0.status ≡ imported)
            → Remembers core m.state.group_id (strip m.envelope.msg_id) r.1.disk)
          (import_message core now fresh m source_peer s)
  unfolding import_message result after_checks
  import_message-Remembers now fresh m source_peer s log n trimmed named h few size =
      let Q = λ (r : GroupImportResult × ImportState).
        (r.0.status ≡ imported)
        → Remembers core m.state.group_id (strip m.envelope.msg_id) r.1.disk in
      option_rule (Yields Q) (validated core now m source_peer s.disk) _ _
        (λ _.
          Yields-bind Q
            (normalize_peer_addr core.env.case (source_or source_peer m.envelope.sender_id)) _
            (λ source _ e. absurd (cc e)))
        (λ _ _. always (import_checked core now fresh m source_peer (after_checks core now m s)) (
          import_checked-Remembers core now fresh m source_peer (after_checks core now m s) log n
            trimmed named h few size))
    where
      always :
          (o : Option (GroupImportResult × ImportState))
          → Yields (λ r. Remembers core m.state.group_id (strip m.envelope.msg_id) r.1.disk) o
          → Yields
              (λ r.
                (r.0.status ≡ imported)
                → Remembers core m.state.group_id (strip m.envelope.msg_id) r.1.disk)
              o
      always none h = tt
      always (some r) h = λ _. h

  -- No result says that the text was imported, and the directory is as it was.
  abbrev pub IsUnchanged : Disk → Option GroupImportResult × ImportState → Type 0
  IsUnchanged disk q = Yields (λ r. r.status ≢ imported) q.0 × (q.1.disk ≡ disk)

  -- A text that was imported is not imported again, at whatever time and from whichever peer it comes, and its
  -- repetition leaves the directory as it is; where fewer than 4096 ids are remembered before, and the salt has
  -- its size.
  pub import_again-IsUnchanged :
      (now : ℤ) (fresh : Bytes) (text : Str) (source_peer : Option Str) (s s' : ImportState)
      (r : GroupImportResult) (m : DecodedGroupTransportMessage) (log : Log) (n : ℕ)
      → decode_group_transport_text core.env.case core.env.repr core.time core.loads text
        ≡ some (some m)
      → Holds core.env m.state.group_id s.disk log n
      → n + 1 ≤ 4096
      → length fresh ≡ 32
      → import_group_transport core now fresh text source_peer s ≡ some (some r, s')
      → r.status ≡ imported
      → (now' : ℤ) (fresh' : Bytes) (source_peer' : Option Str)
      → Yields (IsUnchanged s'.disk) (import_group_transport core now' fresh' text source_peer' s')
  unfolding import_group_transport
  import_again-IsUnchanged now fresh text source_peer s s' r m log n decoded h few size done status
        now' fresh' source_peer' =
      let message =
        decode_text-IsMessage core.env.case core.env.repr core.time core.loads text m decoded in
      let (trimmed, _) = message.0.state_ok.0 in
      let (id_trimmed, id_named) = message.0.msg_id_ok in
      let named = ap is_empty id_trimmed ∙ id_named in
      let first = rw (decoded, import_group_transport) at done in
      rw (decoded, import_group_transport)
        (again (import_message core now' fresh' m source_peer' s') (
          import_message-IsKept now' fresh' m source_peer' s' named (
            Yields-some
              (λ q.
                (q.0.status ≡ imported)
                → Remembers core m.state.group_id (strip m.envelope.msg_id) q.1.disk)
              (import_message core now fresh m source_peer s) (r, s')
              (import_message-Remembers now fresh m source_peer s log n trimmed named h few size)
              (done_with-inverse (import_message core now fresh m source_peer s) r s' first)
              status)))
    where
      again :
          (o : Option (GroupImportResult × ImportState))
          → Yields (IsKept s'.disk) o
          → Yields (IsUnchanged s'.disk) (o >>= (λ q. done_with q.0 q.1))
      again none h = tt
      again (some q) h = h
