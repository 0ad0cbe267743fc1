-- ===== src/Groups/Import/Trust.antt =====
-- Whose messages i2pchat/core/i2p_chat_core.py imports.
use i2pchat.Prelude.{
  ◌≡◌, ap, ◌∙◌, inl, inr, Option, none, some, [], ◌∷◌, some-injective, option_rule, ℤ, Option-cases,
}
use i2pchat.Text.{Str}
use i2pchat.Text.Strip.{strip}
use i2pchat.PeerAddress.Typed.{normalize_peer_addr}
use i2pchat.Groups.Models.{GroupState}
use i2pchat.Groups.Store.Files.{Bytes}
use i2pchat.Groups.Store.Operations.{load_group_state}
use i2pchat.Groups.Wire.Decoding.{DecodedGroupTransportMessage, decode_group_transport_text}
use i2pchat.Groups.Wire.Valid.{Yields, Yields-bind, Yields-some}
use i2pchat.Groups.Import.Checks.{Core, or_blank, validate_imported_group_transport}
use i2pchat.Groups.Import.Transport.{
  invalid, imported, GroupImportResult, ImportState, validated, after_checks, import_checked,
  source_or, result, undecoded, emit, error_shown, import_message, import_group_transport,
}
use i2pchat.Groups.Import.Results.{done_with, undone, done_with-inverse}
use i2pchat.Groups.Import.Trusted.{Yields-map, IsTrusted, validate-IsTrusted}

module _ (core : Core) (now : ℤ) (fresh : Bytes) (source_peer : Option Str) where
  -- The local state that the checks load
  abbrev pub loaded_state : DecodedGroupTransportMessage → ImportState → Option (Option GroupState)
  loaded_state m s = load_group_state core.env now (strip m.envelope.group_id) s.disk

  -- A message that was checked against the local state of its group
  pub record IsChecked (m : DecodedGroupTransportMessage) (s : ImportState) : Type 0 where
    pub local_state : Option GroupState
    pub loaded : loaded_state m s ≡ some local_state
    pub trusted : IsTrusted core m local_state (or_blank source_peer)

  validated-IsChecked :
      (m : DecodedGroupTransportMessage) (s : ImportState)
      → Yields (λ _. IsChecked m s) (validated core now m source_peer s.disk)
  unfolding validated
  validated-IsChecked m s =
      Yields-bind (λ _. IsChecked m s) (loaded_state m s) _
        (λ local_state loaded.
          Yields-map (IsTrusted core m local_state (or_blank source_peer)) (IsChecked m s)
            (validate_imported_group_transport core local_state source_peer m)
            (λ t. record { local_state = local_state; loaded = loaded; trusted = t })
            (validate-IsTrusted core m local_state source_peer))

  -- What an imported message satisfies
  abbrev IfImported :
      DecodedGroupTransportMessage → ImportState → GroupImportResult × ImportState → Type 0
  IfImported m s r = (r.0.status ≡ imported) → IsChecked m s

  import_message-IsChecked :
      (m : DecodedGroupTransportMessage) (s : ImportState)
      → Yields (IfImported m s) (import_message core now fresh m source_peer s)
  unfolding import_message result
  import_message-IsChecked m s =
      option_rule (Yields (IfImported m s)) (validated core now m source_peer s.disk) _ _
        (λ _.
          Yields-bind (IfImported m s)
            (normalize_peer_addr core.env.case (source_or source_peer m.envelope.sender_id)) _
            (λ source _ e. absurd (cc e)))
        (λ b found.
          any_result (import_checked core now fresh m source_peer (after_checks core now m s)) (
            Yields-some (λ _. IsChecked m s) (validated core now m source_peer s.disk) b
              (validated-IsChecked m s) found))
    where
      any_result :
          (o : Option (GroupImportResult × ImportState)) → IsChecked m s → Yields (IfImported m s) o
      any_result none c = tt
      any_result (some r) c = λ _. c

  -- The message of a text, when its result is that it was imported
  pub record IsImported (text : Str) (s : ImportState) (r : GroupImportResult) : Type 0 where
    pub message : DecodedGroupTransportMessage
    pub decoded :
        decode_group_transport_text core.env.case core.env.repr core.time core.loads text
        ≡ some (some message)
    pub checked : IsChecked message s

  -- A text is imported only if it is a message whose sender is in the roster of the message, and in the
  -- local roster, if there is one, or announces itself; and either the message comes from the peer that the
  -- transport names, if any, and is for this profile, if its address is known, or its signature is valid for
  -- the key that is pinned for the sender.
  pub import-IsImported :
      (text : Str) (s s' : ImportState) (r : GroupImportResult)
      → import_group_transport core now fresh text source_peer s ≡ some (some r, s')
      → r.status ≡ imported
      → IsImported text s r
  unfolding import_group_transport
  import-IsImported text s s' r done status =
      elim (Option-cases
        (decode_group_transport_text core.env.case core.env.repr core.time core.loads text)) [
          | inl e ↦ absurd (cc (refused (rw (e, import_group_transport) at done)))
          | inr (none, e) ↦ absurd (cc (rw (e, import_group_transport) at done))
          | inr (some m, e) ↦ record {
            message = m;
            decoded = e;
            checked =
                Yields-some (IfImported m s) (import_message core now fresh m source_peer s) (r, s')
                  (import_message-IsChecked m s)
                  (done_with-inverse (import_message core now fresh m source_peer s) r s'
                    (rw (e, import_group_transport) at done))
                  status;
          }
        ]
    where
      refused :
          done_with undecoded (emit (error_shown ∷ []) s) ≡ done_with r s' → invalid ≡ imported
      refused h =
          ap (λ (x : GroupImportResult × ImportState). x.0.status) (some-injective (ap undone h))
          ∙ status
