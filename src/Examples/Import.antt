-- ===== src/Examples/Import.antt =====
-- A message from a peer is imported into a group that is not known yet.
use i2pchat.Prelude.{
  ℕ, zero, suc, ◌*◌, ◌≤◌, ◌≡◌, refl, ap, ◌∙◌, true, false, Option, none, some, List, [], ◌∷◌, arith,
  length, pos,
}
use i2pchat.Text.{Str, codes}
use i2pchat.Text.Case.{ascii}
use i2pchat.Json.{Json, string}
use i2pchat.Text.Strip.{strip, is_space}
use i2pchat.Groups.Models.{distinct_members}
use i2pchat.Groups.Wire.Decoding.{DecodedGroupTransportMessage, decode_group_transport_text}
use i2pchat.Groups.Wire.Reads.{IsSendable}
use i2pchat.Groups.Wire.RoundTrip.{IsDelivery, sent_message, decode-encode}
use i2pchat.Groups.Import.Transport.{validated, after_checks, import_checked, import_message}
use i2pchat.Groups.Models.{GroupState, GroupEnvelope}
use i2pchat.Groups.Wire.Encoding.{encode_group_transport_text}
use i2pchat.Groups.Import.Checks.{Core}
use i2pchat.Groups.Import.Transport.{
  imported, GroupImportResult, ImportState, import_group_transport,
}
use i2pchat.Groups.Import.Trust.{IsImported, import-IsImported}
use i2pchat.Groups.Wire.Valid.{Yields}
use i2pchat.Groups.Import.Once.{IsUnchanged, import_again-IsUnchanged}
use i2pchat.Examples.Groups.{team, metadata}
use i2pchat.Examples.Store.{env, salt, no_file}
use i2pchat.Examples.Wire.{clock_text, json, message}

-- The address of the sender
abbrev address : ℕ → Str
address zero = []
address (suc n) = b'a' ∷ address n

abbrev core : Core
core = record {
  env = env;
  time = clock_text;
  dumps = json.dumps;
  loads = json.loads;
  my_base32 = some (codes "bob");
  my_signing_public = none;
  peer_trusted_signing_keys = [];
  verify_signature = λ key s signature. false;
}

abbrev pair_state : GroupState
pair_state = record team { members = address 40 ∷ codes "bob" ∷ [] }

abbrev sent : GroupEnvelope Json
sent = record message { sender_id = address 40 }

abbrev text : Str
text = encode_group_transport_text clock_text json.dumps pair_state sent metadata

abbrev start : ImportState
start = record { disk = []; sequences = []; events = [] }

abbrev Outcome : Type 0
Outcome = Option (Option GroupImportResult × ImportState)

abbrev outcome : Outcome
outcome = import_group_transport core (pos 0) (salt 32) text (some (address 40)) start

abbrev failed : GroupImportResult
failed = record { status = imported; envelope = none; state = none; source_peer = none }

sendable : IsSendable ascii pair_state sent
unfolding strip is_space distinct_members i2pchat.PeerAddress.normalize_member_id
    i2pchat.PeerAddress.normalize_peer_address i2pchat.PeerAddress.host_of
    i2pchat.Text.Case.ascii_lower i2pchat.PeerAddress.is_host i2pchat.Text.before_suffix?
    i2pchat.Text.str_eq i2pchat.Text.str_in i2pchat.Groups.Wire.Decoding.is_member
    i2pchat.Prelude.any i2pchat.PeerAddress.same_i2p_destination i2pchat.PeerAddress.same_or
    i2pchat.Groups.Wire.Fields.fits
sendable = record {
  group_ok = (refl, refl);
  title_ok = refl;
  members_ok = refl;
  members_filled = refl;
  sender_ok = (refl, refl);
  sender_filled = (refl, refl);
  sender_in = refl;
  msg_id_ok = (refl, refl);
  seq_ok = omega arith;
  content = string (codes "hi");
  payload_ok = refl;
  fits_ok = refl;
}

to_bob : IsDelivery ascii pair_state metadata
unfolding strip i2pchat.PeerAddress.normalize_member_id is_space
    i2pchat.PeerAddress.normalize_peer_address i2pchat.PeerAddress.host_of
    i2pchat.Text.Case.ascii_lower i2pchat.PeerAddress.is_host i2pchat.Text.before_suffix?
    i2pchat.Text.str_eq i2pchat.Groups.Wire.Decoding.is_member i2pchat.Prelude.any
    i2pchat.PeerAddress.same_i2p_destination i2pchat.PeerAddress.same_or
to_bob = record {
  recipient_ok = (refl, refl);
  recipient_filled = (refl, refl);
  recipient_in = refl;
  delivery_ok = (refl, refl);
}

text_short : length text ≤ 512 * 1024
unfolding encode_group_transport_text i2pchat.Examples.Encoding.Values.json_value
    i2pchat.Examples.Encoding.Values.put_json i2pchat.Json.from_fields
    i2pchat.Groups.Wire.Encoding.message_v1 i2pchat.Examples.Encoding.Values.integer
    i2pchat.Examples.Encoding.Values.bool i2pchat.Json.from_items
    i2pchat.Groups.Wire.Fields.content_type_text
text_short = omega arith

abbrev received : DecodedGroupTransportMessage
received = sent_message pair_state sent metadata

decoded :
    decode_group_transport_text ascii env.repr clock_text json.loads text ≡ some (some received)
decoded =
    decode-encode ascii env.repr clock_text json pair_state sent metadata sendable to_bob text_short

is_valid : validated core (pos 0) received (some (address 40)) [] ≡ some true
unfolding validated i2pchat.Groups.Import.Checks.check_fields
    i2pchat.Groups.Store.Operations.load_group_state
    i2pchat.Groups.Store.Operations.load_group_conversation i2pchat.Dict.lookup
    i2pchat.Groups.Import.Checks.validate_imported_group_transport strip is_space
    i2pchat.Text.str_eq i2pchat.PeerAddress.normalize_member_id
    i2pchat.PeerAddress.normalize_peer_address i2pchat.PeerAddress.host_of
    i2pchat.Text.Case.ascii_lower i2pchat.PeerAddress.is_host i2pchat.Text.before_suffix?
    i2pchat.Groups.Wire.Decoding.is_member i2pchat.Prelude.any
    i2pchat.PeerAddress.same_i2p_destination i2pchat.PeerAddress.same_or
    i2pchat.Groups.Import.Checks.is_authorized i2pchat.Groups.Import.Checks.check_scope
    i2pchat.Groups.Import.Checks.scope_of i2pchat.Groups.Import.Checks.is_bound
    i2pchat.Groups.Import.Checks.check_recipient i2pchat.Groups.Import.Checks.local_member
    i2pchat.Groups.Wire.Fields.fits
is_valid = refl

abbrev stored : Option (GroupImportResult × ImportState)
stored =
    import_checked core (pos 0) (salt 32) received (some (address 40))
      (after_checks core (pos 0) received start)

abbrev result_in : Option (GroupImportResult × ImportState) → GroupImportResult
result_in (some r) = r.0
result_in none = failed

abbrev state_in : Option (GroupImportResult × ImportState) → ImportState
state_in (some r) = r.1
state_in none = start

is_stored : stored ≡ some (result_in stored, state_in stored)
unfolding import_checked after_checks i2pchat.Groups.Import.Transport.prime_loaded
    i2pchat.Groups.Import.Transport.prime i2pchat.Groups.Import.Checks.check_fields
    i2pchat.PeerAddress.normalize_member_id i2pchat.PeerAddress.Typed.normalize_peer_addr strip
    i2pchat.Groups.Import.Transport.source_or is_space i2pchat.PeerAddress.Typed.find_host
    i2pchat.PeerAddress.Typed.base32_run i2pchat.PeerAddress.is_base32 i2pchat.Text.Case.ascii_lower
    i2pchat.Text.after_prefix? i2pchat.Prelude.drop i2pchat.PeerAddress.Typed.find_labelled
    i2pchat.PeerAddress.Typed.labelled_host i2pchat.PeerAddress.Typed.then_after
    i2pchat.PeerAddress.Typed.compact_host i2pchat.Prelude.any i2pchat.Prelude.keep
    i2pchat.PeerAddress.Typed.is_forbidden i2pchat.Text.before_suffix? i2pchat.Text.str_eq
    i2pchat.PeerAddress.Typed.full_host i2pchat.PeerAddress.is_host
    i2pchat.Groups.Store.Operations.existing_of
    i2pchat.Groups.Store.Operations.load_group_conversation i2pchat.Dict.lookup i2pchat.Text.str_in
    i2pchat.Groups.Store.Operations.seen_of i2pchat.Groups.Import.Transport.store_message
    i2pchat.Groups.Import.Snapshot.imported_state
    i2pchat.Groups.Import.Snapshot.build_group_history_entry
    i2pchat.Groups.Store.Operations.append_group_history_entry
is_stored = refl

outcome_is : outcome ≡ some (some (result_in stored), state_in stored)
unfolding import_group_transport import_message
outcome_is = rw (decoded, import_group_transport, import_message, is_valid, is_stored) refl

is_imported : (result_in stored).status ≡ imported
unfolding import_checked after_checks i2pchat.Groups.Import.Transport.prime_loaded
    i2pchat.Groups.Import.Transport.prime i2pchat.Groups.Import.Checks.check_fields
    i2pchat.PeerAddress.normalize_member_id i2pchat.PeerAddress.Typed.normalize_peer_addr strip
    i2pchat.Groups.Import.Transport.source_or is_space i2pchat.PeerAddress.Typed.find_host
    i2pchat.PeerAddress.Typed.base32_run i2pchat.PeerAddress.is_base32 i2pchat.Text.Case.ascii_lower
    i2pchat.Text.after_prefix? i2pchat.Prelude.drop i2pchat.PeerAddress.Typed.find_labelled
    i2pchat.PeerAddress.Typed.labelled_host i2pchat.PeerAddress.Typed.then_after
    i2pchat.PeerAddress.Typed.compact_host i2pchat.Prelude.any i2pchat.Prelude.keep
    i2pchat.PeerAddress.Typed.is_forbidden i2pchat.Text.before_suffix? i2pchat.Text.str_eq
    i2pchat.PeerAddress.Typed.full_host i2pchat.PeerAddress.is_host
    i2pchat.Groups.Store.Operations.existing_of
    i2pchat.Groups.Store.Operations.load_group_conversation i2pchat.Dict.lookup i2pchat.Text.str_in
    i2pchat.Groups.Store.Operations.seen_of i2pchat.Groups.Import.Transport.store_message
    i2pchat.Groups.Import.Snapshot.imported_state
    i2pchat.Groups.Import.Snapshot.build_group_history_entry
    i2pchat.Groups.Store.Operations.append_group_history_entry
    i2pchat.Groups.Import.Transport.stored_result i2pchat.Groups.Store.Operations.appended
    i2pchat.Groups.Store.Conversation.entry_id i2pchat.Groups.Store.Models.make_entry
    i2pchat.Groups.Store.Models.strip_or_none i2pchat.Groups.Import.Transport.result
is_imported = refl

import-IsImported_example :
    IsImported core (pos 0) (salt 32) (some (address 40)) text start (result_in stored)
import-IsImported_example =
    import-IsImported core (pos 0) (salt 32) (some (address 40)) text start (state_in stored)
      (result_in stored) outcome_is is_imported

import_again-IsUnchanged_example :
    Yields
      (IsUnchanged core (state_in stored).disk)
      (import_group_transport core (pos 9) (salt 32) text none (state_in stored))
import_again-IsUnchanged_example =
    import_again-IsUnchanged core (pos 0) (salt 32) text (some (address 40)) start (state_in stored)
      (result_in stored) received [] 0 decoded no_file (omega arith) refl outcome_is is_imported
      (pos 9) (salt 32) none
