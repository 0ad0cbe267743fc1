-- ===== src/Examples/Messages.antt =====
-- Frames, long texts, delivery states, retries and unread counts.
use i2pchat.Prelude.{
  Bool, ◌≤◌, ◌↔◌, ℕ, ◌+◌, ◌≡◌, refl, true, ◌&&◌, some, List, [], ◌∷◌, ◌++◌, All, arith,
  if◌then◌else◌, is_empty, ltb,
}
use i2pchat.Text.{Str, codes, str_eq, str_in, before_suffix?}
use i2pchat.Text.Strip.{strip, is_space}
use i2pchat.Text.Case.{ascii, ascii_lower}
use i2pchat.Dict.{Dict}
use i2pchat.PeerAddress.{is_host, host_of, normalize_peer_address, normalize_member_id}
use i2pchat.PeerAddress.{same_i2p_destination}
use i2pchat.PeerAddress.Same.{same_i2p_destination_iff}
use i2pchat.PeerAddress.Canonical.{normalize_peer_address_canonical}
use i2pchat.Codec
use i2pchat.Codec.{Bytes, ProtocolCodec}
use i2pchat.Codec.Words.{be_bytes}
use i2pchat.Codec.RoundTrip.{frame_of, read_frame-encode}
use i2pchat.Chunking
use i2pchat.Chunking.Parts.{IsPart, Joins, split_long_chat_text-Joins}
use i2pchat.MessageDelivery.{
  queued, failed, delivery_lifecycle_from_send_result, normalize_loaded_delivery_state,
}
use i2pchat.MessageDelivery.Restart.{normalize_loaded-send_result}
use i2pchat.TransferRetry.{
  TransferRetryPolicy, retryable_reasons, should_retry_transfer, should_retry_transfer-total,
}
use i2pchat.Unread.{bump_unread_for_incoming_peer_message, total_unread, is_active}
use i2pchat.Unread.Totals.{total-incoming}

abbrev codec : ProtocolCodec
codec = record {
  allowed_types = codes "U" ∷ codes "S" ∷ [];
  max_frame_body = 1000;
  resync_limit = 64;
}

-- A frame of type `U` with message id 258 and the payload `hi`
abbrev frame : Bytes
frame =
    0x89 ∷ 73 ∷ 50 ∷ 80 ∷ 4 ∷ 85 ∷ 1 ∷ 0 ∷ 0 ∷ 0 ∷ 0 ∷ 0 ∷ 0 ∷ 1 ∷ 2 ∷ 0 ∷ 0 ∷ 0 ∷ 2 ∷ 104 ∷ 105
    ∷ []

read_frame-encode_example :
    (x : ℕ) × (codes "U" ≡ x ∷ [])
    × (Codec.read_frame codec (7 ∷ 8 ∷ [] ++ frame ++ 9 ∷ [])
        ≡ Codec.ok (frame_of x (codes "hi") 258 1, 9 ∷ []))
unfolding Codec.encode str_in str_eq Codec.encode_char Codec.pack_header be_bytes
read_frame-encode_example =
    read_frame-encode codec (codes "U") (codes "hi") 258 1 (7 ∷ 8 ∷ []) frame (9 ∷ []) refl
      ((λ e. absurd (omega arith)), ((λ e. absurd (omega arith)), tt)) (omega arith)

abbrev long_text : Str
long_text = codes "one two three four five six seven eight nine ten"

split_long_chat_text-Joins_example :
    (parts : List Str) × (Chunking.split_long_chat_text long_text 32 ≡ Chunking.ok parts)
    × All (IsPart 32) parts
    × Joins parts long_text
split_long_chat_text-Joins_example = split_long_chat_text-Joins long_text 32 (omega arith)

normalize_loaded-send_result_example :
    normalize_loaded_delivery_state ascii
      (some (delivery_lifecycle_from_send_result (codes "offline-queued") true [] []).state)
    ≡ some (
        if true && str_eq (codes "offline-queued") (codes "offline-queued") then queued else failed)
normalize_loaded-send_result_example =
    normalize_loaded-send_result ascii (codes "offline-queued") true [] []

abbrev policy : TransferRetryPolicy
policy = record { max_retries = 3; backoff_base = 2000000; max_backoff = 30000000 }

should_retry_transfer-total_example :
    (d : Bool × ℕ) × (should_retry_transfer 1 (codes "timeout") policy ≡ some d)
    × (d.1 ≤ 30000000)
    × (d.0 ≡ str_in (codes "timeout") retryable_reasons && ltb 1 3)
should_retry_transfer-total_example =
    should_retry_transfer-total 1 (codes "timeout") policy (omega arith)

abbrev counts : Dict ℕ
counts = (codes "alice", 2) ∷ (codes "bob", 5) ∷ []

total-incoming_example :
    total_unread (
      bump_unread_for_incoming_peer_message (some (codes "bob")) (some (codes "alice")) true counts)
    ≡ total_unread counts
      + (if is_empty (codes "alice")
          then 0
          else if is_active (codes "alice") (some (codes "bob")) && true
          then 0
          else 1)
total-incoming_example = total-incoming (some (codes "bob")) (codes "alice") true counts

abbrev host : Str
host = codes "abcdefghijklmnopqrstuvwxyz234567abcdefghijklmnopqrst"

normalize_peer_address_canonical_example :
    (is_host host ≡ true) × (normalize_peer_address ascii host ≡ some host)
unfolding normalize_peer_address host_of strip is_space is_host before_suffix? str_eq ascii_lower
normalize_peer_address_canonical_example =
    normalize_peer_address_canonical ascii
      (codes " ABCDEFGHIJKLMNOPQRSTUVWXYZ234567abcdefghijklmnopqrst.b32.i2p") host refl

same_i2p_destination_iff_example :
    (same_i2p_destination ascii (codes " Alice ") (codes "alice") ≡ true)
    ↔ (normalize_member_id ascii (codes " Alice ") ≡ normalize_member_id ascii (codes "alice"))
same_i2p_destination_iff_example = same_i2p_destination_iff ascii (codes " Alice ") (codes "alice")
