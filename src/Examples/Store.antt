-- ===== src/Examples/Store.antt =====
-- Group records on a directory, plain and encrypted, and a history longer than the limit.
use i2pchat.Prelude.{
  ℕ, zero, suc, ◌≡◌, ◌≤◌, refl, ap, true, false, none, some, List, [], ◌∷◌, ◌++◌, not,
  if◌then◌else◌, arith, length, map, pos, is_empty, drop, drop-append,
}
use i2pchat.Text.{Str, codes, str_eq, str_in}
use i2pchat.Text.Strip.{strip, lstrip, rstrip, strip_id, no_space, is_space}
use i2pchat.Text.Case.{ascii}
use i2pchat.Dict.{lookup}
use i2pchat.Json.{null}
use i2pchat.Groups.Models.{GroupState, group_text, make_state}
use i2pchat.Groups.Store.Models.{GroupHistoryEntry}
use i2pchat.Groups.Store.Normal.{make_entry_idem}
use i2pchat.Groups.Store.Conversation.{StoredGroupConversation, entry_id, resolve_seen_msg_ids}
use i2pchat.Groups.Store.SeenIds.{AreIds}
use i2pchat.Groups.Store.Files.{Bytes, Disk, Crypto}
use i2pchat.Groups.Store.Operations.{
  Environment, appended, history_of, seen_of, existing_of, load_group_conversation,
}
use i2pchat.Groups.Store.Stored.{deserialize_state-make_state}
use i2pchat.Groups.Store.Log.{log_has, log_append, log_run, AppendCall, entry_of, append_all}
use i2pchat.Groups.Store.Refinement.{Represents, appended-Represents}
use i2pchat.Groups.Store.Runs.{Holds, IsCall, append_all-refines}
use i2pchat.Groups.Store.Bounds.{IsBounded, next_of, is_repeat, appended-IsBounded}
use i2pchat.Groups.Store.Rotation.{resolve_seen-rotates}
use i2pchat.Groups.Store.Record.Written.{record_text}
use i2pchat.Examples.Wire.{clock_text}
use i2pchat.Examples.Module.{json_module}

-- A cipher that adds the first byte of the key to each byte stands for NaCl; names stand for their hashes.
abbrev pub toy : Crypto
toy = record {
  nacl_available = true;
  sha256_hex = λ s. s;
  hkdf_extract = λ salt key. key;
  hkdf_expand = λ key info n. key;
  encrypt_message = λ key s. key ++ s;
  decrypt_message = λ key s. some (drop (length key) s);
  decrypt-encrypt = λ key s. ap some (drop-append (length key) key s refl);
}

abbrev pub env : Environment
env = record {
  case = ascii;
  repr = λ j. [];
  json = record_text (λ j. []) clock_text json_module;
  crypto = toy;
  profile = codes "default";
  identity_key = some (codes "k");
}

abbrev pub salt : ℕ → Bytes
salt zero = []
salt (suc n) = 7 ∷ salt n

abbrev pair_group : GroupState
pair_group = make_state ascii (codes "g1") 1 (codes "alice" ∷ codes "bob" ∷ []) none 0 0

abbrev hello : GroupHistoryEntry
hello = record {
  kind = codes "me";
  sender_id = codes "alice";
  content_type = group_text;
  text = codes "hi";
  payload = null;
  msg_id = some (codes " m1 ");
  group_seq = pos 1;
  epoch = pos 1;
  created_at = 5;
  source_peer = none;
  delivery_results = (codes "bob", codes "failed") ∷ [];
  delivery_reasons = [];
}

abbrev call : AppendCall
call = record {
  now = pos 0;
  fresh = salt 32;
  state = pair_group;
  entry = hello;
  next_group_seq = none;
}

is_call : IsCall env (codes "g1") call
unfolding make_state strip lstrip rstrip is_space
is_call = record {
  same_group = refl;
  state_ok =
      deserialize_state-make_state ascii (codes "g1") 1 (codes "alice" ∷ codes "bob" ∷ []) none 0 0;
  salt_size = refl;
}

no_record : Represents ascii (λ j. []) none [] 0
unfolding history_of seen_of str_in log_has
no_record = record {
  existing_ok = tt;
  history_eq = refl;
  ids_ok = (tt, tt);
  ids_few = omega arith;
  known = tt;
  entries_ok = tt;
  agrees = λ s h. refl;
}

pub no_file : Holds env (codes "g1") [] [] 0
unfolding load_group_conversation existing_of lookup
no_file = record { existing = none; loads = λ now. refl; stands = no_record }

append_all-refines_example :
    let r = log_run (map (entry_of env) (call ∷ call ∷ [])) [] in
    (disk : Disk) × (append_all env (call ∷ call ∷ []) [] ≡ some (r.0, disk))
    × Holds env (codes "g1") disk r.1 2
append_all-refines_example =
    append_all-refines env (codes "g1") (call ∷ call ∷ []) [] [] 0 (is_call, (is_call, tt)) no_file
      (omega arith)

abbrev pub stored : StoredGroupConversation
stored = (appended none pair_group (entry_of env call) none).0

pub stored_once : Represents ascii (λ j. []) (some stored) (log_append (entry_of env call) []).1 1
stored_once =
    (appended-Represents ascii (λ j. []) none pair_group (entry_of env call) none [] 0 no_record
      is_call.state_ok (make_entry_idem ascii (λ j. []) hello) (omega arith)).1

appended-IsBounded_example :
    let e = entry_of env call in
    let r = appended (some stored) pair_group e none in
    IsBounded r.0
    × (next_of (some stored) ≤ r.0.next_group_seq)
    × (r.1 ≡ not (is_repeat (some stored) e))
    × (r.0.history
        ≡ (if is_repeat (some stored) e then stored.history else stored.history ++ e ∷ []))
unfolding history_of
appended-IsBounded_example = appended-IsBounded (some stored) pair_group (entry_of env call) none

-- `suc n` letters
unfoldable name_of : ℕ → Str
name_of zero = b'a' ∷ []
name_of (suc n) = b'a' ∷ name_of n

-- The names below `n`, the longest first
unfoldable names : ℕ → List Str
names zero = []
names (suc n) = name_of n ∷ names n

name_of-id : (n : ℕ) → (strip (name_of n) ≡ name_of n) × (is_empty (name_of n) ≡ false)
unfolding name_of no_space is_space
name_of-id n = (strip_id (name_of n) (plain n), filled n)
  where
    plain : (n : ℕ) → no_space (name_of n) ≡ true
    plain zero = refl
    plain (suc n) = plain n

    filled : (n : ℕ) → is_empty (name_of n) ≡ false
    filled zero = refl
    filled (suc n) = refl

name_of-other : (m n : ℕ) → suc m ≤ n → str_eq (name_of m) (name_of n) ≡ false
unfolding name_of str_eq
name_of-other zero zero h = absurd (omega arith)
name_of-other zero (suc zero) h = refl
name_of-other zero (suc (suc n)) h = refl
name_of-other (suc m) zero h = absurd (omega arith)
name_of-other (suc m) (suc n) h = name_of-other m n (omega arith)

names-fresh : (m n : ℕ) → m ≤ n → str_in (name_of n) (names m) ≡ false
unfolding names str_in
names-fresh zero n h = refl
names-fresh (suc m) n h = rw (name_of-other m n h) (names-fresh m n (omega arith))

names-AreIds : (n : ℕ) → AreIds (names n)
unfolding names
names-AreIds zero = (tt, tt)
names-AreIds (suc n) =
    let rest = names-AreIds n in ((name_of-id n, rest.0), (names-fresh n n (omega arith), rest.1))

length-names : (n : ℕ) → length (names n) ≡ n
unfolding names
length-names zero = refl
length-names (suc n) = ap suc (length-names n)

-- An entry with an id
abbrev with_id : Str → GroupHistoryEntry
with_id s = record hello { msg_id = some s }

ids-with_id : (ids : List Str) → map entry_id (map with_id ids) ≡ ids
unfolding entry_id
ids-with_id [] = refl
ids-with_id (s ∷ ids) = ap (◌∷◌ s) (ids-with_id ids)

ids_4097 : AreIds (name_of 4096 ∷ names 4096)
unfolding names
ids_4097 = names-AreIds (suc 4096)

resolve_seen-rotates_example :
    resolve_seen_msg_ids (map with_id (name_of 4096 ∷ names 4096)) (names 4096)
    ≡ drop 1 (names 4096 ++ name_of 4096 ∷ [])
resolve_seen-rotates_example =
    resolve_seen-rotates (map with_id (name_of 4096 ∷ names 4096)) (name_of 4096 ∷ []) (names 4096)
      (ids-with_id (name_of 4096 ∷ names 4096)) ids_4097 (length-names 4096)
