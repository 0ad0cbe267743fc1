-- ===== src/PeerAddress/Typed.antt =====
-- `_normalize_peer_addr` of i2pchat/core/i2p_chat_core.py: the host in an address that was typed or pasted.
use i2pchat.Prelude.{
  ℕ, suc, Bool, true, not, ◌&&◌, ◌||◌, Option, none, some, [], ◌∷◌, leb, ◌==◌, if◌then◌else◌,
  is_empty, is_some, any, take, drop, keep,
}
use i2pchat.Text.{Str, codes, before_suffix?, after_prefix?}
use i2pchat.Text.Strip.{strip, lstrip, is_space}
use i2pchat.Text.Case.{CaseMapping}
use i2pchat.PeerAddress.{is_base32, is_host}

-- How many characters at the front are of the base32 alphabet
unfoldable pub base32_run : Str → ℕ
base32_run [] = 0
base32_run (c ∷ s) = let n = base32_run s in if is_base32 c then suc n else 0

abbrev pub is_host_length : ℕ → Bool
is_host_length n = leb 40 n && leb n 80

-- The first place with 40 to 80 characters of the alphabet in front of `.b32.i2p`, which has a point that is
-- not of the alphabet
unfoldable pub find_host : Str → Option Str
find_host [] = none
find_host (c ∷ s) =
    let n = base32_run (c ∷ s) in
    let later = find_host s in
    if is_host_length n && is_some (after_prefix? (codes ".b32.i2p") (drop n (c ∷ s)))
    then some (take n (c ∷ s))
    else later

-- `\s|$`
unfoldable pub at_end : Str → Bool
at_end [] = true
at_end (c ∷ rest) = is_space c

-- `[a-z2-7]{40,80}(?:\s|$)`
unfoldable pub host_word : Str → Option Str
host_word s =
    let n = base32_run s in if is_host_length n && at_end (drop n s) then some (take n s) else none

unfoldable pub then_after : Str → Option Str → Option Str
then_after word none = none
then_after word (some s) = after_prefix? word (lstrip s)

-- `my\s*addr\s*:\s*` and a host, at the front
unfoldable pub labelled_host : Str → Option Str
labelled_host s =
    elim (then_after (codes ":") (then_after (codes "addr") (after_prefix? (codes "my") s))) [
      | none ↦ none
      | some rest ↦ host_word (lstrip rest)
    ]

unfoldable pub find_labelled : Str → Option Str
find_labelled [] = none
find_labelled (c ∷ s) =
    let later = find_labelled s in
    elim (labelled_host (c ∷ s)) [ none ↦ later | some host ↦ some host ]

-- `re.fullmatch(r"[a-z2-7]{40,80}", host)`
unfoldable pub full_host : Str → Option Str
full_host host = if is_host host then some host else none

-- The characters that are refused; white space is gone.
unfoldable pub is_forbidden : ℕ → Bool
is_forbidden c = (c == 13) || (c == 10) || (c == 0) || (c == 9) || (c == b'=')

-- What is left when no pattern is found
unfoldable pub compact_host : Str → Option Str
compact_host compact =
    if any is_forbidden compact then none else elim (before_suffix? (codes ".b32.i2p") compact) [
      | some host ↦ full_host host
      | none ↦ if any (λ c. c == b'.') compact then none else full_host compact
    ]

-- `_normalize_peer_addr`; `none` is the `ValueError`.
unfoldable pub normalize_peer_addr : CaseMapping → Str → Option Str
normalize_peer_addr u addr =
    let raw = strip addr in
    let lower = u.lower raw in
    if is_empty raw then some [] else elim (find_host lower) [
      | some host ↦ some host
      | none ↦ elim (find_labelled lower) [
        | some host ↦ some host
        | none ↦ compact_host (keep (λ c. not (is_space c)) lower)
      ]
    ]
