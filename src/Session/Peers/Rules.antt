-- ===== src/Session/Peers/Rules.antt =====
-- How a method that looks up, or makes, one peer is taken apart in a proof.
use i2pchat.Prelude.{
  if_rule, option_rule, ◌≡◌, false, none, some, Bool-cases, Option-cases, inl, inr, if◌then◌else◌,
  is_empty,
}
use i2pchat.Text.{Str, str_eq_refl}
use i2pchat.Text.Case.{CaseMapping}
use i2pchat.PeerAddress.{normalize_peer_id}
use i2pchat.Dict.{Dict, lookup, put, lookup-put}
use i2pchat.Session.State.{
  Time, PeerTransportState, SessionManager, Result, value_error, ◌>>=◌, new_peer,
}
use i2pchat.Session.Peers.{ensure_peer_transport, store}

-- `if not key: return z`, `peer = table.get(key)`, `if peer is None: return z`
pub peer_rule {ℓ κ} :
    {R : Type ℓ} (P : R → Type κ) (key : Str) (d : Dict PeerTransportState) (z : R)
    (f : PeerTransportState → R)
    → P z
    → ((peer : PeerTransportState) → lookup key d ≡ some peer → P (f peer))
    → P (if is_empty key then z else elim (lookup key d) [ none ↦ z | some peer ↦ f peer ])
peer_rule P key d z f n s =
    if_rule P (is_empty key) z _ (λ _. n) (λ _. option_rule P (lookup key d) z f (λ _. n) s)

-- After `ensure_peer_transport`: a peer that was there, a new one, or the exception.
pub ensure_rule {ℓ κ} :
    {R : Type ℓ} (P : Result R → Type κ) (u : CaseMapping) (t : Time) (p : Str) (m : SessionManager)
    (f : Str × PeerTransportState × SessionManager → Result R)
    → P value_error
    → ((peer : PeerTransportState)
        → lookup (normalize_peer_id u p) m.peer_transport ≡ some peer
        → P (f (normalize_peer_id u p, peer, m)))
    → (lookup (normalize_peer_id u p) m.peer_transport ≡ none
        → let peer = new_peer (normalize_peer_id u p) t in
          P (f (normalize_peer_id u p, peer, store (normalize_peer_id u p) peer m)))
    → P (ensure_peer_transport u t p m >>= f)
unfolding ensure_peer_transport
ensure_rule P u t p m f raised old new = elim (Bool-cases (is_empty (normalize_peer_id u p))) [
  | inl e ↦ rw e raised
  | inr e ↦ elim (Option-cases (lookup (normalize_peer_id u p) m.peer_transport)) [
    | inl missing ↦ rw (e, missing) (new missing)
    | inr (peer, found) ↦ rw (e, found) (old peer found)
  ]
]

-- The key that was just written holds what was written.
pub lookup-put_self {ℓ} :
    {V : Type ℓ} (k : Str) (v : V) (d : Dict V) → lookup k (put k v d) ≡ some v
lookup-put_self k v d = rw (lookup-put k k v d, str_eq_refl k)

-- The same for a name that is not blank: no exception.
pub ensure_named_rule {ℓ κ} :
    {R : Type ℓ} (P : Result R → Type κ) (u : CaseMapping) (t : Time) (p : Str) (m : SessionManager)
    (f : Str × PeerTransportState × SessionManager → Result R)
    → is_empty (normalize_peer_id u p) ≡ false
    → ((peer : PeerTransportState)
        → lookup (normalize_peer_id u p) m.peer_transport ≡ some peer
        → P (f (normalize_peer_id u p, peer, m)))
    → (lookup (normalize_peer_id u p) m.peer_transport ≡ none
        → let peer = new_peer (normalize_peer_id u p) t in
          P (f (normalize_peer_id u p, peer, store (normalize_peer_id u p) peer m)))
    → P (ensure_peer_transport u t p m >>= f)
unfolding ensure_peer_transport
ensure_named_rule P u t p m f named old new =
    elim (Option-cases (lookup (normalize_peer_id u p) m.peer_transport)) [
      | inl missing ↦ rw (named, missing) (new missing)
      | inr (peer, found) ↦ rw (named, found) (old peer found)
    ]
