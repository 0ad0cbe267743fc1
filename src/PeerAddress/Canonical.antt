-- ===== src/PeerAddress/Canonical.antt =====
-- Normalising is canonical: what comes out is a bare host or the lowered text, and is left alone by
-- normalising again.
use i2pchat.Prelude.{
  ap, ◌<◌, ◌≡◌, refl, sym, ◌∙◌, true, false, none, some, [], ◌∷◌, map, arith, if◌then◌else◌, all,
  is_empty, get_or, All, Bool-cases, Option-cases, inl, inr,
}
use i2pchat.Text.{Str, str_eq, before_suffix?}
use i2pchat.Text.Strip.{strip, is_space, no_space, strip_id}
use i2pchat.Text.Case.{CaseMapping, ascii_lower}
use i2pchat.PeerAddress.{
  is_base32, is_host, suffix, host_of, normalize_peer_address, normalize_member_id,
  normalize_peer_id,
}

-- What the characters of a host give.
host_no_space : (h : Str) → all is_base32 h ≡ true → no_space h ≡ true
unfolding all is_base32 no_space is_space
host_no_space [] e = refl
host_no_space (c ∷ h) e = ground (arith, host_no_space h)

host_ascii : (h : Str) → all is_base32 h ≡ true → All (λ c. c < 128) h
unfolding all is_base32
host_ascii [] e = tt
host_ascii (c ∷ h) e = (ground arith, host_ascii h (ground arith))

host_lowered : (h : Str) → all is_base32 h ≡ true → map ascii_lower h ≡ h
unfolding all is_base32 ascii_lower
host_lowered [] e = refl
host_lowered (c ∷ h) e = ground (arith, host_lowered h)

host_no_suffix : (h : Str) → all is_base32 h ≡ true → before_suffix? suffix h ≡ none
unfolding all is_base32 before_suffix? str_eq
host_no_suffix [] e = refl
host_no_suffix (c ∷ h) e = ground (arith, host_no_suffix h)

host_chars : (h : Str) → is_host h ≡ true → all is_base32 h ≡ true
unfolding is_host
host_chars h e = ground arith

host_nonempty : (h : Str) → is_host h ≡ true → is_empty h ≡ false
unfolding is_host
host_nonempty [] e = ground arith
host_nonempty (c ∷ h) e = refl

is_empty-nil : (s : Str) → is_empty s ≡ true → s ≡ []
is_empty-nil [] e = refl
is_empty-nil (c ∷ s) e = cc

no_space_nil : no_space [] ≡ true
unfolding no_space
no_space_nil = refl

module _ (u : CaseMapping) where
  host_of-IsHost : (v h : Str) → host_of u v ≡ some h → is_host h ≡ true
  unfolding host_of
  host_of-IsHost v h e = ground arith

  host_of-host : (h : Str) → is_host h ≡ true → host_of u h ≡ some h
  unfolding host_of
  host_of-host h e = rw (host_nonempty h e, host_no_suffix h (host_chars h e), e)

  lower-host : (h : Str) → is_host h ≡ true → u.lower h ≡ h
  lower-host h e = u.lower_ascii h (host_ascii h (host_chars h e)) ∙ host_lowered h (host_chars h e)

  strip-host : (h : Str) → is_host h ≡ true → strip h ≡ h
  strip-host h e = strip_id h (host_no_space h (host_chars h e))

  normalize_peer_address-host : (h : Str) → is_host h ≡ true → normalize_peer_address u h ≡ some h
  unfolding normalize_peer_address
  normalize_peer_address-host h e = rw (strip-host h e, lower-host h e) (host_of-host h e)

  -- The lowered text, stripped or not, is a fixed point of both steps.
  settled : (s : Str) → let t = u.lower (strip s) in (strip t ≡ t) × (u.lower t ≡ t)
  settled s = (u.strip_lower_strip s, u.lower_idem (strip s))

  -- A peer address that is accepted is a bare base32 host of 40 to 80 characters, and is its own
  -- canonical form.
  pub normalize_peer_address_canonical :
      (raw host : Str)
      → normalize_peer_address u raw ≡ some host
      → (is_host host ≡ true) × (normalize_peer_address u host ≡ some host)
  unfolding normalize_peer_address
  normalize_peer_address_canonical raw host e =
      let h = host_of-IsHost (u.lower (strip raw)) host e in (h, normalize_peer_address-host host h)

  -- Both identifier normalisers, on a text that is already stripped and lowered.
  canon : Str → Str
  canon t = if is_empty t then [] else get_or t (normalize_peer_address u t)

  IsFixed : Str → Type 0
  IsFixed v = (strip v ≡ v) × (u.lower v ≡ v) × (canon v ≡ v)

  host-IsFixed : (h : Str) → is_host h ≡ true → IsFixed h
  unfolding IsFixed canon
  host-IsFixed h e = (
    strip-host h e,
    lower-host h e,
    rw (host_nonempty h e) (rw (normalize_peer_address-host h e)),
  )

  canon-IsFixed : (t : Str) → strip t ≡ t → u.lower t ≡ t → IsFixed (canon t)
  unfolding IsFixed canon
  canon-IsFixed [] s l = (s, l, refl)
  canon-IsFixed (c ∷ r) s l = elim (Option-cases (normalize_peer_address u (c ∷ r))) [
    | inl e ↦ rw e (s, l, rw e)
    | inr (h, e) ↦ rw e (host-IsFixed h (normalize_peer_address_canonical (c ∷ r) h e).0)
  ]

  member_id-canon : (v : Str) → normalize_member_id u v ≡ canon (u.lower (strip v))
  unfolding normalize_member_id canon
  member_id-canon v = refl

  no_address : normalize_peer_address u [] ≡ none
  unfolding normalize_peer_address host_of
  no_address = rw (strip_id [] no_space_nil, u.lower_ascii [] tt)

  or_canon : (t : Str) → get_or t (normalize_peer_address u t) ≡ canon t
  unfolding canon
  or_canon [] = rw no_address
  or_canon (c ∷ r) = refl

  -- The session manager's and the groups' normalisers are one function.
  pub normalize_peer_id-eq-member_id : (v : Str) → normalize_peer_id u v ≡ normalize_member_id u v
  unfolding normalize_peer_id normalize_member_id
  normalize_peer_id-eq-member_id v = elim (Bool-cases (is_empty (strip v))) [
    | inl e ↦
        let none_left : u.lower (strip v) ≡ [] =
          rw (is_empty-nil (strip v) e) (u.lower_ascii [] tt) in
        rw e (rw none_left)
    | inr e ↦ rw e (or_canon (u.lower (strip v)) ∙ sym (member_id-canon v))
  ]

  canon-normal : (v : Str) → IsFixed (normalize_member_id u v)
  canon-normal v =
      rw (member_id-canon v)
        (canon-IsFixed (u.lower (strip v)) (u.strip_lower_strip v) (u.lower_idem (strip v)))

  -- Normalising a member identifier again changes nothing.
  pub normalize_member_id_idem :
      (v : Str) → normalize_member_id u (normalize_member_id u v) ≡ normalize_member_id u v
  unfolding IsFixed
  normalize_member_id_idem v =
      let (s, l, c) = canon-normal v in member_id-canon (normalize_member_id u v) ∙ rw (s, l) c

  -- The same for the session manager's normaliser.
  pub normalize_peer_id_idem :
      (v : Str) → normalize_peer_id u (normalize_peer_id u v) ≡ normalize_peer_id u v
  normalize_peer_id_idem v = simp normalize_peer_id-eq-member_id (normalize_member_id_idem v)

  -- An address is read from the lowered text alone.
  pub address-lowered :
      (v : Str) → normalize_peer_address u (u.lower (strip v)) ≡ normalize_peer_address u v
  unfolding normalize_peer_address
  address-lowered v = rw (u.strip_lower_strip v, u.lower_idem (strip v))

  -- A member identifier is the address, or the lowered text where there is none.
  pub member_id-address :
      (v : Str) → normalize_member_id u v ≡ get_or (u.lower (strip v)) (normalize_peer_address u v)
  member_id-address v =
      member_id-canon v
      ∙ sym (or_canon (u.lower (strip v)))
      ∙ ap (get_or (u.lower (strip v))) (address-lowered v)
