-- ===== src/PeerAddress/Same.antt =====
-- `same_i2p_destination` compares canonical identifiers.
use i2pchat.Prelude.{◌≡◌, refl, sym, ◌∙◌, ap, ◌↔◌, true, Option, none, some, get_or}
use i2pchat.Text.{Str, str_eq_iff}
use i2pchat.Text.Strip.{strip}
use i2pchat.Text.Case.{CaseMapping}
use i2pchat.PeerAddress.{normalize_peer_address, normalize_member_id, same_or, same_i2p_destination}
use i2pchat.PeerAddress.Canonical.{
  normalize_peer_address_canonical, address-lowered, member_id-address,
}

module _ (u : CaseMapping) where
  abbrev lowered : Str → Str
  lowered v = u.lower (strip v)

  -- A host is not the lowered form of a text that has no address.
  host_apart :
      (h l r : Str)
      → normalize_peer_address u l ≡ some h
      → normalize_peer_address u r ≡ none
      → h ≡ lowered r
      → some h ≡ none
  host_apart h l r el er e =
      sym (normalize_peer_address_canonical u l h el).1
      ∙ ap (normalize_peer_address u) e
      ∙ address-lowered u r
      ∙ er

  -- Texts with the same lowered form have the same address.
  address_of :
      (l r : Str) → lowered l ≡ lowered r → normalize_peer_address u l ≡ normalize_peer_address u r
  address_of l r e =
      sym (address-lowered u l) ∙ ap (normalize_peer_address u) e ∙ address-lowered u r

  same_cases :
      (l r : Str) (ol or : Option Str)
      → normalize_peer_address u l ≡ ol
      → normalize_peer_address u r ≡ or
      → (same_or u l r ol or ≡ true) ↔ (get_or (lowered l) ol ≡ get_or (lowered r) or)
  unfolding same_or
  same_cases l r (some hl) (some hr) el er = str_eq_iff hl hr
  same_cases l r none none el er = str_eq_iff (lowered l) (lowered r)
  same_cases l r (some hl) none el er = (
    λ e. absurd (cc (sym el ∙ address_of l r ((str_eq_iff (lowered l) (lowered r)).0 e) ∙ er)),
    λ e. absurd (cc (host_apart hl l r el er e)),
  )
  same_cases l r none (some hr) el er = (
    λ e. absurd (cc (sym el ∙ address_of l r ((str_eq_iff (lowered l) (lowered r)).0 e) ∙ er)),
    λ e. absurd (cc (host_apart hr r l er el (sym e))),
  )

  -- Two texts name the same destination exactly when the groups give them the same member identifier.
  pub same_i2p_destination_iff :
      (l r : Str)
      → (same_i2p_destination u l r ≡ true) ↔ (normalize_member_id u l ≡ normalize_member_id u r)
  unfolding same_i2p_destination
  same_i2p_destination_iff l r =
      rw (member_id-address u l, member_id-address u r)
        (same_cases l r (normalize_peer_address u l) (normalize_peer_address u r) refl refl)
