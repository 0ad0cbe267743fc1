-- ===== src/Groups/Store/Refinement.antt =====
-- One append of i2pchat/storage/group_store.py, on the record of a group and on its log.
use i2pchat.Prelude.{
  ℕ, ◌+◌, ◌≤◌, ◌≡◌, refl, ap, ◌∙◌, sym, subst, true, false, ◌||◌, Option, some, List, [], ◌∷◌, ◌++◌,
  arith, length, All, All-append, map, ℤ, is_empty, get_or, Bool-cases, inl, inr, length-append,
}
use i2pchat.Text.{Str, str_eq, str_eq_refl, str_in}
use i2pchat.Text.Strip.{strip}
use i2pchat.Text.Case.{CaseMapping}
use i2pchat.Json.{Json}
use i2pchat.Groups.Models.{GroupState, or_none}
use i2pchat.Groups.Store.Models.{GroupHistoryEntry, make_entry, strip_or_none}
use i2pchat.Groups.Store.Conversation.{StoredGroupConversation, entry_id, deserialize_state}
use i2pchat.Groups.Store.SeenIds.{AreIds, AreIds-snoc, IsKnown, str_in-append, cut_seen_id}
use i2pchat.Groups.Store.Built.{IsExisting, All-IsKnown-append, updated-IsStored, updated-fields}
use i2pchat.Groups.Store.Operations.{updated, history_of, seen_of, appended, resolve_next_group_seq}
use i2pchat.Groups.Store.Log.{Log, log_has, log_append}

pub log_has-append :
    (s : Str) (log : Log) (e : GroupHistoryEntry)
    → log_has s (log ++ e ∷ []) ≡ log_has s log || str_eq (entry_id e) s
unfolding log_has
log_has-append s [] e = ground arith
log_has-append s (x ∷ log) e = ground (arith, log_has-append s log e)

blank-other : (s t : Str) → is_empty s ≡ true → is_empty t ≡ false → str_eq s t ≡ false
unfolding str_eq
blank-other [] [] h k = absurd (cc k)
blank-other [] (c ∷ t) h k = refl
blank-other (c ∷ s) t h k = absurd (cc h)

pub get_or-or_none : (s : Str) → get_or [] (or_none s) ≡ s
get_or-or_none [] = refl
get_or-or_none (c ∷ s) = refl

module _ (u : CaseMapping) (repr : Json → Str) where
  abbrev IsEntry : GroupHistoryEntry → Type 0
  IsEntry e = make_entry u repr e ≡ e

  entry_id-strip : (e : GroupHistoryEntry) → IsEntry e → strip (entry_id e) ≡ entry_id e
  unfolding make_entry strip_or_none entry_id
  entry_id-strip e h =
      sym (get_or-or_none (strip (get_or [] e.msg_id)))
      ∙ ap (λ (x : GroupHistoryEntry). get_or [] x.msg_id) h

  -- The record of a group stands for a log, and remembers at most `n` ids.
  pub record Represents (existing : Option StoredGroupConversation) (log : Log) (n : ℕ)
      : Type 0 where
    pub existing_ok : IsExisting u repr existing
    pub history_eq : history_of existing ≡ log
    pub ids_ok : AreIds (seen_of existing)
    pub ids_few : length (seen_of existing) ≤ n
    pub known : All (IsKnown (seen_of existing)) (map entry_id log)
    pub entries_ok : All IsEntry log
    pub agrees : (s : Str) → is_empty s ≡ false → str_in s (seen_of existing) ≡ log_has s log

  represented :
      (existing : Option StoredGroupConversation) (state : GroupState) (next : ℕ) (log : Log)
      (ids : List Str) (n : ℕ)
      → IsExisting u repr existing
      → deserialize_state u state ≡ state
      → All IsEntry log
      → AreIds ids
      → length ids ≤ n
      → n ≤ 4096
      → All (IsKnown ids) (map entry_id log)
      → ((s : Str) → is_empty s ≡ false → str_in s ids ≡ log_has s log)
      → Represents (some (updated existing state next log ids)) log n
  unfolding history_of updated seen_of
  represented existing state next log ids n x s h a few small k agree =
      let f = updated-fields u repr existing state next log ids a (omega arith) k in
      record {
        existing_ok = updated-IsStored u repr existing state next log ids x s h a (omega arith) k;
        history_eq = f.1;
        ids_ok = rw f.2 a;
        ids_few = rw f.2 few;
        known = rw f.2 k;
        entries_ok = h;
        agrees = rw f.2 agree;
      }

  IsKnown-snoc :
      (ids : List Str) (log : Log) (e : GroupHistoryEntry)
      → All (IsKnown ids) (map entry_id log)
      → IsKnown ids (entry_id e)
      → All (IsKnown ids) (map entry_id (log ++ e ∷ []))
  IsKnown-snoc ids [] e h k = (k, tt)
  IsKnown-snoc ids (x ∷ log) e h k = (h.0, IsKnown-snoc ids log e h.1 k)

  blank-IsKnown :
      (e : GroupHistoryEntry) (ids : List Str)
      → IsEntry e
      → is_empty (entry_id e) ≡ true
      → IsKnown ids (entry_id e)
  blank-IsKnown e ids h blank = rw (entry_id-strip e h, blank) refl

  new-IsKnown :
      (e : GroupHistoryEntry) (ids : List Str)
      → IsEntry e
      → IsKnown (ids ++ entry_id e ∷ []) (entry_id e)
  unfolding str_in
  new-IsKnown e ids h =
      let id = entry_id e in
      rw (entry_id-strip e h) (ground (arith, str_eq_refl id, str_in-append id ids (id ∷ [])))

  ids_snoc :
      (e : GroupHistoryEntry) (ids : List Str)
      → IsEntry e
      → is_empty (entry_id e) ≡ false
      → str_in (entry_id e) ids ≡ false
      → AreIds ids
      → AreIds (ids ++ entry_id e ∷ [])
  ids_snoc e ids h named new ok =
      let same = entry_id-strip e h in
      subst (λ x. AreIds (ids ++ x ∷ [])) same
        (AreIds-snoc ids (entry_id e) ok (rw same named) (rw same new))

  abbrev Agrees : List Str → Log → Type 0
  Agrees ids log = (s : Str) → is_empty s ≡ false → str_in s ids ≡ log_has s log

  Agrees-blank :
      (log : Log) (ids : List Str) (e : GroupHistoryEntry)
      → is_empty (entry_id e) ≡ true
      → Agrees ids log
      → Agrees ids (log ++ e ∷ [])
  Agrees-blank log ids e blank agree s named =
      ground (arith, agree s named, log_has-append s log e, blank-other (entry_id e) s blank named)

  Agrees-new :
      (log : Log) (ids : List Str) (e : GroupHistoryEntry)
      → Agrees ids log
      → Agrees (ids ++ entry_id e ∷ []) (log ++ e ∷ [])
  unfolding str_in
  Agrees-new log ids e agree s named =
      ground (arith, agree s named, log_has-append s log e, str_in-append s ids (entry_id e ∷ []))

  -- One append, on the record and on the log
  pub appended-Represents :
      (existing : Option StoredGroupConversation) (state : GroupState) (e : GroupHistoryEntry)
      (next_group_seq : Option ℤ) (log : Log) (n : ℕ)
      → Represents existing log n
      → deserialize_state u state ≡ state
      → IsEntry e
      → n + 1 ≤ 4096
      → let c = appended existing state e next_group_seq in
        let r = log_append e log in (c.1 ≡ r.0) × Represents (some c.0) r.1 (n + 1)
  unfolding appended log_append
  appended-Represents existing state e z log n rep s h few =
      let next = resolve_next_group_seq existing z in
      let ids = seen_of existing in
      let id = entry_id e in
      let grown = All-append IsEntry log (e ∷ []) rep.entries_ok (h, tt) in
      rw (entry_id-strip e h, rep.history_eq)
        (elim (Bool-cases (is_empty id)) [
          | inl blank ↦ rw blank (
            refl,
            represented existing state next (log ++ e ∷ []) ids (n + 1) rep.existing_ok s grown
                rep.ids_ok (omega (arith, rep.ids_few)) few
                (IsKnown-snoc ids log e rep.known (blank-IsKnown e ids h blank))
                (Agrees-blank log ids e blank rep.agrees),
          )
          | inr named ↦ elim (Bool-cases (log_has id log)) [
            | inl old ↦
                rw (named, old, rep.agrees id named ∙ old)
                  (
                    refl,
                    represented existing state next log ids (n + 1) rep.existing_ok s rep.entries_ok
                        rep.ids_ok (omega (arith, rep.ids_few)) few rep.known rep.agrees,
                  )
            | inr new ↦
                let ids' = ids ++ id ∷ [] in
                let fits : length ids' ≤ n + 1 =
                  omega (arith, length-append ids (id ∷ []), rep.ids_few) in
                rw (named, new, rep.agrees id named ∙ new, cut_seen_id ids' (omega arith))
                  (
                    refl,
                    represented existing state next (log ++ e ∷ []) ids' (n + 1) rep.existing_ok s
                        grown (ids_snoc e ids h named (rep.agrees id named ∙ new) rep.ids_ok) fits
                        few
                        (IsKnown-snoc ids' log e
                          (All-IsKnown-append ids id (map entry_id log) rep.known)
                          (new-IsKnown e ids h))
                        (Agrees-new log ids e rep.agrees),
                  )
          ]
        ])
