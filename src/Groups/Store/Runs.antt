-- ===== src/Groups/Store/Runs.antt =====
-- Runs of `append_group_history_entry` of i2pchat/storage/group_store.py on a directory, against the log.
use i2pchat.Prelude.{
  ℕ, suc, ◌+◌, ◌≤◌, ◌≡◌, refl, ap, ◌∙◌, sym, subst, Bool, Option, none, some, List, [], ◌∷◌, arith,
  length, All, map, ℤ, is_empty, if_rule,
}
use i2pchat.Text.{Str, str_in}
use i2pchat.Text.Strip.{strip}
use i2pchat.Groups.Models.{GroupState}
use i2pchat.Groups.Store.Models.{GroupHistoryEntry}
use i2pchat.Groups.Store.Normal.{make_entry_idem}
use i2pchat.Groups.Store.Conversation.{
  StoredGroupConversation, entry_id, deserialize_state, make_conversation,
}
use i2pchat.Groups.Store.Stored.{IsStored, load-save}
use i2pchat.Groups.Store.Files.{Bytes, Disk}
use i2pchat.Groups.Store.Operations.{
  Environment, found, updated, appended, existing_of, load_group_conversation,
  append_group_history_entry, save_group_conversation,
}
use i2pchat.Groups.Store.Refinement.{Represents, appended-Represents}
use i2pchat.Groups.Store.Log.{
  Log, log_append, log_run, AppendCall, entry_of, append_call, append_all,
}

updated-state :
    (existing : Option StoredGroupConversation) (state : GroupState) (next : ℕ)
    (history : List GroupHistoryEntry) (ids : List Str)
    → (updated existing state next history ids).state ≡ state
unfolding updated make_conversation
updated-state none state next history ids = refl
updated-state (some c) state next history ids = refl

pub appended-state :
    (existing : Option StoredGroupConversation) (state : GroupState) (e : GroupHistoryEntry)
    (z : Option ℤ)
    → (appended existing state e z).0.state ≡ state
unfolding appended
appended-state existing state e z =
    if_rule (λ (r : StoredGroupConversation × Bool). r.0.state ≡ state)
      (is_empty (strip (entry_id e))) _ _ (λ _. updated-state existing state _ _ _)
      (λ _.
        if_rule (λ (r : StoredGroupConversation × Bool). r.0.state ≡ state)
          (str_in (strip (entry_id e)) _) _ _ (λ _. updated-state existing state _ _ _)
          (λ _. updated-state existing state _ _ _))

module _ (env : Environment) where
  -- The directory has a log for the group, or no record and the empty one; `n` bounds the ids in it.
  pub record Holds (group_id : Str) (disk : Disk) (log : Log) (n : ℕ) : Type 0 where
    pub existing : Option StoredGroupConversation
    pub loads :
        (now : ℤ) → existing_of (load_group_conversation env now group_id disk) ≡ some existing
    pub stands : Represents env.case env.repr existing log n

  -- A call for the group: its state is one that a constructor made, and the salt has its size.
  pub record IsCall (group_id : Str) (call : AppendCall) : Type 0 where
    pub same_group : call.state.group_id ≡ group_id
    pub state_ok : deserialize_state env.case call.state ≡ call.state
    pub salt_size : length call.fresh ≡ 32

  pub append-result :
      (now : ℤ) (fresh : Bytes) (state : GroupState) (e : GroupHistoryEntry) (z : Option ℤ)
      (existing : Option StoredGroupConversation) (disk : Disk)
      → existing_of (load_group_conversation env now state.group_id disk) ≡ some existing
      → let c = appended existing state e z in
        append_group_history_entry env now fresh state e z disk
        ≡ some (c.0, c.1, save_group_conversation env fresh c.0 disk)
  unfolding append_group_history_entry
  append-result now fresh state e z existing disk known =
      rw (known, append_group_history_entry) refl

  append-saves :
      (call : AppendCall) (existing : Option StoredGroupConversation) (disk : Disk)
      → existing_of (load_group_conversation env call.now call.state.group_id disk) ≡ some existing
      → let c = appended existing call.state (entry_of env call) call.next_group_seq in
        append_call env call disk ≡ some (c.1, save_group_conversation env call.fresh c.0 disk)
  append-saves call existing disk e =
      rw
        (append-result call.now call.fresh call.state (entry_of env call) call.next_group_seq
          existing disk e)
        refl

  pub saved-loads :
      (group_id : Str) (fresh : Bytes) (c : StoredGroupConversation) (disk : Disk)
      → IsStored env.case env.repr c
      → length fresh ≡ 32
      → c.state.group_id ≡ group_id
      → (now : ℤ)
      → existing_of
          (load_group_conversation env now group_id (save_group_conversation env fresh c disk))
        ≡ some (some c)
  unfolding existing_of
  saved-loads group_id fresh c disk ok size same now = ap existing_of (
      subst
        (λ g.
          load_group_conversation env now g (save_group_conversation env fresh c disk) ≡ found c)
        same (load-save env now fresh c disk ok size))

  append-Holds :
      (group_id : Str) (call : AppendCall) (disk : Disk) (log : Log) (n : ℕ)
      → IsCall group_id call
      → Holds group_id disk log n
      → n + 1 ≤ 4096
      → let r = log_append (entry_of env call) log in
        (disk' : Disk) × (append_call env call disk ≡ some (r.0, disk'))
        × Holds group_id disk' r.1 (n + 1)
  append-Holds group_id call disk log n ok h few =
      let e = entry_of env call in
      let c = appended h.existing call.state e call.next_group_seq in
      let (same, stands) =
        appended-Represents env.case env.repr h.existing call.state e call.next_group_seq log n
          h.stands ok.state_ok (make_entry_idem env.case env.repr call.entry) few in
      let loaded =
        subst (λ g. existing_of (load_group_conversation env call.now g disk) ≡ some h.existing)
          (sym ok.same_group) (h.loads call.now) in
      let group =
        ap (λ (s : GroupState). s.group_id)
          (appended-state h.existing call.state e call.next_group_seq)
        ∙ ok.same_group in
      (
        save_group_conversation env call.fresh c.0 disk,
        append-saves call h.existing disk loaded
            ∙ ap (λ b. some (b, save_group_conversation env call.fresh c.0 disk)) same,
        record {
          existing = some c.0;
          loads = saved-loads group_id call.fresh c.0 disk stands.existing_ok ok.salt_size group;
          stands = stands;
        },
      )

  -- Appends to one group, from a directory that stands for a log: while no more than 4096 ids are remembered,
  -- every call succeeds, its answer is that of the log, and the directory stands for the log after them;
  -- so an entry whose id came before, in this run or an earlier one, is not stored again.
  pub append_all-refines :
      (group_id : Str) (calls : List AppendCall) (disk : Disk) (log : Log) (n : ℕ)
      → All (IsCall group_id) calls
      → Holds group_id disk log n
      → n + length calls ≤ 4096
      → let r = log_run (map (entry_of env) calls) log in
        (disk' : Disk) × (append_all env calls disk ≡ some (r.0, disk'))
        × Holds group_id disk' r.1 (n + length calls)
  unfolding append_all log_run
  append_all-refines group_id [] disk log n ok h few =
      (disk, refl, subst (Holds group_id disk log) same h)
    where
      same : n ≡ n + 0
      same = omega arith
  append_all-refines group_id (call ∷ calls) disk log n ok h few =
      let e = entry_of env call in
      let (disk1, step, h1) = append-Holds group_id call disk log n ok.0 h (omega arith) in
      let (disk2, rest, h2) =
        append_all-refines group_id calls disk1 (log_append e log).1 (n + 1) ok.1 h1
          (omega arith) in
      let count : n + 1 + length calls ≡ n + suc (length calls) = omega arith in
      (
        disk2,
        rw (step, rest) refl,
        subst (Holds group_id disk2 (log_run (map (entry_of env) calls) (log_append e log).1).1)
            count h2,
      )
