-- ===== src/Groups/Store/Log.antt =====
-- The abstract view of a group's history: a log of entries in which no message id stands twice; and runs of
-- `append_group_history_entry` of i2pchat/storage/group_store.py on a directory.
use i2pchat.Prelude.{
  Bool, true, false, ◌||◌, ◌&&◌, not, Option, some, List, [], ◌∷◌, ◌++◌, is_empty, if◌then◌else◌, ℤ,
}
use i2pchat.Text.{Str, str_eq}
use i2pchat.BlindBox.{◌>>=◌}
use i2pchat.Groups.Models.{GroupState}
use i2pchat.Groups.Store.Models.{GroupHistoryEntry, make_entry}
use i2pchat.Groups.Store.Conversation.{entry_id}
use i2pchat.Groups.Store.Files.{Bytes, Disk}
use i2pchat.Groups.Store.Operations.{Environment, append_group_history_entry}

abbrev pub Log : Type 0
Log = List GroupHistoryEntry

-- Some entry has the id.
unfoldable pub log_has : Str → Log → Bool
log_has s [] = false
log_has s (e ∷ log) = str_eq (entry_id e) s || log_has s log

-- An entry with an id that the log has is dropped; any other goes to the end.
unfoldable pub log_append : GroupHistoryEntry → Log → Bool × Log
log_append e log =
    if not (is_empty (entry_id e)) && log_has (entry_id e) log
    then (false, log)
    else (true, log ++ e ∷ [])

unfoldable pub log_run : List GroupHistoryEntry → Log → List Bool × Log
log_run [] log = ([], log)
log_run (e ∷ es) log =
    let (new, log') = log_append e log in let (news, log'') = log_run es log' in (new ∷ news, log'')

-- The arguments of one call, the time, and what `secrets.token_bytes` returns in it
pub record AppendCall : Type 0 where
  pub now : ℤ
  pub fresh : Bytes
  pub state : GroupState
  pub entry : GroupHistoryEntry
  pub next_group_seq : Option ℤ

module _ (env : Environment) where
  -- The entry as its constructor makes it
  abbrev pub entry_of : AppendCall → GroupHistoryEntry
  entry_of call = make_entry env.case env.repr call.entry

  abbrev pub append_call : AppendCall → Disk → Option (Bool × Disk)
  append_call call disk = do
    r ←
        append_group_history_entry env call.now call.fresh call.state (entry_of call)
          call.next_group_seq disk
    some (r.1, r.2)

  unfoldable pub append_all : List AppendCall → Disk → Option (List Bool × Disk)
  append_all [] disk = some ([], disk)
  append_all (call ∷ calls) disk = do
    r ← append_call call disk
    rest ← append_all calls r.1
    some (r.0 ∷ rest.0, rest.1)
