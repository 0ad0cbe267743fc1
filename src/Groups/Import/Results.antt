-- ===== src/Groups/Import/Results.antt =====
-- The results of `import_group_transport` of i2pchat/core/i2p_chat_core.py, taken apart.
use i2pchat.Prelude.{◌≡◌, ap, Option, none, some}
use i2pchat.BlindBox.{◌>>=◌}
use i2pchat.Groups.Import.Transport.{GroupImportResult, ImportState}

abbrev pub done_with :
    GroupImportResult → ImportState → Option (Option GroupImportResult × ImportState)
done_with r s = some (some r, s)

abbrev pub undone :
    Option (Option GroupImportResult × ImportState) → Option (GroupImportResult × ImportState)
undone (some (some r, s)) = some (r, s)
undone _ = none

pub done_with-inverse :
    (o : Option (GroupImportResult × ImportState)) (r : GroupImportResult) (s : ImportState)
    → (o >>= (λ q. done_with q.0 q.1)) ≡ done_with r s
    → o ≡ some (r, s)
done_with-inverse none r s e = absurd (cc e)
done_with-inverse (some q) r s e = ap undone e
