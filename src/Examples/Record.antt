-- ===== src/Examples/Record.antt =====
-- A group file over `json`.
use i2pchat.Prelude.{◌≡◌, refl, some, [], pos}
use i2pchat.Text.{codes}
use i2pchat.Text.Case.{ascii}
use i2pchat.Groups.Store.Operations.{found, save_group_conversation, load_group_conversation}
use i2pchat.Groups.Store.Record.Written.{json_environment, load-save_fields}
use i2pchat.Examples.Wire.{clock_text}
use i2pchat.Examples.Module.{json_module}
use i2pchat.Examples.Store.{toy, salt, stored, stored_once}

load-save_fields_example :
    let env =
      json_environment ascii
        (λ j. [])
        clock_text
        json_module
        toy
        (codes "default")
        (some (codes "k")) in
    load_group_conversation env
      (pos 9)
      stored.state.group_id
      (save_group_conversation env (salt 32) stored [])
    ≡ found stored
load-save_fields_example =
    load-save_fields ascii (λ j. []) clock_text json_module toy (codes "default") (some (codes "k"))
      (pos 9) (salt 32) stored [] stored_once.existing_ok refl
