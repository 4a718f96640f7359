-- ===== src/Model/Connection/Tests.antt =====
-- The calls for one query, with the server there and not.
use distributed_oj.Base.{◌≡◌, refl, ◌↔◌, ◌⊎◌, true, false, [], ◌∷◌, some, text}
use distributed_oj.Model.Connection.{
  init, options, real_connect, set_character_set, error, close, query, store_result, num_rows,
  fetch_row, free_result, Driver, querying_one, querying_all, perform,
}
use distributed_oj.Model.Connection.Protocol.{IsProper, perform-IsProper}

abbrev reached : Driver
reached = record { inits = true; connects = true; succeeds = true; stored = some 2 }

abbrev unreached : Driver
unreached = record reached { connects = false }

perform_test : perform querying_one (text "SELECT") reached ≡ (
  init true
      ∷ options
      ∷ real_connect true
      ∷ set_character_set
      ∷ query (text "SELECT") true
      ∷ store_result true
      ∷ num_rows 2
      ∷ fetch_row
      ∷ free_result
      ∷ close
      ∷ [],
  true,
)
unfolding perform
perform_test = refl

no_connection_test :
    perform querying_all (text "SELECT") unreached
    ≡ (init true ∷ options ∷ real_connect false ∷ close ∷ error ∷ [], false)
unfolding perform
no_connection_test = refl

perform-IsProper_example :
    IsProper (perform querying_one (text "SELECT") reached).0
    ↔ ((reached.inits ≡ false) ⊎ (reached.connects ≡ true))
perform-IsProper_example = perform-IsProper querying_one (text "SELECT") reached
