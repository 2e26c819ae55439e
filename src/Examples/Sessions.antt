-- ===== src/Examples/Sessions.antt =====
-- A session that greets, sends a wrong token and tries a command.
use rstmdb.Base.{◌≡◌, ℕ, String, refl, true, some, none, List, [], ◌∷◌, ◌+◌}
use rstmdb.Base.Result.{ok}
use rstmdb.Server.Session.{new}
use rstmdb.Core.Error
use rstmdb.Core.Error.{invalid_definition, initial_not_listed}
use rstmdb.Server.Error.{core, may_retry, code_of, code_of_text}
use rstmdb.Server.Handler.{Outside, CommandHandler, Operation, handle_all, token_accepted}
use rstmdb.Server.Auth
use rstmdb.Server.Handler.Gate.{Closed, opens, handle_all-Closed}

-- Parameters are texts, tokens are their own hashes, and a command counts itself.
abbrev outside : Outside String ℕ ℕ
outside = record {
  hello_params = λ p.
      some (record { protocol_version = 1; client_name = none; wire_modes = []; features = [] });
  auth_params = λ p. some (record { method = "bearer"; token = p });
  hash_token = λ t. t;
  done = 0;
  command = λ op p s b. (ok 1, s, b + 1);
}

abbrev pub handler : CommandHandler
handler = record {
  token_validator = some (record { valid_hashes = "secret" ∷ [] });
  auth_required = true;
  supported_features = [];
}

abbrev requests : List (Operation × String)
requests = (Operation.hello, "") ∷ (Operation.auth, "guess") ∷ (Operation.put_machine, "") ∷ []

handle_all-Closed_example :
    Closed outside requests 5 (handle_all outside handler requests (new "s" true) 5)
unfolding opens token_accepted Auth.validate Auth.contains_hash new
handle_all-Closed_example =
    handle_all-Closed outside handler requests (new "s" true) 5 refl refl (refl, (refl, (refl, tt)))

-- A machine whose initial state is not among its states: the client may try again.
bad_machine : may_retry (core (invalid_definition (initial_not_listed "created"))) ≡ true
unfolding may_retry code_of code_of_text Error.error_code
bad_machine = refl
