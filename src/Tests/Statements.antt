-- ===== src/Tests/Statements.antt =====
-- The properties of a statement on its way to the backend, each at one input.
use dogdb.Prelude.{◌≡◌, refl, none}
use dogdb.Models.{float, bark, stash, bark_error}
use dogdb.Policy
use dogdb.Session.{Config, Session, error}
use dogdb.Faults.{has_effective_weight, select_candidate}
use dogdb.Engine.{scope_applies}
use dogdb.Engine.Execute.{Statement, execute_decided}
use dogdb.Engine.Blocked.{IsBlocked, execute_decided-IsBlocked}
use dogdb.Tests.{platform, config_of, policy_of, query, world, session}

abbrev statement : Statement
statement = record { classification = query; template = "sha256:1"; parameter = ""; occurrence = 1 }

execute_decided-IsBlocked_example :
    IsBlocked bark_error (execute_decided platform (config_of bark) world statement session).0
    × ((execute_decided platform (config_of bark) world statement session).1.backend_calls ≡ 0)
unfolding select_candidate has_effective_weight scope_applies Policy.before_execute_error
execute_decided-IsBlocked_example =
    execute_decided-IsBlocked platform (config_of bark) statement session bark bark_error world refl
      refl refl refl

-- No weights, and no stale cache.
abbrev calm : Config
calm = record (config_of stash) {
  policy = record (policy_of stash) { probabilities = λ f. float 0 };
}

abbrev plain : Session
plain = record session { stale_cache = none; logical_tick = none }

-- A passthrough that is enforced raises.
abbrev strict : Config
strict = record calm { on_passthrough = error }
