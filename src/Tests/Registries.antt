-- ===== src/Tests/Registries.antt =====
-- The registry: a connection is opened, and edited.
use mcp_server_for_sql_agent.Prelude.Strs.{str_eq}
use mcp_server_for_sql_agent.Errors.{ok}
use mcp_server_for_sql_agent.Registry.{Registry, adapter_for, find_entry}
use mcp_server_for_sql_agent.Registry.Keeps.{IsSound, adapter_for-IsSound}
use mcp_server_for_sql_agent.Models.{ConnectionRecord}
use mcp_server_for_sql_agent.Tests.Setup.{shop}
use mcp_server_for_sql_agent.Prelude.{arith, ◌∷◌, [], some, none, true, inl, refl, ◌≡◌}

abbrev fresh : Registry
fresh = record { adapters = []; next = 0; closed = [] }

-- `shop` in adapter 0, before it was edited
abbrev opened : Registry
opened = record {
  adapters = record { id = 7; version = 1; adapter = 0 } ∷ [];
  next = 1;
  closed = [];
}

abbrev edited : ConnectionRecord
edited = record shop { updated_at = 2 }

opens : adapter_for (λ s. some s) (λ url schemas n. true) (λ n. none) shop fresh ≡ (ok 0, opened)
unfolding adapter_for str_eq
opens = refl

opened-IsSound : IsSound opened
unfolding find_entry
opened-IsSound = record { once = (refl, tt); accounted = λ h below. inl (inl (omega arith)) }

adapter_for-IsSound_example :
    IsSound (adapter_for (λ s. some s) (λ url schemas n. true) (λ n. none) edited opened).1
adapter_for-IsSound_example =
    adapter_for-IsSound (λ s. some s) (λ url schemas n. true) (λ n. none) edited opened
      opened-IsSound
