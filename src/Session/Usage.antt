-- ===== src/Session/Usage.antt =====
-- src/session/projection.ts: the cost ledger that a log stands for, one line for each role.
pub mod Totals
use hera_v.Shared.{ℕ, ◌+◌, String, Bool, true, false, Option, none, some, List, [], ◌∷◌, or_else}
use hera_v.Shared.Dict.{lookup, insert}
use hera_v.Session.Records.{
  RoleName, generating, compacting, supervisor, memory, Usage, TurnUsageRecord,
}

abbrev pub role_text : RoleName → String
role_text generating = "generating"
role_text compacting = "compacting"
role_text supervisor = "supervisor"
role_text memory = "memory"

pub record RoleUsage : Type 0 where
  pub usage : Usage
  pub cost_usd : ℕ
  pub unknown_cost : Bool
  pub calls : ℕ

abbrev pub no_usage : RoleUsage
no_usage = record {
  usage = record { uncached_input = 0; cache_write = 0; cache_read = 0; output = 0 };
  cost_usd = 0;
  unknown_cost = false;
  calls = 0;
}

abbrev pub add_usage : Usage → Usage → Usage
add_usage u v = record {
  uncached_input = u.uncached_input + v.uncached_input;
  cache_write = u.cache_write + v.cache_write;
  cache_read = u.cache_read + v.cache_read;
  output = u.output + v.output;
}

-- A cost that is not a number makes the role's cost unknown.
abbrev pub add_cost : Option ℕ → RoleUsage → RoleUsage
add_cost (some cost) entry = record entry { cost_usd = entry.cost_usd + cost }
add_cost none entry = record entry { unknown_cost = true }

abbrev pub add_turn : TurnUsageRecord → RoleUsage → RoleUsage
add_turn t entry =
    add_cost t.cost_usd
      (record entry { calls = entry.calls + 1; usage = add_usage entry.usage t.usage })

abbrev pub entry_of : String → List (String × RoleUsage) → RoleUsage
entry_of role out = or_else (lookup role out) no_usage

unfoldable pub usage_from :
    List TurnUsageRecord → List (String × RoleUsage) → List (String × RoleUsage)
unfolding lookup insert
usage_from [] out = out
usage_from (t ∷ turns) out =
    let role = role_text t.role in
    usage_from turns (insert role (add_turn t (entry_of role out)) out)

-- `usageByRole`
pub usage_by_role : List TurnUsageRecord → List (String × RoleUsage)
unfolding usage_from
usage_by_role turns = usage_from turns []
