-- ===== src/Session/Usage/Totals.antt =====
-- src/session/projection.ts: what the ledger of a log adds up to.
use hera_v.Shared.{
  ◌+◌, ◌≡◌, refl, ◌∙◌, String, List, [], ◌∷◌, arith, if◌then◌else◌, eq_iff, keep_if, length,
}
use hera_v.Shared.Dict.{insert, str_eq, lookup-insert}
use hera_v.Session.Records.{TurnUsageRecord}
use hera_v.Session.Usage.{
  role_text, RoleUsage, no_usage, add_turn, entry_of, usage_from, usage_by_role,
}

-- The turns of one role, in the order of the log.
abbrev pub turns_of : String → List TurnUsageRecord → List TurnUsageRecord
turns_of role = keep_if (λ t. str_eq (role_text t.role) role)

abbrev pub add_turns : List TurnUsageRecord → RoleUsage → RoleUsage
add_turns [] entry = entry
add_turns (t ∷ turns) entry = add_turns turns (add_turn t entry)

add_turns-calls :
    (turns : List TurnUsageRecord) (entry : RoleUsage)
    → (add_turns turns entry).calls ≡ entry.calls + length turns
add_turns-calls [] entry = omega arith
add_turns-calls (t ∷ turns) entry = ground (arith, add_turns-calls turns (add_turn t entry))

entry_of-insert :
    (k role : String) (v : RoleUsage) (out : List (String × RoleUsage))
    → entry_of role (insert k v out) ≡ (if str_eq k role then v else entry_of role out)
entry_of-insert k role v out = ground (arith, lookup-insert k role v out)

add_turns-step :
    (role : String) (t : TurnUsageRecord) (turns : List TurnUsageRecord)
    (out : List (String × RoleUsage))
    → add_turns (turns_of role turns) (
        entry_of role
          (insert (role_text t.role) (add_turn t (entry_of (role_text t.role) out)) out))
      ≡ add_turns (turns_of role (t ∷ turns)) (entry_of role out)
add_turns-step role t turns out = ground (
  arith,
  entry_of-insert (role_text t.role) role (add_turn t (entry_of (role_text t.role) out)) out,
  eq_iff (role_text t.role) role,
)

entry_of-usage_from :
    (role : String) (turns : List TurnUsageRecord) (out : List (String × RoleUsage))
    → entry_of role (usage_from turns out) ≡ add_turns (turns_of role turns) (entry_of role out)
unfolding usage_from
entry_of-usage_from role [] out = refl
entry_of-usage_from role (t ∷ turns) out =
    entry_of-usage_from role turns _ ∙ add_turns-step role t turns out

-- The ledger's entry of a role is the sum of the turns of that role, in the order of the log, and
-- it counts as many calls as there are such turns: no turn is lost or charged to another role.
usage_by_role-entry_of :
    (role : String) (turns : List TurnUsageRecord)
    → (entry_of role (usage_by_role turns) ≡ add_turns (turns_of role turns) no_usage)
      × ((entry_of role (usage_by_role turns)).calls ≡ length (turns_of role turns))
unfolding usage_by_role
usage_by_role-entry_of role turns =
    ground
      (arith, entry_of-usage_from role turns [], add_turns-calls (turns_of role turns) no_usage)
