-- ===== src/Harness/Approval.antt =====
-- The gate of src/harness/gate.ts with the local guards of src/harness/plugs/localguards.ts behind it:
-- a command line that waits for the user's approval.
mod Examples
use hera_v.Shared.{String, ◌≡◌, refl, Bool, true, false, Option, some, List, [], ◌∷◌, ap, ◌∙◌, sym}
use mathlib.Core.Path.{subst}
use hera_v.Shared.Text.{Text, codes}
use hera_v.Harness.Descriptor.{verify_integrity}
use hera_v.Harness.Gate.{
  GateAnswer, allow, block, Call, Phase, waiting, dispatching, blocked_with, id_of, Decision, World,
  run,
}
use hera_v.Harness.Gate.Invariant.{Fits}
use hera_v.Harness.Gate.Progress.{decision_events, decision_dispatches, decision_blocks}
use hera_v.Harness.Plugs.Paths.{Host}
use hera_v.Harness.Plugs.LocalGuards.{LocalGuardsConfig, Request, request, resolve, decided}
use hera_v.Harness.Plugs.LocalGuards.Decisions.{request-resolve}
use hera_v.Harness.Plugs.LocalGuards.Factory.{local_guards_plug, request_of}

-- How a call ends up once the user has decided.
abbrev pub outcome_of : Decision → Call → Phase
outcome_of Decision.allow c = dispatching c
outcome_of Decision.deny c = blocked_with (codes "denied by user") false

module _ (host : Host) (config : LocalGuardsConfig) (parameters_of : Text → List (String × Text))
    (ctx : String) where
  decision_answered :
      (c : Call) (e : String) (d : Decision) (stored : List (String × Decision))
      → id_of c ≡ e
      → (request host config
          (request_of parameters_of c.descriptor)
          (resolve host config e (some d) stored)).0
        ≡ decided host config d
  decision_answered c e d stored name =
      subst
        (λ k.
          (request host config (request_of parameters_of c.descriptor)
            (resolve host config k (some d) stored)).0
          ≡ decided host config d)
        name
        (ap (λ r. r.0)
          (request-resolve host config (request_of parameters_of c.descriptor) d stored))

-- A call that waits in a gate that is not halted follows the user's decision, whatever the rules
-- say of it: allowed, it is dispatched if its descriptor passes the integrity check; denied, it
-- ends as blocked, the reason says so, and the prompt goes on.
pub decision_followed :
    (host : Host) (config : LocalGuardsConfig) (parameters_of : Text → List (String × Text))
    (ctx : String) (w : World (local_guards_plug host config parameters_of ctx)) (e : String)
    (c : Call) (d : Decision)
    → Fits e w.gate (w.phase e)
    → w.phase e ≡ waiting c
    → w.gate.halted ≡ false
    → verify_integrity c.descriptor ≡ true
    → (run
          (local_guards_plug host config parameters_of ctx)
          (decision_events e d c.descriptor.content)
          w).phase
        e
      ≡ outcome_of d c
decision_followed host config parameters_of ctx w e c Decision.allow f waits off good =
    let P = local_guards_plug host config parameters_of ctx in
    let name = (subst (Fits e w.gate) waits f).named in
    decision_dispatches P w e c Decision.allow f waits off
      (decision_answered host config parameters_of ctx c e Decision.allow w.plug name) good
decision_followed host config parameters_of ctx w e c Decision.deny f waits off good =
    let P = local_guards_plug host config parameters_of ctx in
    let name = (subst (Fits e w.gate) waits f).named in
    decision_blocks P w e c Decision.deny f waits off c.descriptor.content (codes "denied by user")
      (decision_answered host config parameters_of ctx c e Decision.deny w.plug name)
