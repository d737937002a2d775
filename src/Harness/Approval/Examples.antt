-- ===== src/Harness/Approval/Examples.antt =====
-- A gate in which one command line waits for the user.
use hera_v.Shared.{◌≡◌, refl, true, false, none, some, [], ◌∷◌}
use hera_v.Shared.Text.{codes, text_eq}
use hera_v.Shared.Dict.{has, lookup}
use hera_v.Harness.Descriptor.{Descriptor, freeze, verify_integrity, simple_hash}
use hera_v.Harness.Gate.{GateProvider, Decision, Call, execute, waiting, dispatching, World, run}
use hera_v.Harness.Gate.Invariant.{Fits}
use hera_v.Harness.Gate.Progress.{decision_events}
use hera_v.Harness.Plugs.Paths.{Host}
use hera_v.Harness.Plugs.LocalGuards.{LocalGuardsConfig}
use hera_v.Harness.Plugs.LocalGuards.Factory.{local_guards_plug}
use hera_v.Harness.Approval.{decision_followed}

-- A host on which nothing exists but the root.
abbrev bare_host : Host
bare_host = record {
  win32 = false;
  home = none;
  sep = codes "/";
  is_absolute = λ p. true;
  resolve = λ base p. p;
  join = λ p rest. p;
  dirname = λ p. [];
  relative = λ base p. p;
  exists = λ p. false;
  realpath = some;
  glob_match = text_eq;
}

abbrev careful : LocalGuardsConfig
careful = record {
  denylist = [];
  workspace = codes "/w";
  read_allowlist = none;
  protected_paths = none;
  network_commands = none;
  auto_approve_prefixes = none;
  approval = none;
}

abbrev guards : GateProvider
guards = local_guards_plug bare_host careful (λ content. ("CommandLine", content) ∷ []) "ctx"

abbrev descriptor : Descriptor
descriptor = record {
  effect_id = "fx_1";
  kind = "tool.call";
  target = "run_command";
  content = codes "ls";
  hash = none;
  frozen = false;
}

abbrev call : Call
call = record {
  entry = execute;
  descriptor = freeze descriptor;
  on_pending = false;
  on_unavailable = true;
}

abbrev asked : World guards
asked = record {
  gate = record {
    run_ctx = "ctx";
    admitted = true;
    halted = false;
    in_flight =
        ("fx_1", record { kind = "tool.call"; target = "run_command"; status = "pending" }) ∷ [];
    pending_resolvers = ("fx_1", tt) ∷ [];
  };
  plug = [];
  phase = λ e. waiting call;
}

asked-Fits : Fits "fx_1" asked.gate (asked.phase "fx_1")
unfolding has lookup freeze
asked-Fits = record { named = refl; registered = refl; tracked = λ h. refl; quiet = λ h. cc }

intact : verify_integrity call.descriptor ≡ true
unfolding verify_integrity freeze simple_hash
intact = refl

decision_followed_example :
    (run guards (decision_events "fx_1" Decision.allow call.descriptor.content) asked).phase "fx_1"
    ≡ dispatching call
decision_followed_example =
    decision_followed bare_host careful (λ content. ("CommandLine", content) ∷ []) "ctx" asked
      "fx_1" call Decision.allow asked-Fits refl refl intact
