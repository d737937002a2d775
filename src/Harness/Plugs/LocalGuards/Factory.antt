-- ===== src/Harness/Plugs/LocalGuards/Factory.antt =====
-- src/harness/plugs/factory.ts: which plug a profile gets, and the local plug as the gate sees it.
use hera_v.Shared.{
  String, ◌≡◌, ◌≢◌, refl, Bool, true, false, Option, none, some, List, [], ◌∷◌, arith,
  if◌then◌else◌, or_else, any, All,
}
use mathlib.Core.Path.{subst}
use hera_v.Harness.Plugs.CommandLine.{split_statements}
use hera_v.Shared.Text.{Text}
use hera_v.Harness.Descriptor.{Descriptor}
use hera_v.Harness.Gate.{allow, admitted, GateProvider, Decision}
use hera_v.Harness.Plugs.Paths.{Host}
use hera_v.Harness.Plugs.Denylist.{matches_entry}
use hera_v.Harness.Plugs.LocalGuards.{
  LocalGuardsConfig, ApprovalMode, unsafe, ask_all, off, Request, request, resolve, answer_command,
}
use hera_v.Harness.Plugs.LocalGuards.Commands.{Approval, answer_command-allow_iff}

pub data ProfileName : Type 0 where
  local passthrough scripted governed : ProfileName

pub record CreatePlugOptions : Type 0 where
  pub profile : ProfileName
  pub denylist : List Text
  pub workspace : Text
  pub read_allowlist : Option (List Text)
  pub protected_paths : Option (List Text)
  pub network_commands : Option (List Text)
  pub approval : Option ApprovalMode
  pub scripted_adapter : Option Text  -- env["HERA_SCRIPTED_ADAPTER"]

pub data Plug : Type 0 where
  local_guards : LocalGuardsConfig → Plug
  pass_through : Plug
  profile_error : Plug

-- The configuration that `createPlug` hands to `LocalGuardsPlug`.
unfoldable pub local_config : CreatePlugOptions → LocalGuardsConfig
local_config opts = record {
  denylist = opts.denylist;
  workspace = opts.workspace;
  read_allowlist = opts.read_allowlist;
  protected_paths = opts.protected_paths;
  network_commands = opts.network_commands;
  auto_approve_prefixes = none;
  approval = opts.approval;
}

abbrev pub is_set : Option Text → Bool
is_set none = false
is_set (some []) = false
is_set (some (c ∷ s)) = true

unfoldable create_for : ProfileName → CreatePlugOptions → Plug
unfolding local_config
create_for local opts = local_guards (local_config opts)
create_for passthrough opts = pass_through
create_for scripted opts = if is_set opts.scripted_adapter then pass_through else profile_error
create_for governed opts = profile_error

unfoldable pub create_plug : CreatePlugOptions → Plug
unfolding create_for
create_plug opts = create_for opts.profile opts

-- `LocalGuardsPlug` behind the socket. `parameters_of` reads the string parameters of the content
-- that is serialised, and `ctx` are the random bytes of the run.
abbrev pub request_of : (Text → List (String × Text)) → Descriptor → Request
request_of parameters_of d = record {
  effect_id = d.effect_id;
  target = d.target;
  parameters = parameters_of d.content;
}

abbrev pub local_guards_plug :
    Host → LocalGuardsConfig → (Text → List (String × Text)) → String → GateProvider
local_guards_plug host config parameters_of ctx = record {
  State = List (String × Decision);
  admit = λ definition_hash plug_hash s. admitted ctx;
  request = λ d s. request host config (request_of parameters_of d) s;
  resolve = λ e d s. resolve host config e d s;
  halt = λ reason s. s;
}

-- Neither a governed nor a local run gets a plug that lets everything through, nor does a scripted
-- one without its adapter.
pub create_plug-pass_through :
    (opts : CreatePlugOptions)
    → create_plug opts ≡ pass_through
    → (opts.profile ≢ governed)
      × (opts.profile ≢ local)
      × (opts.profile ≡ scripted → is_set opts.scripted_adapter ≡ true)
unfolding create_plug
create_plug-pass_through opts h = (ground arith, ground arith, ground arith)

made_config :
    (opts : CreatePlugOptions) (config : LocalGuardsConfig)
    → create_plug opts ≡ local_guards config
    → (config.auto_approve_prefixes ≡ none) × (config.approval ≡ opts.approval)
unfolding create_plug
made_config opts config made = ground arith

unprefixed : (stmts : List Text) → stmts ≢ [] → ¬ (All (λ s. any (matches_entry s) [] ≡ true) stmts)
unprefixed [] h all = h refl
unprefixed (s ∷ stmts) h all = cc (all.0)

unapproved :
    (host : Host) (config : LocalGuardsConfig) (mode : ApprovalMode) (line : Text)
    (cwd : Option Text)
    → config.auto_approve_prefixes ≡ none
    → mode ≢ off
    → ¬ Approval host config mode line cwd
unapproved host config off line cwd p h a = h refl
unapproved host config ask_all line cwd p h a = a
unapproved host config unsafe line cwd p h a = unprefixed (split_statements line) a.some_statement (
    subst (λ o. All (λ s. any (matches_entry s) (or_else o []) ≡ true) (split_statements line)) p
      a.prefixed)

-- A local plug that `createPlug` makes approves no command line by itself unless approval is off:
-- the operator's prefixes of the mode `unsafe` do not reach it.
create_plug-ignores_prefixes :
    (host : Host) (opts : CreatePlugOptions) (config : LocalGuardsConfig) (line : Text)
    (cwd : Option Text)
    → create_plug opts ≡ local_guards config
    → opts.approval ≢ some off
    → answer_command host config line cwd ≢ allow
create_plug-ignores_prefixes host opts config line cwd made on allowed =
    let passed = (answer_command-allow_iff host config line cwd).0 allowed in
    let (bare, same) = made_config opts config made in
    unapproved host config (or_else config.approval ask_all) line cwd bare (ground arith) passed.1
