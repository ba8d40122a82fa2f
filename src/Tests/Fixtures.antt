-- ===== src/Tests/Fixtures.antt =====
-- A session, its configuration, and calls.
use peras.Prelude.{ℕ, true, false, none, some, List, [], ◌∷◌, Text, txt, text_eq, any}
use peras.Proto.Resource.{Access, AccessMode, EffectClass}
use peras.Proto.Envelope.{Trust, Origin, Audience, EventId}
use peras.Proto.Value.{object, end}
use peras.Proto.Verdict.{ToolCall, HookPoint}
use peras.Proto.Config.{PolicyRule, PolicyAction, Layer, default_budgets, KernelConfig}
use peras.Proto.Render.{Role, text_fragment}
use peras.Proto.Event.{Event, Envelope}
use peras.Kernel.Data.{Externals, Matcher, State}
use peras.Kernel.Evolve.{default_caps}
use peras.Kernel.Initial.{initial}

-- Globs that match their own text alone.
abbrev pub literal_globs : Externals
literal_globs = record {
  glob = λ p. some (text_eq p);
  build = λ ms. some (λ t. any (λ (m : Matcher). m t) ms);
  to_json = λ v. txt "{}";
  signal_of = λ v. none;
  config_of = λ v. none;
  kind_of = λ v. none;
  texts_of = λ v. none;
  signal_value = λ sig. object end;
  config_value = λ cfg. object end;
  kind_value = λ kind. object end;
  spec_json = λ spec. txt "{}";
}

abbrev pub agent_file : Text
agent_file = txt "fs:///w/agent"

abbrev pub guard_rule : PolicyRule
guard_rule = record {
  name = txt "guard";
  resource = some agent_file;
  tool = none;
  mode = some AccessMode.write;
  action = PolicyAction.deny;
  layer = Layer.user;
}

abbrev pub config_of_rules : List PolicyRule → KernelConfig
config_of_rules rules = record {
  caps = default_caps;
  fallbacks = [];
  system = [];
  tools = [];
  rules = rules;
  budgets = default_budgets;
  security = record {
    workspace_root = txt "/w";
    workspace_trusted = true;
    private_globs = [];
    untrusted = [];
    trusted_sources = [];
    egress_allow = [];
    persistence = [];
    self_config = agent_file ∷ [];
    disposable_env = false;
    sandbox_available = true;
    isolation_available = true;
  };
  unattended = none;
  snapshots = [];
  compaction = record {
    pressure_ratio = 0;
    output_reserve = 1000;
    keep_recent_tokens = 100;
    instruction = txt "Summarise.";
  };
  encoder_version = 1;
  read_only_mode = false;
  hooked = HookPoint.pre_tool ∷ [];
  instruction_budget = 65536;
}

abbrev pub config : KernelConfig
config = config_of_rules (guard_rule ∷ [])

abbrev pub configured : State
configured = record initial { config = some config }

abbrev pub call_of : Text → List Access → EffectClass → ToolCall
call_of id access class = record {
  id = id;
  name = txt "edit";
  input = object end;
  access = access;
  class = class;
  isolated = false;
}

abbrev pub access_to : Text → AccessMode → Access
access_to resource mode = record { resource = resource; mode = mode; content_hash = none }

abbrev pub read_call : ToolCall
read_call = call_of (txt "c1") (access_to (txt "fs:///w/a") AccessMode.read ∷ []) EffectClass.pure

abbrev pub write_call : ToolCall
write_call =
    call_of (txt "c2") (access_to (txt "fs:///w/a") AccessMode.write ∷ []) EffectClass.local_write

abbrev pub config_call : ToolCall
config_call =
    call_of (txt "c3") (access_to agent_file AccessMode.write ∷ []) EffectClass.local_write

abbrev pub event_of : ℕ → EventId → Trust → Event → Envelope
event_of seq id trust body = record {
  id = id;
  parent = none;
  seq = seq;
  at = 1000;
  origin = Origin.system;
  trust = trust;
  audience = Audience.both;
  schema = 2;
  body = body;
  rendered = some (text_fragment Role.user (txt "hello"));
}

abbrev pub started : Envelope
started =
    event_of 0 (txt "e0") Trust.internal (Event.session_started (txt "s") (txt "h") config none)

abbrev pub web_page : Envelope
web_page =
    event_of 7 (txt "e7") (Trust.untrusted (txt "net:example.org"))
      (Event.injected (txt "web") (txt "page"))
