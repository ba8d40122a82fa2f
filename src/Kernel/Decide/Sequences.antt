-- ===== src/Kernel/Decide/Sequences.antt =====
-- crates/kernel/src/decide.rs: request sequences, model switches and configuration changes.
use peras.Prelude.{
  ℕ, Bool, true, false, not, ◌&&◌, ◌||◌, ◌==◌, Option, none, some, List, [], ◌∷◌, ◌++◌, map,
  if◌then◌else◌, Text, txt, text_eq, glue, join, contains, insert, retain, any, find, add32,
}
use peras.Proto.Envelope.{ModelId, Trust, Origin}
use peras.Proto.Model.{ModelCaps, SeqHead, ToolSpec}
use peras.Proto.Config.{KernelConfig}
use peras.Proto.Equality.{texts_eq, profile_eq, spec_eq, specs_eq}
use peras.Proto.Event.{Event}
use peras.Kernel.Data.{Externals, State}
use peras.Kernel.Gate.Canonical.{canonical}
use peras.Kernel.Context.Plans.{rerender}
use peras.Kernel.Evolve.Plugin.{fnv}
use peras.Kernel.Decide.Commands.{Action, ◌>>=◌, ◌>>◌, done, state, cfg, when}
use peras.Kernel.Decide.Emitting.{internal, user, visible, replaced}

unfoldable pub config_hash : Externals → KernelConfig → Text
config_hash x c = fnv (canonical x (x.config_value c))

-- The `BTreeSet` of the names of tools.
unfoldable pub tool_names : List ToolSpec → List Text
tool_names [] = []
tool_names (t ∷ ts) = insert t.name (tool_names ts)

unfoldable pub difference : List Text → List Text → List Text
difference names others = retain (λ n. not (contains others n)) names

is_changed : List ToolSpec → ToolSpec → Bool
is_changed old t = any (λ (o : ToolSpec). text_eq o.name t.name && not (spec_eq o t)) old

-- A part of the notice, if there is something to list.
abbrev listed : Text → List Text → Text → List Text
listed before [] after = []
listed before names after = glue (before ∷ join (txt ", ") names ∷ after ∷ []) ∷ []

abbrev line_break : Text
line_break = 10 ∷ []

notice_parts : KernelConfig → KernelConfig → SeqHead → List Text
unfolding tool_names difference is_changed
notice_parts old new head =
    let before = tool_names old.tools in
    let after = tool_names new.tools in
    let in_head = tool_names head.tools in
    let added = difference after before in
    let system : List Text =
      if texts_eq new.system old.system
      then []
      else glue (txt "System instructions updated:" ∷ line_break ∷ join line_break new.system ∷ [])
        ∷ [] in
    system
    ++ listed (txt "Tools available again: ") (retain (contains in_head) added) (txt ".")
    ++ listed (txt "Tools added: ") (difference added in_head) (
        txt
          ". Their definitions load with the next request sequence; do not call them before then.")
    ++ listed (txt "Tools removed: ") (difference before after)
        (txt ". Do not call them; calls are denied.")
    ++ listed (txt "Tool definitions changed: ")
        (map (λ (t : ToolSpec). t.name) (retain (is_changed old.tools) new.tools))
        (txt ". The new definitions load with the next request sequence.")

-- The notice of a change within the sequence; none if there is nothing to say.
unfoldable pub static_update_notice : KernelConfig → KernelConfig → SeqHead → Option Text
unfolding notice_parts
static_update_notice old new head = elim (notice_parts old new head) [
  | [] ↦ none
  | p ∷ ps ↦ some (glue (txt "Configuration updated." ∷ line_break ∷ join line_break (p ∷ ps) ∷ []))
]

unfoldable pub head_of : KernelConfig → ModelCaps → ℕ → SeqHead
head_of c caps seq_no = record {
  seq_no = seq_no;
  model = caps.model;
  system = c.system;
  tools = c.tools;
  render = caps.render;
  encoder_version = c.encoder_version;
}

-- The head after the current one, by the configuration in force.
unfoldable pub next_head : State → KernelConfig → SeqHead
unfolding head_of add32
next_head s c =
    let caps : ModelCaps = elim s.caps [ none ↦ c.caps | some caps ↦ caps ] in
    head_of c caps (elim s.head [ none ↦ 0 | some h ↦ add32 h.seq_no 1 ])

rerendered : Externals → State → Action
rerendered x s = elim (rerender x s) [ none ↦ done | some rep ↦ replaced rep ]

unfoldable pub open_sequence : Externals → Bool → Action
unfolding next_head rerendered
open_sequence x rerender_all = do
  c ← cfg
  s ← state
  internal (Event.sequence_opened (next_head s c))
  opened ← state
  when rerender_all (rerendered x opened)

unfoldable pub switch_to : Externals → ModelCaps → Text → Action
unfolding open_sequence
switch_to x caps reason = do
  s ← state
  let from : ModelId = elim s.caps [ none ↦ [] | some c ↦ c.model ]
  user (Event.model_switched from caps.model reason)
  open_sequence x true

-- The notice that a configuration changed within the sequence, if there is one.
announce : Externals → Option Text → Action
announce x none = done
announce x (some t) =
    visible x Origin.system Trust.guidance (Event.injected (txt "system-update") t)

-- What differs from the head: another model or encoding opens a sequence, another system prompt or
-- other tools are announced if the model takes updates, and open a sequence otherwise.
unfoldable pub reopen : Externals → KernelConfig → KernelConfig → SeqHead → Action
unfolding open_sequence announce
reopen x old new head =
    let caps = new.caps in
    let model_changed =
      not (text_eq caps.model head.model) || not (profile_eq caps.render head.render) in
    let enc_changed = not (new.encoder_version == head.encoder_version) in
    let static_changed =
      not (texts_eq new.system head.system) || not (specs_eq new.tools head.tools) in
    if model_changed || enc_changed
    then open_sequence x model_changed
    else if static_changed
    then (if caps.mid_sequence_updates
        then announce x (static_update_notice old new head)
        else open_sequence x false)
    else done

unfoldable pub apply_config : Externals → KernelConfig → Action
unfolding open_sequence reopen config_hash
apply_config x new = do
  s ← state
  old ← cfg
  user (Event.config_changed (config_hash x new) new)
  elim s.head [ none ↦ open_sequence x false | some head ↦ reopen x old new head ]

-- The caps after those of the model in a chain; `none` if the model is not in it.
after_model : ModelId → List ModelCaps → Option (Option ModelCaps)
after_model cur [] = none
after_model cur (c ∷ cs) =
    let later = after_model cur cs in
    if text_eq c.model cur then some (elim cs [ [] ↦ none | d ∷ _ ↦ some d ]) else later

unfoldable pub next_fallback : State → KernelConfig → Option ModelCaps
unfolding after_model
next_fallback s c = elim s.caps [
  | none ↦ none
  | some caps ↦ elim (after_model caps.model (c.caps ∷ c.fallbacks)) [
    | some next ↦ next
    | none ↦ find (λ (f : ModelCaps). not (text_eq f.model caps.model)) c.fallbacks
  ]
]
