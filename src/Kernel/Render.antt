-- ===== src/Kernel/Render.antt =====
-- crates/kernel/src/render.rs: write-time rendering.
pub mod Framing
pub mod Trimming
use peras.Prelude.{
  ℕ, zero, suc, ◌+◌, ◌-◌, ◌*◌, Bool, true, false, not, ◌&&◌, ◌||◌, Option, none, some, List, [],
  ◌∷◌, ◌++◌, ltb, leb, if◌then◌else◌, Text, txt, text_eq, decimal, length, take, add32,
}
use peras.Proto.Resource.{drop}
use peras.Proto.Envelope.{BlobRef, Trust}
use peras.Proto.Value.{Value, object, end}
use peras.Proto.Verdict.{ToolContent, ToolResult}
use peras.Proto.Model.{RenderProfile, ContentBlock, AssistantMessage}
use peras.Proto.Signal.{Attachment}
use peras.Proto.Render.{Role, RBlock, RBlocks, nil, cons, Rendered, estimate_tokens}
use peras.Proto.Event.{
  Event, user_message, injected, assistant_replied, tool_resulted, state_snapshot, snapshot_cleared,
  instructions_injected, memory_loaded,
}
use peras.Kernel.Data.{Externals}
use peras.Kernel.Gate.Canonical.{is_boundary, cut_end}

-- `RuleSet::default()`, the only rule set in use.
abbrev pub image_tokens : ℕ
image_tokens = 1000

-- `while !text.is_char_boundary(t) { t += 1; }`; the end of the text is a boundary, and is `fuel`
-- bytes away.
advance : ℕ → Text → ℕ → ℕ
advance zero s t = t
advance (suc fuel) s t = let more = advance fuel s (suc t) in if is_boundary s t then t else more

-- The bytes of "\n".
abbrev newline : Text
newline = 10 ∷ []

unfoldable pub preview : Text → ℕ → Text
unfolding advance
preview text keep =
    if leb (length text) (keep * 2)
    then text
    else (let h = cut_end text keep in
        let t = advance keep text (length text - keep) in
        take h text
        ++ (newline
            ++ (txt "[... "
                ++ (decimal (t - h) ++ (txt " bytes omitted ...]" ++ (newline ++ drop t text))))))

unfoldable pub clip : RenderProfile → Text → Text
clip profile text =
    if leb (length text) profile.inline_limit_bytes
    then text
    else preview text profile.preview_bytes

unfoldable pub frame : RenderProfile → Trust → Text → RBlock
frame profile Trust.user t = RBlock.text t
frame profile Trust.internal t = RBlock.text t
frame profile Trust.guidance t = RBlock.guidance t
frame profile (Trust.untrusted source) t =
    RBlock.framed source (profile.data_warning ++ (newline ++ (newline ++ t)))

unfoldable pub tool_frame : RenderProfile → Trust → Text → RBlock
unfolding frame
tool_frame profile (Trust.untrusted source) t = frame profile (Trust.untrusted source) t
tool_frame profile Trust.user t = RBlock.text t
tool_frame profile Trust.guidance t = RBlock.text t
tool_frame profile Trust.internal t = RBlock.text t

quote_mark : Text
quote_mark = 34 ∷ []

attachment_text : RenderProfile → Attachment → Text
unfolding quote_mark
attachment_text profile a = elim a.content [
  | some c ↦
      txt "<attachment path="
      ++ (quote_mark
          ++ (a.path
              ++ (quote_mark
                  ++ (txt ">"
                      ++ (newline ++ (clip profile c ++ (newline ++ txt "</attachment>")))))))
  | none ↦ txt "<attachment path=" ++ (quote_mark ++ (a.path ++ (quote_mark ++ txt "/>")))
]

attachment_blocks : RenderProfile → Trust → List Attachment → List RBlock
unfolding attachment_text
attachment_blocks profile trust [] = []
attachment_blocks profile trust (a ∷ more) =
    frame profile trust (attachment_text profile a) ∷ attachment_blocks profile trust more

injected_text : Trust → Text → Text → Text
injected_text Trust.user source t = t
injected_text _ source t = txt "[" ++ (source ++ (txt "] " ++ t))

content_block : ContentBlock → RBlock
content_block (ContentBlock.text t) = RBlock.text t
content_block (ContentBlock.thinking t signature) = RBlock.thinking t signature
content_block (ContentBlock.tool_use c) = RBlock.tool_use c.id c.name c.input
content_block (ContentBlock.opaque vendor v) = RBlock.opaque vendor v

content_blocks : List ContentBlock → List RBlock
unfolding content_block
content_blocks [] = []
content_blocks (b ∷ bs) = content_block b ∷ content_blocks bs

tool_block : Externals → RenderProfile → Trust → ToolContent → RBlock
tool_block x profile trust (ToolContent.text t) = tool_frame profile trust (clip profile t)
tool_block x profile trust (ToolContent.blob b shown) = tool_frame profile trust (
    shown
    ++ (newline
        ++ (txt "[full output stored as blob sha256:"
            ++ (b.sha256 ++ (txt " (" ++ (decimal b.size ++ txt " bytes)]"))))))
tool_block x profile trust (ToolContent.image b) = RBlock.image b
tool_block x profile trust (ToolContent.json v) =
    tool_frame profile trust (clip profile (x.to_json v))

tool_blocks : Externals → RenderProfile → Trust → List ToolContent → RBlocks
unfolding tool_block
tool_blocks x profile trust [] = nil
tool_blocks x profile trust (c ∷ cs) =
    cons (tool_block x profile trust c) (tool_blocks x profile trust cs)

-- The role, the blocks and whether later snapshots supersede them.
unfoldable pub layout :
    Externals → RenderProfile → Trust → Event → Option (Role × List RBlock × Bool)
unfolding attachment_blocks injected_text content_blocks tool_blocks
layout x profile trust (user_message t attachments) =
    some (Role.user, frame profile trust t ∷ attachment_blocks profile trust attachments, false)
layout x profile trust (injected source t) =
    some (Role.user, frame profile trust (injected_text trust source t) ∷ [], false)
layout x profile trust (assistant_replied message effect) =
    some (Role.assistant, content_blocks message.content, false)
layout x profile trust (tool_resulted call result) = some (
  Role.user,
  RBlock.tool_result result.call_id (tool_blocks x profile trust result.content) result.is_error
      ∷ [],
  false,
)
layout x profile trust (state_snapshot key t) =
    some (Role.user, frame profile trust (txt "[state:" ++ (key ++ (txt "] " ++ t))) ∷ [], true)
layout x profile trust (snapshot_cleared key) = some (
  Role.user,
  frame profile trust (txt "[state:" ++ (key ++ txt "] (cleared; earlier values are void)")) ∷ [],
  true,
)
layout x profile trust (instructions_injected path t) = some (
  Role.user,
  frame profile trust (txt "Instructions from " ++ (path ++ (txt ":" ++ (newline ++ t)))) ∷ [],
  false,
)
layout x profile trust (memory_loaded t) = some (Role.user, frame profile trust t ∷ [], false)
layout x profile trust _ = none

signature_tokens : Option Text → ℕ
signature_tokens none = 0
signature_tokens (some g) = estimate_tokens g

-- The sums of a release build wrap around at u32.
unfoldable mutual
  unfolding add32 signature_tokens

  pub estimate_block : Externals → RBlock → ℕ
  estimate_block x (RBlock.text t) = estimate_tokens t
  estimate_block x (RBlock.guidance t) = estimate_tokens t
  estimate_block x (RBlock.framed source t) = add32 (estimate_tokens source) (estimate_tokens t)
  estimate_block x (RBlock.image b) = image_tokens
  estimate_block x (RBlock.tool_use id name input) =
      add32 (estimate_tokens name) (estimate_tokens (x.to_json input))
  estimate_block x (RBlock.tool_result id content is_error) = add32 1 (estimate_nested x content)
  estimate_block x (RBlock.thinking t signature) =
      add32 (estimate_tokens t) (signature_tokens signature)
  estimate_block x (RBlock.opaque vendor v) = estimate_tokens (x.to_json v)

  pub estimate_nested : Externals → RBlocks → ℕ
  estimate_nested x nil = 0
  estimate_nested x (cons b bs) = add32 (estimate_block x b) (estimate_nested x bs)

unfoldable pub estimate_blocks : Externals → List RBlock → ℕ
unfolding add32
estimate_blocks x [] = 0
estimate_blocks x (b ∷ bs) = add32 (estimate_block x b) (estimate_blocks x bs)

unfoldable pub rendered_as : Externals → Role → List RBlock → Bool → Rendered
rendered_as x role blocks supersedable = record {
  role = role;
  blocks = blocks;
  tokens = estimate_blocks x blocks;
  supersedable = supersedable;
}

unfoldable pub render : Externals → RenderProfile → Trust → Event → Option Rendered
unfolding rendered_as
render x profile trust ev = elim (layout x profile trust ev) [
  | none ↦ none
  | some (role, blocks, supersedable) ↦ some (rendered_as x role blocks supersedable)
]

-- `ERASED`
abbrev pub erased_text : Text
erased_text = txt "[erased]"

is_erased_text : RBlock → Bool
is_erased_text (RBlock.text t) = text_eq t erased_text
is_erased_text _ = false

unfoldable pub last_block : List RBlock → Option RBlock
last_block [] = none
last_block (b ∷ []) = some b
last_block (b ∷ c ∷ bs) = last_block (c ∷ bs)

-- One erased text for a run of bodies.
add_erased : List RBlock → List RBlock
unfolding is_erased_text
add_erased out = elim (last_block out) [
  | none ↦ out ++ RBlock.text erased_text ∷ []
  | some b ↦ if is_erased_text b then out else out ++ RBlock.text erased_text ∷ []
]

-- The loop of `erased` over the blocks.
unfoldable pub erase_from : List RBlock → List RBlock → List RBlock
unfolding add_erased
erase_from out [] = out
erase_from out (RBlock.tool_use id name input ∷ bs) =
    erase_from (out ++ RBlock.tool_use id name (object end) ∷ []) bs
erase_from out (RBlock.tool_result id content is_error ∷ bs) =
    erase_from (out ++ RBlock.tool_result id (cons (RBlock.text erased_text) nil) is_error ∷ []) bs
erase_from out (RBlock.thinking t signature ∷ bs) = erase_from out bs
erase_from out (RBlock.opaque vendor v ∷ bs) = erase_from out bs
erase_from out (RBlock.text t ∷ bs) = erase_from (add_erased out) bs
erase_from out (RBlock.guidance t ∷ bs) = erase_from (add_erased out) bs
erase_from out (RBlock.framed source t ∷ bs) = erase_from (add_erased out) bs
erase_from out (RBlock.image b ∷ bs) = erase_from (add_erased out) bs

unfoldable pub erased : Externals → Rendered → Rendered
unfolding erase_from
erased x r =
    let blocks : List RBlock = elim (erase_from [] r.blocks) [
      | [] ↦ RBlock.text erased_text ∷ []
      | b ∷ bs ↦ b ∷ bs
    ] in
    rendered_as x r.role blocks r.supersedable

-- `strip_vendor`: vendor-private blocks are dropped.
unfoldable pub without_vendor : List RBlock → List RBlock
without_vendor [] = []
without_vendor (RBlock.thinking t signature ∷ bs) = without_vendor bs
without_vendor (RBlock.opaque vendor v ∷ bs) = without_vendor bs
without_vendor (b ∷ bs) = b ∷ without_vendor bs

unfoldable pub strip_vendor : Externals → Rendered → Rendered
unfolding without_vendor
strip_vendor x r = rendered_as x r.role (without_vendor r.blocks) r.supersedable
