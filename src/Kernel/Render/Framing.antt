-- ===== src/Kernel/Render/Framing.antt =====
-- Untrusted content is rendered as framed data.
use peras.Prelude.{
  ◌≡◌, refl, sym, ◌∙◌, subst, arith, Bool, true, false, Option, none, some, List, [], ◌∷◌, Text,
  All, starts_with, starts_with-append,
}
use peras.Proto.Envelope.{Trust}
use peras.Proto.Verdict.{ToolContent}
use peras.Proto.Model.{RenderProfile}
use peras.Proto.Signal.{Attachment}
use peras.Proto.Render.{Role, RBlock, RBlocks, nil, cons, Rendered}
use peras.Proto.Event.{Event}
use peras.Kernel.Data.{Externals}
use peras.Kernel.Render.{
  layout, frame, tool_blocks, tool_block, tool_frame, attachment_blocks, render, rendered_as,
}

-- A data block of the source that begins with the profile's warning, an image, or the result of a
-- tool made of such blocks.
unfoldable mutual
  pub IsFramed : RenderProfile → Text → RBlock → Type 0
  IsFramed profile source (RBlock.framed src t) =
      (src ≡ source) × (starts_with t profile.data_warning ≡ true)
  IsFramed profile source (RBlock.image b) = Unit
  IsFramed profile source (RBlock.tool_result id content is_error) =
      AreFramed profile source content
  IsFramed profile source (RBlock.text t) = ⊥
  IsFramed profile source (RBlock.guidance t) = ⊥
  IsFramed profile source (RBlock.tool_use id name input) = ⊥
  IsFramed profile source (RBlock.thinking t signature) = ⊥
  IsFramed profile source (RBlock.opaque vendor v) = ⊥

  pub AreFramed : RenderProfile → Text → RBlocks → Type 0
  AreFramed profile source nil = Unit
  AreFramed profile source (cons b bs) = IsFramed profile source b × AreFramed profile source bs

frame-IsFramed :
    (profile : RenderProfile) (source t : Text)
    → IsFramed profile source (frame profile (Trust.untrusted source) t)
unfolding IsFramed frame
frame-IsFramed profile source t = (refl, starts_with-append profile.data_warning _)

tool_blocks-AreFramed :
    (x : Externals) (profile : RenderProfile) (source : Text) (cs : List ToolContent)
    → AreFramed profile source (tool_blocks x profile (Trust.untrusted source) cs)
unfolding IsFramed tool_blocks tool_block tool_frame
tool_blocks-AreFramed x profile source [] = tt
tool_blocks-AreFramed x profile source (ToolContent.text t ∷ cs) =
    (frame-IsFramed profile source _, tool_blocks-AreFramed x profile source cs)
tool_blocks-AreFramed x profile source (ToolContent.blob b t ∷ cs) =
    (frame-IsFramed profile source _, tool_blocks-AreFramed x profile source cs)
tool_blocks-AreFramed x profile source (ToolContent.image b ∷ cs) =
    (tt, tool_blocks-AreFramed x profile source cs)
tool_blocks-AreFramed x profile source (ToolContent.json v ∷ cs) =
    (frame-IsFramed profile source _, tool_blocks-AreFramed x profile source cs)

attachments-Framed :
    (profile : RenderProfile) (source : Text) (as' : List Attachment)
    → All (IsFramed profile source) (attachment_blocks profile (Trust.untrusted source) as')
unfolding attachment_blocks
attachments-Framed profile source [] = tt
attachments-Framed profile source (a ∷ more) =
    (frame-IsFramed profile source _, attachments-Framed profile source more)

-- What the model said itself is not outside content.
abbrev pub is_reply : Event → Bool
is_reply (Event.assistant_replied message effect) = true
is_reply _ = false

FramedIn : RenderProfile → Text → Option (Role × List RBlock × Bool) → Type 0
FramedIn profile source none = Unit
FramedIn profile source (some l) = All (IsFramed profile source) l.1

layout-Framed :
    (x : Externals) (profile : RenderProfile) (source : Text) (ev : Event)
    → is_reply ev ≡ false
    → FramedIn profile source (layout x profile (Trust.untrusted source) ev)
unfolding FramedIn layout IsFramed
layout-Framed x profile source (Event.user_message t as') h =
    (frame-IsFramed profile source t, attachments-Framed profile source as')
layout-Framed x profile source (Event.injected src t) h = (frame-IsFramed profile source _, tt)
layout-Framed x profile source (Event.tool_resulted call r) h =
    (tool_blocks-AreFramed x profile source r.content, tt)
layout-Framed x profile source (Event.state_snapshot key t) h =
    (frame-IsFramed profile source _, tt)
layout-Framed x profile source (Event.snapshot_cleared key) h =
    (frame-IsFramed profile source _, tt)
layout-Framed x profile source (Event.instructions_injected path t) h =
    (frame-IsFramed profile source _, tt)
layout-Framed x profile source (Event.memory_loaded t) h = (frame-IsFramed profile source t, tt)
layout-Framed x profile source (Event.assistant_replied message effect) h = cc h
layout-Framed x profile source _ h = tt

abbrev rendered_from : Externals → Option (Role × List RBlock × Bool) → Option Rendered
rendered_from x none = none
rendered_from x (some (role, blocks, supersedable)) = some (rendered_as x role blocks supersedable)

render_lem :
    (x : Externals) (profile : RenderProfile) (trust : Trust) (ev : Event)
    → render x profile trust ev ≡ rendered_from x (layout x profile trust ev)
unfolding render
render_lem x profile trust ev = ground arith

rendered-Framed :
    (x : Externals) (profile : RenderProfile) (source : Text)
    (o : Option (Role × List RBlock × Bool)) (r : Rendered)
    → FramedIn profile source o
    → rendered_from x o ≡ some r
    → All (IsFramed profile source) r.blocks
unfolding FramedIn rendered_as
rendered-Framed x profile source none r f e = cc e
rendered-Framed x profile source (some (role, blocks, supersedable)) r f e =
    let q : rendered_as x role blocks supersedable ≡ r = ground (arith, e) in
    subst (λ (k : Rendered). All (IsFramed profile source) k.blocks) q f

-- Whatever is rendered of an untrusted event that is no reply of the model is framed as data of
-- its source, with the profile's warning before it, images aside.
pub render-Framed :
    (x : Externals) (profile : RenderProfile) (source : Text) (ev : Event) (r : Rendered)
    → is_reply ev ≡ false
    → render x profile (Trust.untrusted source) ev ≡ some r
    → All (IsFramed profile source) r.blocks
render-Framed x profile source ev r h e =
    rendered-Framed x profile source (layout x profile (Trust.untrusted source) ev) r
      (layout-Framed x profile source ev h)
      (sym (render_lem x profile (Trust.untrusted source) ev) ∙ e)
