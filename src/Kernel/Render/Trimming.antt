-- ===== src/Kernel/Render/Trimming.antt =====
-- crates/kernel/src/render.rs: the renderings that shorten the context, `trim`, `offload_images` and
-- `summary`.
use peras.Prelude.{
  ℕ, ◌+◌, ◌*◌, Bool, true, false, ◌||◌, Option, none, some, List, [], ◌∷◌, ltb, if◌then◌else◌, Text,
  txt, glue, decimal, length,
}
use peras.Proto.Envelope.{Trust}
use peras.Proto.Model.{RenderProfile}
use peras.Proto.Render.{Role, RBlock, RBlocks, nil, cons, Rendered}
use peras.Kernel.Data.{Externals}
use peras.Kernel.Render.{preview, frame, rendered_as}

-- Whether a text is longer than its trimmed form is allowed to be.
abbrev pub is_long : ℕ → Text → Bool
is_long keep t = ltb (keep * 2 + 64) (length t)

-- A block in its new form, and whether it changed.
unfoldable mutual
  pub trim_block : ℕ → RBlock → RBlock × Bool
  trim_block keep (RBlock.text t) =
      if is_long keep t then (RBlock.text (preview t keep), true) else (RBlock.text t, false)
  trim_block keep (RBlock.framed source t) =
      if is_long keep t
      then (RBlock.framed source (preview t keep), true)
      else (RBlock.framed source t, false)
  trim_block keep (RBlock.tool_result id content is_error) =
      let (blocks, changed) = trim_nested keep content in
      (RBlock.tool_result id blocks is_error, changed)
  trim_block keep b = (b, false)

  pub trim_nested : ℕ → RBlocks → RBlocks × Bool
  trim_nested keep nil = (nil, false)
  trim_nested keep (cons b bs) =
      let (c, changed) = trim_block keep b in
      let (cs, later) = trim_nested keep bs in (cons c cs, changed || later)

unfoldable pub trim_blocks : ℕ → List RBlock → List RBlock × Bool
unfolding trim_block
trim_blocks keep [] = ([], false)
trim_blocks keep (b ∷ bs) =
    let (c, changed) = trim_block keep b in
    let (cs, later) = trim_blocks keep bs in (c ∷ cs, changed || later)

-- The rendering of the new blocks, if any changed.
unfoldable pub if_changed : Externals → Rendered → List RBlock × Bool → Option Rendered
if_changed x r (blocks, changed) =
    if changed then some (rendered_as x r.role blocks r.supersedable) else none

unfoldable pub trim : Externals → Rendered → ℕ → Option Rendered
unfolding trim_blocks if_changed
trim x r keep = if_changed x r (trim_blocks keep r.blocks)

unfoldable mutual
  pub offload_block : RBlock → RBlock × Bool
  offload_block (RBlock.image blob) = (
    RBlock.text (
        glue (
          txt "[image offloaded: blob sha256:"
          ∷ blob.sha256
          ∷ txt " ("
          ∷ decimal blob.size
          ∷ txt " bytes)]"
          ∷ [])),
    true,
  )
  offload_block (RBlock.tool_result id content is_error) =
      let (blocks, changed) = offload_nested content in
      (RBlock.tool_result id blocks is_error, changed)
  offload_block b = (b, false)

  pub offload_nested : RBlocks → RBlocks × Bool
  offload_nested nil = (nil, false)
  offload_nested (cons b bs) =
      let (c, changed) = offload_block b in
      let (cs, later) = offload_nested bs in (cons c cs, changed || later)

unfoldable pub offload_blocks : List RBlock → List RBlock × Bool
unfolding offload_block
offload_blocks [] = ([], false)
offload_blocks (b ∷ bs) =
    let (c, changed) = offload_block b in
    let (cs, later) = offload_blocks bs in (c ∷ cs, changed || later)

unfoldable pub offload_images : Externals → Rendered → Option Rendered
unfolding offload_blocks if_changed
offload_images x r = if_changed x r (offload_blocks r.blocks)

-- `SUMMARY_NOTE`
abbrev pub summary_note : Text
summary_note =
    txt
      "This is an automatic checkpoint of earlier context. Treat it as established background and continue working; do not restate or respond to it."

unfoldable pub summary : Externals → RenderProfile → Trust → Text → Rendered
summary x profile trust t =
    rendered_as x Role.user (RBlock.guidance summary_note ∷ frame profile trust t ∷ []) false
