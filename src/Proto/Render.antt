-- ===== src/Proto/Render.antt =====
-- crates/proto/src/render.rs: rendered message fragments.
use peras.Prelude.{ℕ, ◌+◌, ◌/◌, Bool, false, Option, List, [], ◌∷◌, Text, length, ◌%◌}
use peras.Proto.Envelope.{CallId, BlobRef}
use peras.Proto.Value.{Value}

pub data Role : Type 0 where
  system user assistant : Role

-- The content of a tool result is a list of blocks, so the lists are declared in the block.
mutual
  pub data RBlock : Type 0 where
    text guidance : Text → RBlock
    framed : Text → Text → RBlock
    image : BlobRef → RBlock
    tool_use : CallId → Text → Value → RBlock
    tool_result : CallId → RBlocks → Bool → RBlock
    thinking : Text → Option Text → RBlock
    opaque : Text → Value → RBlock

  pub data RBlocks : Type 0 where
    nil : RBlocks
    cons : RBlock → RBlocks → RBlocks

pub record Rendered : Type 0 where
  pub role : Role
  pub blocks : List RBlock
  pub tokens : ℕ
  pub supersedable : Bool

-- `(s.len() as u32).div_ceil(4)`
unfoldable pub estimate_tokens : Text → ℕ
estimate_tokens s = (length s % 4294967296 + 3) / 4

unfoldable pub text_fragment : Role → Text → Rendered
unfolding estimate_tokens
text_fragment role t = record {
  role = role;
  blocks = text t ∷ [];
  tokens = estimate_tokens t;
  supersedable = false;
}
