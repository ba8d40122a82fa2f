-- ===== src/Proto/Envelope.antt =====
-- crates/proto/src/envelope.rs and ids.rs: identifiers, trust annotations, event envelopes.
use peras.Prelude.{ℕ, ◌≡◌, ◌↔◌, Bool, true, false, ◌&&◌, Option, Text, ◌++◌, txt, ◌==◌, arith}

-- The string ids are newtypes over their text; a timestamp and a `Seq` are u64.
abbrev pub EventId : Type 0
EventId = Text

abbrev pub SessionId : Type 0
SessionId = Text

abbrev pub CallId : Type 0
CallId = Text

abbrev pub QuestionId : Type 0
QuestionId = Text

abbrev pub CheckpointId : Type 0
CheckpointId = Text

abbrev pub ModelId : Type 0
ModelId = Text

abbrev pub Timestamp : Type 0
Timestamp = ℕ

abbrev pub Seq : Type 0
Seq = ℕ

-- The session of a sub-agent, derived from the parent's and the spawning call.
unfoldable pub child : SessionId → CallId → SessionId
child session call = session ++ (txt "/" ++ call)

pub record EffectId : Type 0 where
  pub epoch : ℕ  -- u32
  pub n : ℕ  -- u64

abbrev pub effect_id_eq : EffectId → EffectId → Bool
effect_id_eq a b = a.epoch == b.epoch && a.n == b.n

pub effect_id_eq_iff : (a b : EffectId) → (effect_id_eq a b ≡ true) ↔ (a ≡ b)
effect_id_eq_iff a b = (λ h. ground arith, λ h. ground arith)

pub record BlobRef : Type 0 where
  pub sha256 : Text
  pub size : ℕ
  pub media_type : Option Text

pub data Origin : Type 0 where
  user system kernel model : Origin
  hook tool plugin session : Text → Origin

pub data Trust : Type 0 where
  user guidance internal : Trust
  untrusted : Text → Trust

abbrev pub is_untrusted : Trust → Bool
is_untrusted (Trust.untrusted _) = true
is_untrusted _ = false

-- The more restrictive of two labels; the first untrusted one is kept.
unfoldable pub weakest : Trust → Trust → Trust
weakest (Trust.untrusted s) b = Trust.untrusted s
weakest a (Trust.untrusted s) = Trust.untrusted s
weakest Trust.user b = Trust.user
weakest a Trust.user = Trust.user
weakest Trust.guidance b = Trust.guidance
weakest a Trust.guidance = Trust.guidance
weakest Trust.internal Trust.internal = Trust.internal

pub data Audience : Type 0 where
  model user both nobody : Audience

abbrev pub model_visible : Audience → Bool
model_visible Audience.model = true
model_visible Audience.both = true
model_visible _ = false

abbrev pub user_visible : Audience → Bool
user_visible Audience.user = true
user_visible Audience.both = true
user_visible _ = false
