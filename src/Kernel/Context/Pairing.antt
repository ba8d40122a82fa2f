-- ===== src/Kernel/Context/Pairing.antt =====
-- Shortened renderings keep the calls and the results of a context paired.
use peras.Prelude.{ℕ, ◌≡◌, refl, arith, Option, none, some, List, [], ◌∷◌, Option-cases, inl, inr}
use peras.Proto.Envelope.{CallId}
use peras.Proto.Render.{RBlock}
use peras.Kernel.Render.{without_vendor}
use peras.Kernel.Render.Trimming.{trim_block, trim_blocks, offload_block, offload_blocks}
use peras.Kernel.Context.Plans.{close_call, pair_blocks}

-- What the pairing sees of a block.
abbrev pub step : List CallId → RBlock → Option (List CallId)
step calls b = pair_blocks calls (b ∷ [])

pair-cons :
    (calls : List CallId) (b : RBlock) (bs : List RBlock)
    → pair_blocks calls (b ∷ bs)
      ≡ elim (step calls b) [ none ↦ none | some rest ↦ pair_blocks rest bs ]
unfolding pair_blocks
pair-cons calls (RBlock.tool_result id content e) bs = elim (Option-cases (close_call id calls)) [
  | inl n ↦ ground (arith, n)
  | inr (rest, n) ↦ ground (arith, n)
]
pair-cons calls b bs = refl

step-trim :
    (keep : ℕ) (calls : List CallId) (b : RBlock) → step calls (trim_block keep b).0 ≡ step calls b
unfolding trim_block pair_blocks
step-trim keep calls b = ground arith

step-offload : (calls : List CallId) (b : RBlock) → step calls (offload_block b).0 ≡ step calls b
unfolding offload_block pair_blocks
step-offload calls b = ground arith

-- Two lists whose heads and whose tails pair alike pair alike.
pair_alike :
    (calls : List CallId) (b c : RBlock) (bs cs : List RBlock)
    → step calls c ≡ step calls b
    → ((rest : List CallId) → pair_blocks rest cs ≡ pair_blocks rest bs)
    → pair_blocks calls (c ∷ cs) ≡ pair_blocks calls (b ∷ bs)
pair_alike calls b c bs cs h k = elim (Option-cases (step calls b)) [
  | inl n ↦ ground (arith, pair-cons calls b bs, pair-cons calls c cs, h, n)
  | inr (rest, n) ↦ ground (arith, pair-cons calls b bs, pair-cons calls c cs, h, n, k rest)
]

pair-trim :
    (keep : ℕ) (calls : List CallId) (bs : List RBlock)
    → pair_blocks calls (trim_blocks keep bs).0 ≡ pair_blocks calls bs
unfolding trim_blocks
pair-trim keep calls [] = refl
pair-trim keep calls (b ∷ bs) =
    pair_alike calls b (trim_block keep b).0 bs (trim_blocks keep bs).0 (step-trim keep calls b)
      (λ rest. pair-trim keep rest bs)

pair-offload :
    (calls : List CallId) (bs : List RBlock)
    → pair_blocks calls (offload_blocks bs).0 ≡ pair_blocks calls bs
unfolding offload_blocks
pair-offload calls [] = refl
pair-offload calls (b ∷ bs) =
    pair_alike calls b (offload_block b).0 bs (offload_blocks bs).0 (step-offload calls b)
      (λ rest. pair-offload rest bs)

pair-without_vendor :
    (calls : List CallId) (bs : List RBlock)
    → pair_blocks calls (without_vendor bs) ≡ pair_blocks calls bs
unfolding without_vendor pair_blocks
pair-without_vendor calls [] = refl
pair-without_vendor calls (RBlock.thinking t g ∷ bs) = pair-without_vendor calls bs
pair-without_vendor calls (RBlock.opaque v d ∷ bs) = pair-without_vendor calls bs
pair-without_vendor calls (RBlock.tool_use id name input ∷ bs) = pair-without_vendor _ bs
pair-without_vendor calls (RBlock.tool_result id content e ∷ bs) =
    elim (Option-cases (close_call id calls)) [
      | inl n ↦ ground (arith, n)
      | inr (rest, n) ↦ ground (arith, n, pair-without_vendor rest bs)
    ]
pair-without_vendor calls (b ∷ bs) = pair-without_vendor calls bs

-- Trimming texts, offloading images and dropping vendor blocks leave the same calls open, whatever
-- calls were open before: a context stays well paired.
pub pairing-shortened :
    (keep : ℕ) (calls : List CallId) (bs : List RBlock)
    → (pair_blocks calls (trim_blocks keep bs).0 ≡ pair_blocks calls bs)
      × (pair_blocks calls (offload_blocks bs).0 ≡ pair_blocks calls bs)
      × (pair_blocks calls (without_vendor bs) ≡ pair_blocks calls bs)
pairing-shortened keep calls bs =
    (pair-trim keep calls bs, pair-offload calls bs, pair-without_vendor calls bs)
