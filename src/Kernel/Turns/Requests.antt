-- ===== src/Kernel/Turns/Requests.antt =====
-- `journaled` of effect.rs and `capture` and `dispatchable` of state.rs: the journal holds a
-- reference to a request, and the state rebuilds the request from it.
use peras.Prelude.{
  ℕ, zero, suc, ◌≡◌, ◌<◌, ◌≤◌, ◌%◌, refl, ◌∙◌, ap, subst, arith, Bool, some, List, [], ◌∷◌, ◌++◌,
  Text, length, take,
}
use peras.Proto.Envelope.{Seq}
use peras.Proto.Model.{SeqHead}
use peras.Proto.Render.{Rendered, Role, text_fragment}
use peras.Proto.Effect.{
  Effect, sample, compact, sample_ref, compact_ref, SampleRef, CompactRef, journaled, split_last,
  instruction_of, compact_journaled,
}
use peras.Kernel.Data.{State, Entry}
use peras.Kernel.Turns.{capture, dispatchable, renderings, captured, same_seq, rebuilt}

length-renderings : (es : List Entry) → length (renderings es) ≡ length es
unfolding renderings
length-renderings [] = refl
length-renderings (e ∷ es) = omega (arith, length-renderings es)

length-take {ℓ} : {A : Type ℓ} (n : ℕ) (xs : List A) → n ≤ length xs → length (take n xs) ≡ n
length-take zero xs h = refl
length-take (suc n) [] h = omega arith
length-take (suc n) (x ∷ xs) h = ap (λ (k : ℕ). suc k) (length-take n xs (omega arith))

-- The first `n` entries as they were sent.
abbrev pub sent : State → ℕ → List Rendered
sent s n = renderings (take n s.context)

length-sent : (s : State) (n : ℕ) → n ≤ length s.context → length (sent s n) ≡ n
length-sent s n h = length-renderings (take n s.context) ∙ length-take n s.context h

-- The captured head and prefix, for any effect that refers to them.
captured-sent :
    (s : State) (head : SeqHead) (n : ℕ) (e : Effect)
    → s.head ≡ some head
    → n ≤ length s.context
    → captured e (same_seq head.seq_no s.head) n s.context
      ≡ record { effect = e; head = some head; body = sent s n }
unfolding captured same_seq
captured-sent s head n e h fits = ground (arith, h, length-sent s n fits)

length-sent_u32 :
    (s : State) (n : ℕ) → n ≤ length s.context → n < 4294967296 → length (sent s n) % 4294967296 ≡ n
length-sent_u32 s n fits small = let e = length-sent s n fits in omega (arith, e)

-- Whatever the journal has of a sample request over the first `n` entries of the context, the
-- state rebuilds the whole request from it.
pub dispatchable-capture_sample :
    (s : State) (head : SeqHead) (n max_tokens : ℕ) (e : Effect)
    → s.head ≡ some head
    → n ≤ length s.context
    → n < 4294967296
    → journaled (sample (record { head = head; body = sent s n; max_tokens = max_tokens })) ≡ some e
    → dispatchable (capture s e)
      ≡ sample (record { head = head; body = sent s n; max_tokens = max_tokens })
unfolding journaled capture dispatchable rebuilt
dispatchable-capture_sample s head n max_tokens e h fits small j =
    let r : SampleRef = record {
      seq_no = head.seq_no;
      entries = length (sent s n) % 4294967296;
      max_tokens = max_tokens;
    } in
    let shape : sample_ref r ≡ e = ground (arith, j) in
    subst
      (λ (f : Effect).
        dispatchable (capture s f)
        ≡ sample (record { head = head; body = sent s n; max_tokens = max_tokens }))
      shape (rw (length-sent_u32 s n fits small) (rw (captured-sent s head n) refl))

split_last-snoc : (xs : List Rendered) (r : Rendered) → split_last (xs ++ r ∷ []) ≡ some (r, xs)
unfolding split_last
split_last-snoc [] r = refl
split_last-snoc (x ∷ xs) r = rw (split_last-snoc xs r) refl

-- A compaction of the first `n` entries of the context with an instruction behind them.
abbrev pub compaction : State → SeqHead → ℕ → Text → ℕ → Seq × Seq → Bool → Effect
compaction s head n instruction max_tokens range overflow = compact (record {
  prompt = record {
    head = head;
    body = sent s n ++ text_fragment Role.user instruction ∷ [];
    max_tokens = max_tokens;
  };
  range = range;
  overflow = overflow;
})

-- Whatever the journal has of a compaction request over the first `n` entries of the context and
-- an instruction, the state rebuilds the whole request from it.
pub dispatchable-capture_compact :
    (s : State) (head : SeqHead) (n : ℕ) (instruction : Text) (max_tokens : ℕ) (range : Seq × Seq)
    (overflow : Bool) (e : Effect)
    → s.head ≡ some head
    → n ≤ length s.context
    → n < 4294967296
    → journaled (compaction s head n instruction max_tokens range overflow) ≡ some e
    → dispatchable (capture s e) ≡ compaction s head n instruction max_tokens range overflow
unfolding journaled compact_journaled capture dispatchable rebuilt text_fragment instruction_of
dispatchable-capture_compact s head n instruction max_tokens range overflow e h fits small j =
    let r : CompactRef = record {
      seq_no = head.seq_no;
      entries = length (sent s n) % 4294967296;
      instruction = instruction;
      max_tokens = max_tokens;
      range = range;
      overflow = overflow;
    } in
    let split = split_last-snoc (sent s n) (text_fragment Role.user instruction) in
    let shape : compact_ref r ≡ e = ground (arith, j, split) in
    subst
      (λ (f : Effect).
        dispatchable (capture s f) ≡ compaction s head n instruction max_tokens range overflow)
      shape (rw (length-sent_u32 s n fits small) (rw (captured-sent s head n) refl))
