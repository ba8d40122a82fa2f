-- ===== src/Proto/Upgrade/Laws.antt =====
-- The steps of crates/proto/src/upgrade.rs leave alone what they have upgraded.
use peras.Prelude.{
  ◌≡◌, refl, subst, arith, inl, inr, Bool, true, false, Option, none, some, if◌then◌else◌, Text,
  txt, text_eq, text_eq_iff, text_eq_self, Bool-cases,
}
use peras.Proto.Value.{Value, object, array, nil, Fields, end, field}
use peras.Proto.Upgrade.Json.{field_of, get, put, or_insert}
use peras.Proto.Upgrade.Steps.{
  Result, ◌>>=◌, Serde, str_field, has_str, v0_to_v1, sample_reference, compact_reference,
  new_effect, as_new, sample_value, compact_value, compact_from, compact_of, PromptRef,
}

pub field_of-put : (k : Text) (v : Value) (fs : Fields) → field_of k (put k v fs) ≡ some v
unfolding field_of put
field_of-put k v end = ground (arith, text_eq_self k)
field_of-put k v (field j w fs) = ground (arith, text_eq_self k, field_of-put k v fs)

pub field_of-put_other :
    (j k : Text) (v : Value) (fs : Fields)
    → text_eq j k ≡ false
    → field_of j (put k v fs) ≡ field_of j fs
unfolding field_of put
field_of-put_other j k v end h = ground (arith, h)
field_of-put_other j k v (field i w fs) h =
    ground (arith, h, text_eq_iff k i, field_of-put_other j k v fs h)

or_insert-again :
    (k : Text) (v : Value) (fs : Fields) → or_insert k v (or_insert k v fs) ≡ or_insert k v fs
unfolding or_insert
or_insert-again k v end = ground (arith, text_eq_self k)
or_insert-again k v (field j w fs) = ground (arith, or_insert-again k v fs)

pub v0_to_v1-again : (v : Value) → v0_to_v1 (v0_to_v1 v) ≡ v0_to_v1 v
unfolding v0_to_v1
v0_to_v1-again (object fs) =
    elim (Bool-cases (has_str (txt "type") (object fs) (txt "user_message"))) [
      | inl h ↦ ground (arith, h, or_insert-again (txt "attachments") (array nil) fs)
      | inr h ↦ ground (arith, h)
    ]
v0_to_v1-again v = refl

-- What an upgraded effect is: neither of the two that are upgraded.
IsReference : Value → Type 0
IsReference e =
    (has_str (txt "effect") e (txt "sample") ≡ false)
    × (has_str (txt "effect") e (txt "compact") ≡ false)

-- What holds of a result, unless it is an error.
abbrev pub Whenever {ℓ} : {A : Type 0} → (A → Type ℓ) → Result A → Type ℓ
Whenever P (Result.ok a) = P a
Whenever P (Result.err e) = Unit

Whenever-bind {ℓ} :
    {A B : Type 0} (P : B → Type ℓ) (r : Result A) (f : A → Result B)
    → ((a : A) → Whenever P (f a))
    → Whenever P (r >>= f)
Whenever-bind P (Result.ok a) f h = h a
Whenever-bind P (Result.err e) f h = tt

Whenever-if {ℓ} :
    {A : Type 0} (P : A → Type ℓ) (b : Bool) (q r : Result A)
    → (b ≡ true → Whenever P q)
    → (b ≡ false → Whenever P r)
    → Whenever P (if b then q else r)
Whenever-if P true q r h k = h refl
Whenever-if P false q r h k = k refl

pub Whenever-ok {ℓ} :
    {A : Type 0} (P : A → Type ℓ) (r : Result A) (a : A) → Whenever P r → r ≡ Result.ok a → P a
Whenever-ok P r a h e = subst (Whenever P) e h

sample_value-IsReference : (r : PromptRef) → Whenever IsReference (sample_value r)
unfolding sample_value has_str str_field get field_of text_eq txt IsReference
sample_value-IsReference r = (refl, refl)

compact_value-IsReference :
    (effect : Value) (r : PromptRef) (t : Text) → Whenever IsReference (compact_value effect r t)
unfolding compact_value has_str str_field get field_of text_eq txt IsReference
compact_value-IsReference effect r t = (refl, refl)

sample_reference-IsReference :
    (c : Serde) (effect : Value) → Whenever IsReference (sample_reference c effect)
unfolding sample_reference
sample_reference-IsReference c effect =
    Whenever-bind IsReference _ sample_value sample_value-IsReference

compact_reference-IsReference :
    (c : Serde) (effect : Value) → Whenever IsReference (compact_reference c effect)
unfolding compact_reference compact_of compact_from
compact_reference-IsReference c effect = Whenever-bind IsReference _ (compact_of c effect) (λ p.
    Whenever-bind IsReference _ (compact_from effect) (λ r.
      Whenever-bind IsReference _ (compact_value effect r) (compact_value-IsReference effect r)))

-- The effect that takes the place of another is left alone.
unfoldable pub IsFinal : Serde → Option Value → Type 0
IsFinal c none = Unit
IsFinal c (some e) = new_effect c e ≡ Result.ok none

as_new-IsFinal :
    (c : Serde) (r : Result Value) → Whenever IsReference r → Whenever (IsFinal c) (r >>= as_new)
unfolding as_new IsFinal IsReference new_effect
as_new-IsFinal c (Result.ok e) (s, k) = ground (arith, s, k)
as_new-IsFinal c (Result.err e) h = tt

pub new_effect-IsFinal : (c : Serde) (effect : Value) → Whenever (IsFinal c) (new_effect c effect)
unfolding new_effect IsFinal
new_effect-IsFinal c effect =
    let other : Result (Option Value) =
      if has_str (txt "effect") effect (txt "compact")
      then (compact_reference c effect >>= as_new)
      else Result.ok none in
    Whenever-if (IsFinal c) (has_str (txt "effect") effect (txt "sample"))
      (sample_reference c effect >>= as_new) other
      (λ e. as_new-IsFinal c _ (sample_reference-IsReference c effect))
      (λ e.
        Whenever-if (IsFinal c) (has_str (txt "effect") effect (txt "compact"))
          (compact_reference c effect >>= as_new) (Result.ok none)
          (λ e. as_new-IsFinal c _ (compact_reference-IsReference c effect)) (λ e. tt))
