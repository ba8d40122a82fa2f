-- ===== src/Proto/Upgrade/Again.antt =====
-- A second pass of the steps of crates/proto/src/upgrade.rs over a record that was upgraded.
use peras.Prelude.{
  ℕ, zero, suc, ◌≤◌, ◌≡◌, ◌∙◌, refl, sym, ap, subst, arith, inl, inr, true, false, Option, none,
  some, Text, txt, text_eq, text_eq_iff, Bool-cases, Option-cases,
}
use peras.Proto.Value.{Value, object}
use peras.Proto.Upgrade.Json.{get}
use peras.Proto.Upgrade.Steps.{
  Result, ◌>>=◌, Serde, str_field, has_str, v0_to_v1, new_effect, replacing, put_effect, v1_to_v2,
  steps_from,
}
use peras.Proto.Upgrade.Laws.{
  field_of-put, field_of-put_other, v0_to_v1-again, Whenever, Whenever-ok, IsFinal,
  new_effect-IsFinal,
}

-- What the step does to a record whose effect is as given.
issued_step :
    (c : Serde) (v e : Value)
    → get (txt "effect") v ≡ some e
    → new_effect c e ≡ Result.ok none
    → v1_to_v2 c v ≡ Result.ok v
unfolding v1_to_v2 replacing
issued_step c v e g n = ground (arith, g, n)

Whenever-known {ℓ κ} :
    {A B : Type 0} (P : A → Type ℓ) (Q : B → Type κ) (r : Result A) (f : A → Result B)
    → Whenever P r
    → ((a : A) → r ≡ Result.ok a → P a → Whenever Q (f a))
    → Whenever Q (r >>= f)
Whenever-known P Q (Result.ok a) f h k = k a refl h
Whenever-known P Q (Result.err e) f h k = tt

get-put_effect :
    (v d e : Value) → get (txt "effect") v ≡ some d → get (txt "effect") (put_effect v e) ≡ some e
unfolding get
get-put_effect (object fs) d e h = field_of-put (txt "effect") e fs
get-put_effect v d e h = cc h

untyped_step :
    (c : Serde) (v : Value)
    → has_str (txt "type") v (txt "effect_issued") ≡ false
    → v1_to_v2 c v ≡ Result.ok v
unfolding v1_to_v2
untyped_step c v h = ground (arith, h)

bare_step : (c : Serde) (v : Value) → get (txt "effect") v ≡ none → v1_to_v2 c v ≡ Result.ok v
unfolding v1_to_v2
bare_step c v g = ground (arith, g)

upgrading_step :
    (c : Serde) (v d : Value)
    → has_str (txt "type") v (txt "effect_issued") ≡ true
    → get (txt "effect") v ≡ some d
    → v1_to_v2 c v ≡ (new_effect c d >>= replacing v)
unfolding v1_to_v2
upgrading_step c v d h g = ground (arith, h, g)

replacing_cases {ℓ} :
    (Q : Value → Type ℓ) (c : Serde) (v d : Value) (o : Option Value)
    → (v1_to_v2 c v ≡ Result.ok v → Q v)
    → ((e : Value) → new_effect c e ≡ Result.ok none → Q (put_effect v e))
    → get (txt "effect") v ≡ some d
    → new_effect c d ≡ Result.ok o
    → IsFinal c o
    → Whenever Q (replacing v o)
unfolding replacing IsFinal
replacing_cases Q c v d none same new g n f = same (issued_step c v d g n)
replacing_cases Q c v d (some e) same new g n f = new e f

-- What the step makes of a record, case by case.
step_cases {ℓ} :
    (Q : Value → Type ℓ) (c : Serde) (v : Value)
    → (v1_to_v2 c v ≡ Result.ok v → Q v)
    → ((d e : Value)
        → has_str (txt "type") v (txt "effect_issued") ≡ true
        → get (txt "effect") v ≡ some d
        → new_effect c e ≡ Result.ok none
        → Q (put_effect v e))
    → Whenever Q (v1_to_v2 c v)
step_cases Q c v same new = elim (Bool-cases (has_str (txt "type") v (txt "effect_issued"))) [
  | inr h ↦ let e = untyped_step c v h in subst (Whenever Q) (sym e) (same e)
  | inl h ↦ elim (Option-cases (get (txt "effect") v)) [
    | inl g ↦ let e = bare_step c v g in subst (Whenever Q) (sym e) (same e)
    | inr (d, g) ↦ subst (Whenever Q) (sym (upgrading_step c v d h g)) (
        Whenever-known (IsFinal c) Q (new_effect c d) (replacing v) (new_effect-IsFinal c d)
          (λ o n f. replacing_cases Q c v d o same (λ e k. new d e h g k) g n f))
  ]
]

v1_to_v2-again : (c : Serde) (v w : Value) → v1_to_v2 c v ≡ Result.ok w → v1_to_v2 c w ≡ Result.ok w
v1_to_v2-again c v w =
    let Q = λ (w : Value). v1_to_v2 c w ≡ Result.ok w in
    Whenever-ok Q (v1_to_v2 c v) w (
      step_cases Q c v (λ e. e)
        (λ d e h g n. issued_step c (put_effect v e) e (get-put_effect v d e g) n))

-- A record of another type is not a message of the user.
other_type :
    (s : Text) → text_eq s (txt "effect_issued") ≡ true → text_eq s (txt "user_message") ≡ false
unfolding text_eq txt
other_type s h =
    let e = (text_eq_iff s (txt "effect_issued")).0 h in
    subst (λ (t : Text). text_eq t (txt "user_message") ≡ false) (sym e) refl

not_message :
    (o : Option Text)
    → elim o [ none ↦ false | some s ↦ text_eq s (txt "effect_issued") ] ≡ true
    → elim o [ none ↦ false | some s ↦ text_eq s (txt "user_message") ] ≡ false
not_message none h = refl
not_message (some s) h = other_type s h

type_apart : text_eq (txt "type") (txt "effect") ≡ false
unfolding text_eq txt
type_apart = refl

v0_to_v1-put_effect :
    (v e : Value)
    → has_str (txt "type") v (txt "effect_issued") ≡ true
    → v0_to_v1 (put_effect v e) ≡ put_effect v e
unfolding v0_to_v1 has_str str_field get
v0_to_v1-put_effect (object fs) e h =
    let same = field_of-put_other (txt "type") (txt "effect") e fs type_apart in
    let other = not_message (str_field (txt "type") (object fs)) h in ground (arith, same, other)
v0_to_v1-put_effect v e h = refl

v0_to_v1-after_v2 :
    (c : Serde) (v w : Value) → v0_to_v1 v ≡ v → v1_to_v2 c v ≡ Result.ok w → v0_to_v1 w ≡ w
v0_to_v1-after_v2 c v w k =
    let Q = λ (w : Value). v0_to_v1 w ≡ w in
    Whenever-ok Q (v1_to_v2 c v) w
      (step_cases Q c v (λ e. k) (λ d e h g n. v0_to_v1-put_effect v e h))

-- A record that was upgraded from one schema passes every later step, and the same steps once
-- more, unchanged: read again under that schema or a newer one, it is what it was.
pub steps_from-again :
    (c : Serde) (n m : ℕ) (v w : Value)
    → n ≤ m
    → steps_from c n v ≡ Result.ok w
    → steps_from c m w ≡ Result.ok w
unfolding steps_from
steps_from-again c zero zero v w h e =
    let k = v0_to_v1-after_v2 c (v0_to_v1 v) w (v0_to_v1-again v) e in
    ap (v1_to_v2 c) k ∙ v1_to_v2-again c (v0_to_v1 v) w e
steps_from-again c (suc n) zero v w h e = ground (arith, h)
steps_from-again c zero (suc zero) v w h e = v1_to_v2-again c (v0_to_v1 v) w e
steps_from-again c (suc zero) (suc zero) v w h e = v1_to_v2-again c v w e
steps_from-again c (suc (suc n)) (suc zero) v w h e = ground (arith, h)
steps_from-again c n (suc (suc m)) v w h e = refl
