-- ===== src/Common/Outcomes.antt =====
-- What every answer of a step that may fail is like, followed through the steps that make it.
use mathlib.Core.Path.{◌≡◌, refl, subst}
use mathlib.Core.Bool.{Bool, true, false}
use mathlib.Core.Option.{Option, none, some}
use cm.Common.Tests.{if◌then◌else◌}
use cm.Common.Go.{Result, ok, err, panic, ◌>>=◌}

-- An error and a panic answer nothing.
abbrev pub Answers {ℓ} : {A : Type ℓ} → (A → Type 0) → Result A → Type 0
Answers P panic = Unit {0}
Answers P (err e) = Unit {0}
Answers P (ok a) = P a

pub Answers-bind {u v} :
    {B : Type v} {A : Type u} (P : B → Type 0) (r : Result A) (f : A → Result B)
    → ((a : A) → r ≡ ok a → Answers P (f a))
    → Answers P (r >>= f)
Answers-bind P panic f h = tt
Answers-bind P (err e) f h = tt
Answers-bind P (ok a) f h = h a refl

pub Answers-if {ℓ} :
    {A : Type ℓ} (P : A → Type 0) (b : Bool) (x y : Result A)
    → (b ≡ true → Answers P x)
    → (b ≡ false → Answers P y)
    → Answers P (if b then x else y)
Answers-if P true x y h k = h refl
Answers-if P false x y h k = k refl

pub Answers-option {u v} :
    {B : Type v} {A : Type u} (P : B → Type 0) (o : Option A) (x : Result B) (f : A → Result B)
    → (o ≡ none → Answers P x)
    → ((a : A) → o ≡ some a → Answers P (f a))
    → Answers P (elim o [ none ↦ x | some a ↦ f a ])
Answers-option P none x f h k = h refl
Answers-option P (some a) x f h k = k a refl

pub Answers-ok {ℓ} :
    {A : Type ℓ} (P : A → Type 0) (r : Result A) (a : A) → Answers P r → r ≡ ok a → P a
Answers-ok P r a h e = subst (Answers P) e h
