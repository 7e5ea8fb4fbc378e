-- ===== src/Base/Done.antt =====
-- Results that are no panic: a rule for each way in which code puts results together.
use mathlib.Core.Path.{◌≡◌, refl}
use mathlib.Core.Logic.{◌≢◌}
use mathlib.Core.Bool.{Bool, true, false}
use choam.Base.Tests.{if◌then◌else◌}
use choam.Base.Outcome.{Result, ok, err, panic, ◌>>=◌}

-- A result that is no panic, and whose value has a property.
abbrev pub Done : {E X : Type 0} → (X → Type 0) → Result E X → Type 0
Done P (ok x) = P x
Done P (err e) = Unit
Done P panic = ⊥

pub Done-bind :
    {E X Y : Type 0} (P : X → Type 0) (Q : Y → Type 0) (r : Result E X) (k : X → Result E Y)
    → Done P r
    → ((x : X) → P x → Done Q (k x))
    → Done Q (r >>= k)
Done-bind P Q (ok x) k h next = next x h
Done-bind P Q (err e) k h next = tt
Done-bind P Q panic k h next = absurd h

pub Done-weaken :
    {E X : Type 0} (P Q : X → Type 0) (r : Result E X) → Done P r → ((x : X) → P x → Q x) → Done Q r
Done-weaken P Q (ok x) h weaker = weaker x h
Done-weaken P Q (err e) h weaker = tt
Done-weaken P Q panic h weaker = absurd h

pub Done-if :
    {E X : Type 0} (P : X → Type 0) (b : Bool) (r s : Result E X)
    → (b ≡ true → Done P r)
    → (b ≡ false → Done P s)
    → Done P (if b then r else s)
Done-if P true r s h k = h refl
Done-if P false r s h k = k refl

abbrev pub Answers : {E X : Type 0} → Result E X → Type 0
Answers r = Done (λ x. Unit {0}) r

pub Answers-ne-panic : {E X : Type 0} (r : Result E X) → Answers r → r ≢ panic
Answers-ne-panic (ok x) h = λ e. cc
Answers-ne-panic (err e) h = λ e. cc
Answers-ne-panic panic h = absurd h

pub Done-Answers : {E X : Type 0} (P : X → Type 0) (r : Result E X) → Done P r → Answers r
Done-Answers P r h = Done-weaken P (λ x. Unit {0}) r h (λ x _. tt)

pub Answers-bind :
    {E X Y : Type 0} (r : Result E X) (k : X → Result E Y)
    → Answers r
    → ((x : X) → Answers (k x))
    → Answers (r >>= k)
Answers-bind r k h next = Done-bind (λ x. Unit {0}) (λ y. Unit {0}) r k h (λ x _. next x)
