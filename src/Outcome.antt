-- ===== src/Outcome.antt =====
-- How a computation ends that runs on fuel and may follow a NULL.
use fuse_node.Prelude.{Option, none, some}

-- How a loop on fuel ends: with a value, in a fault of the code, or out of fuel.
pub data Run (A : Type 0) : Type 0 where
  ok : A → Run A
  fault : Run A
  more : Run A

infixl 5 ◌>>=◌
abbrev pub ◌>>=◌ : {A B : Type 0} → Run A → (A → Run B) → Run B
ok a >>= f = f a
fault >>= f = fault
more >>= f = more

-- A NULL that is followed, and a call that faults, are faults here.
abbrev pub of_option : {A : Type 0} → Option A → Run A
of_option none = fault
of_option (some a) = ok a

-- The run ends: in a fault, or in a value with the property.
abbrev pub Ends : {A : Type 0} → (A → Type 0) → Run A → Type 0
Ends P (ok a) = P a
Ends P fault = Unit
Ends P more = ⊥

pub Ends-bind :
    {A B : Type 0} (P : A → Type 0) (Q : B → Type 0) (r : Run A) (f : A → Run B)
    → Ends P r
    → ((a : A) → P a → Ends Q (f a))
    → Ends Q (r >>= f)
Ends-bind P Q (ok a) f h g = g a h
Ends-bind P Q fault f h g = tt
Ends-bind P Q more f h g = h

pub Ends-of_option : {A : Type 0} (o : Option A) → Ends (λ _. Unit {0}) (of_option o)
Ends-of_option none = tt
Ends-of_option (some a) = tt
