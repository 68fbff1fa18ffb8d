-- ===== src/Config/Accept.antt =====
-- How the proofs about agent_runner/config follow a parser step by step.
use cli_agent_runner.Prelude.{
  Bool, Option, arith, if◌then◌else◌, false, leb, none, refl, some, true, ℕ, ◌≡◌, ◌≤◌,
}
use cli_agent_runner.Config.Validators.{◌>>=◌, guard, at_most}

-- What is accepted has the property.
abbrev pub Holds : {A : Type 0} → (A → Type 0) → Option A → Type 0
Holds P none = Unit
Holds P (some a) = P a

pub then-Holds :
    {A B : Type 0} (P : B → Type 0) (Q : A → Type 0) (o : Option A) (f : A → Option B)
    → Holds Q o
    → ((a : A) → Q a → Holds P (f a))
    → Holds P (o >>= f)
unfolding ◌>>=◌
then-Holds P Q none f h k = tt
then-Holds P Q (some a) f h k = k a h

-- A step of which nothing is asked.
pub then_any :
    {A B : Type 0} (P : B → Type 0) (o : Option A) (f : A → Option B)
    → ((a : A) → Holds P (f a))
    → Holds P (o >>= f)
unfolding ◌>>=◌
then_any P none f k = tt
then_any P (some a) f k = k a

pub if-Holds :
    {A : Type 0} (P : A → Type 0) (b : Bool) (a : A)
    → (b ≡ true → P a)
    → Holds P (if b then some a else none)
if-Holds P true a k = k refl
if-Holds P false a k = tt

pub unless-Holds :
    {A : Type 0} (P : A → Type 0) (b : Bool) (a : A)
    → (b ≡ false → P a)
    → Holds P (if b then none else some a)
unless-Holds P true a k = tt
unless-Holds P false a k = k refl

pub guard-Holds : (b : Bool) → Holds (λ c. b ≡ true) (guard b)
unfolding guard
guard-Holds b = if-Holds (λ c. b ≡ true) b b (λ e. e)

pub at_most-Holds : (cap n : ℕ) → Holds (λ m. m ≤ cap) (at_most cap n)
at_most-Holds cap n = if-Holds (λ m. m ≤ cap) (leb n cap) n (λ e. ground (arith, e))
