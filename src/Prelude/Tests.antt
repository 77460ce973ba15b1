-- ===== src/Prelude/Tests.antt =====
-- C's tests on native numbers, the conditional, and the order of statements.
use Prim.Native.Nat.{ℕ, ◌<◌, compare, Ordering, bit_and}
use mathlib.Core.Path.{◌≡◌, refl}
use mathlib.Core.Logic.{◌↔◌, ◌⊎◌, inl, inr}
use mathlib.Core.Bool.{Bool, true, false, not}
use native.Mathlib.Omega.{arith}

abbrev pub ltb : ℕ → ℕ → Bool
ltb a b = elim (compare a b) [ Ordering.lt ↦ true | _ ↦ false ]

abbrev pub leb : ℕ → ℕ → Bool
leb a b = elim (compare a b) [ Ordering.gt ↦ false | _ ↦ true ]

infix 50 ◌==◌
abbrev pub ◌==◌ : ℕ → ℕ → Bool
a == b = elim (compare a b) [ Ordering.eq ↦ true | _ ↦ false ]

infix 1 if◌then◌else◌
abbrev pub if◌then◌else◌ {ℓ} : {A : Type ℓ} → Bool → A → A → A
if true then x else y = x
if false then x else y = y

-- `if (v)` of C: a number other than 0.
abbrev pub nonzero : ℕ → Bool
nonzero v = not (v == 0)

-- `if (v & mask)` of C.
abbrev pub has : ℕ → ℕ → Bool
has v mask = nonzero (bit_and v mask)

-- The value of a C test.
abbrev pub flag : Bool → ℕ
flag true = 1
flag false = 0

-- Statements in order: the state goes from left to right.
infixl 3 ◌|>◌
abbrev pub ◌|>◌ {ℓ κ} : {A : Type ℓ} {B : Type κ} → A → (A → B) → B
x |> f = f x

-- `if (c) a;`
abbrev pub when {ℓ} : {A : Type ℓ} → Bool → (A → A) → A → A
when true a s = a s
when false a s = s

pub Bool-cases : (b : Bool) → (b ≡ true) ⊎ (b ≡ false)
Bool-cases true = inl refl
Bool-cases false = inr refl

pub ==_iff : (a b : ℕ) → ((a == b) ≡ true) ↔ (a ≡ b)
==_iff a b = ground arith

pub ltb→lt : (a b : ℕ) → ltb a b ≡ true → a < b
ltb→lt a b h = ground arith

-- A property of both ways out of a test.
pub if-holds :
    {A : Type 0} (P : A → Type 0) (b : Bool) {x y : A}
    → (b ≡ true → P x)
    → (b ≡ false → P y)
    → P (if b then x else y)
if-holds P true f g = f refl
if-holds P false f g = g refl
