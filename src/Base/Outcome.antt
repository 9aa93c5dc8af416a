-- ===== src/Base/Outcome.antt =====
-- The outcome of a piece of C code: a value, undefined behaviour (an access out of bounds or
-- through a null pointer), a failed `assert`, or a loop that is cut off.
use mathlib.Core.Path.{◌≡◌, refl, subst}
use native.Mathlib.Omega.{arith}
use mathlib.Core.Bool.{Bool, true, false}
use gfhttpd.Base.Tests.{if◌then◌else◌}

pub data Run {ℓ} (A : Type ℓ) : Type ℓ where
  ok : A → Run A
  fault : Run A
  abort : Run A
  out_of_fuel : Run A

infixl 5 ◌>>=◌ ◌>>◌
abbrev pub ◌>>=◌ {ℓ κ} : {A : Type ℓ} {B : Type κ} → Run A → (A → Run B) → Run B
ok a >>= k = k a
fault >>= k = fault
abort >>= k = abort
out_of_fuel >>= k = out_of_fuel

abbrev pub ◌>>◌ {ℓ κ} : {A : Type ℓ} {B : Type κ} → Run A → Run B → Run B
m >> k = m >>= λ _. k

pub ok-inj {ℓ} : {A : Type ℓ} {a b : A} → ok a ≡ ok b → a ≡ b
ok-inj h = ground arith

-- A result that a function of an outcome gives comes from a value of it.
pub ok_of_bind {ℓ κ} :
    {A : Type ℓ} {B : Type κ} (m : Run A) (f : A → B) (b : B)
    → (m >>= λ a. ok (f a)) ≡ ok b
    → (a : A) × (m ≡ ok a) × (f a ≡ b)
ok_of_bind (ok a) f b h = (a, refl, ok-inj h)
ok_of_bind fault f b h = absurd (ground arith)
ok_of_bind abort f b h = absurd (ground arith)
ok_of_bind out_of_fuel f b h = absurd (ground arith)

-- What holds of the value, if there is one.
abbrev pub Ensures {ℓ κ} : {A : Type ℓ} → (A → Type κ) → Run A → Type κ
Ensures P (ok a) = P a
Ensures P fault = Unit
Ensures P abort = Unit
Ensures P out_of_fuel = Unit

pub bind-Ensures {ℓ κ μ ν} :
    {A : Type ℓ} {B : Type κ} (P : A → Type μ) (Q : B → Type ν) (m : Run A) (k : A → Run B)
    → Ensures P m
    → ((a : A) → P a → Ensures Q (k a))
    → Ensures Q (m >>= k)
bind-Ensures P Q (ok a) k h f = f a h
bind-Ensures P Q fault k h f = tt
bind-Ensures P Q abort k h f = tt
bind-Ensures P Q out_of_fuel k h f = tt

pub bind-Ensures-all {ℓ κ ν} :
    {A : Type ℓ} {B : Type κ} (Q : B → Type ν) (m : Run A) (k : A → Run B)
    → ((a : A) → Ensures Q (k a))
    → Ensures Q (m >>= k)
bind-Ensures-all Q (ok a) k f = f a
bind-Ensures-all Q fault k f = tt
bind-Ensures-all Q abort k f = tt
bind-Ensures-all Q out_of_fuel k f = tt

pub Ensures-self {ℓ} : {A : Type ℓ} (m : Run A) → Ensures (λ a. m ≡ ok a) m
Ensures-self (ok a) = refl
Ensures-self fault = tt
Ensures-self abort = tt
Ensures-self out_of_fuel = tt

pub Ensures-all {ℓ κ} : {A : Type ℓ} (P : A → Type κ) (m : Run A) → ((a : A) → P a) → Ensures P m
Ensures-all P (ok a) f = f a
Ensures-all P fault f = tt
Ensures-all P abort f = tt
Ensures-all P out_of_fuel f = tt

pub Ensures-map {ℓ κ μ} :
    {A : Type ℓ} (P : A → Type κ) (Q : A → Type μ) (m : Run A)
    → Ensures P m
    → ((a : A) → P a → Q a)
    → Ensures Q m
Ensures-map P Q (ok a) h f = f a h
Ensures-map P Q fault h f = tt
Ensures-map P Q abort h f = tt
Ensures-map P Q out_of_fuel h f = tt

pub Ensures_ok {ℓ κ} :
    {A : Type ℓ} (P : A → Type κ) (m : Run A) (a : A) → Ensures P m → m ≡ ok a → P a
Ensures_ok P (ok b) a h e = subst P (ok-inj e) h
Ensures_ok P fault a h e = absurd (ground arith)
Ensures_ok P abort a h e = absurd (ground arith)
Ensures_ok P out_of_fuel a h e = absurd (ground arith)

-- No loop was cut off.
abbrev pub IsFueled {ℓ} : {A : Type ℓ} → Run A → Type 0
IsFueled (ok a) = Unit
IsFueled fault = Unit
IsFueled abort = Unit
IsFueled out_of_fuel = ⊥

pub bind-IsFueled {ℓ κ} :
    {A : Type ℓ} {B : Type κ} (m : Run A) (k : A → Run B)
    → IsFueled m
    → ((a : A) → m ≡ ok a → IsFueled (k a))
    → IsFueled (m >>= k)
bind-IsFueled (ok a) k h f = f a refl
bind-IsFueled fault k h f = tt
bind-IsFueled abort k h f = tt
bind-IsFueled out_of_fuel k h f = elim h [ ]

pub if-IsFueled {ℓ} :
    {A : Type ℓ} (c : Bool) (a b : Run A) → IsFueled a → IsFueled b → IsFueled (if c then a else b)
if-IsFueled true a b x y = x
if-IsFueled false a b x y = y

-- With these, `search` proves that a body is not cut off from the same of the calls in it.
pub ruleset fueled_rules = (bind-IsFueled, if-IsFueled)
