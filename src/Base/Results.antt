-- ===== src/Base/Results.antt =====
-- `Result`, and a computation that may panic.
use mathlib.Core.Path.{◌≡◌, refl}
use mathlib.Core.Logic.{◌⊎◌, inl, inr}
use mathlib.Core.Bool.{Bool, true, false}
use mathlib.Core.Option.{Option, none, some}
use native.Mathlib.Omega.{arith}

pub data Result {ℓ κ} (E : Type ℓ) (A : Type κ) : Type (ℓ ⊔ κ) where
  ok : A → Result E A
  err : E → Result E A

-- `panic` is a Rust panic: an `expect`, an index out of bounds, an `unreachable!`.
pub data Exec {ℓ} (A : Type ℓ) : Type ℓ where
  done : A → Exec A
  panic : Exec A

-- `option.ok_or(error)`.
abbrev pub ok_or {ℓ κ} : {E : Type ℓ} {A : Type κ} → Option A → E → Result E A
ok_or none e = err e
ok_or (some a) e = ok a

-- `result.map_err(f)`.
abbrev pub map_err {ℓ κ μ} :
    {E : Type ℓ} {F : Type κ} {A : Type μ} → (E → F) → Result E A → Result F A
map_err f (ok a) = ok a
map_err f (err e) = err (f e)

-- `if test { return Err(error); }`.
abbrev pub fail_if {ℓ} : {E : Type ℓ} → Bool → E → Result E (Unit {0})
fail_if true e = err e
fail_if false e = ok tt

-- `option.expect("...")`.
abbrev pub expect {ℓ} : {A : Type ℓ} → Option A → Exec A
expect none = panic
expect (some a) = done a

-- The bind of `Result`: the `?` operator.
infixl 5 ◌>>=◌ ◌>>◌
abbrev pub ◌>>=◌ {ℓ κ μ} :
    {E : Type ℓ} {A : Type κ} {B : Type μ} → Result E A → (A → Result E B) → Result E B
err error >>= next = err error
ok value >>= next = next value

abbrev pub ◌>>◌ {ℓ κ} : {E : Type ℓ} {B : Type κ} → Result E (Unit {0}) → Result E B → Result E B
check >> rest = check >>= λ _. rest

-- Sequencing of computations that may panic.
abbrev pub and_then {ℓ κ} : {A : Type ℓ} {B : Type κ} → Exec A → (A → Exec B) → Exec B
and_then (done a) f = f a
and_then panic f = panic

-- The computation does not panic.
abbrev pub Returns {ℓ} : {A : Type ℓ} → Exec A → Type 0
Returns (done a) = Unit
Returns panic = ⊥

-- It does not panic, and its outcome has the property.
abbrev pub Yields {ℓ} : {A : Type ℓ} → (A → Type 0) → Exec A → Type 0
Yields P (done a) = P a
Yields P panic = ⊥

pub and_then-Yields {ℓ κ} :
    {A : Type ℓ} {B : Type κ} (P : B → Type 0) (m : Exec A) (f : A → Exec B)
    → Returns m
    → ((a : A) → m ≡ done a → Yields P (f a))
    → Yields P (and_then m f)
and_then-Yields P (done a) f r g = g a refl
and_then-Yields P panic f r g = elim r [ ]

pub and_then-Returns {ℓ κ} :
    {A : Type ℓ} {B : Type κ} (m : Exec A) (f : A → Exec B) {a : A}
    → m ≡ done a
    → Returns (f a)
    → Returns (and_then m f)
and_then-Returns (done a) f e r = ground arith
and_then-Returns panic f e r = cc

pub Yields-done {ℓ κ} :
    {A : Type ℓ} {B : Type κ} (P : B → Type 0) (m : Exec A) (f : A → Exec B) {a : A}
    → m ≡ done a
    → Yields P (f a)
    → Yields P (and_then m f)
Yields-done P (done a) f e h = ground arith
Yields-done P panic f e h = cc

pub Yields-map {ℓ} :
    {A : Type ℓ} (P Q : A → Type 0) → ((a : A) → P a → Q a) → (m : Exec A) → Yields P m → Yields Q m
Yields-map P Q f (done a) h = f a h
Yields-map P Q f panic h = h

pub expect-done {ℓ} : {A : Type ℓ} (o : Option A) {a : A} → expect o ≡ done a → o ≡ some a
expect-done none e = cc
expect-done (some b) e = cc

-- To split on a computed result and keep the equation.
pub Result-cases {ℓ κ} :
    {E : Type ℓ} {A : Type κ} (r : Result E A) → ((a : A) × (r ≡ ok a)) ⊎ ((e : E) × (r ≡ err e))
Result-cases (ok a) = inl (a, refl)
Result-cases (err e) = inr (e, refl)

-- Inversion: a chain that succeeds has passed through its first step.
pub bind-ok {ℓ κ μ} :
    {E : Type ℓ} {A : Type κ} {B : Type μ} (first : Result E A) (next : A → Result E B) {last : B}
    → (first >>= next) ≡ ok last
    → (passed : A) × (first ≡ ok passed) × (next passed ≡ ok last)
bind-ok (err error) next chain = cc
bind-ok (ok passed) next chain = (passed, refl, chain)
