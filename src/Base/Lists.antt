-- ===== src/Base/Lists.antt =====
-- Vectors and arrays: lists measured and indexed by native numbers.
use Prim.Native.Nat.{ℕ, zero, suc, ◌+◌, ◌-◌, ◌≤◌, ◌<◌, min}
use mathlib.Core.Path.{◌≡◌, refl, ap}
use mathlib.Core.Bool.{Bool, true, false}
use mathlib.Core.List.{List, [], ◌∷◌, ◌++◌}
use mathlib.Core.Option.{Option, none, some}
use native.Mathlib.Omega.{arith}
use vlad_os.Base.Tests.{◌==◌, if◌then◌else◌}

module _ {ℓ} {A : Type ℓ} where
  abbrev pub length : List A → ℕ
  length [] = 0
  length (x ∷ xs) = suc (length xs)

  abbrev pub get_elem? : List A → ℕ → Option A
  get_elem? [] i = none
  get_elem? (x ∷ xs) zero = some x
  get_elem? (x ∷ xs) (suc i) = get_elem? xs i

  -- A write out of bounds changes nothing.
  abbrev pub set : List A → ℕ → A → List A
  set [] i v = []
  set (x ∷ xs) zero v = v ∷ xs
  set (x ∷ xs) (suc i) v = x ∷ set xs i v

  abbrev pub take : ℕ → List A → List A
  take zero xs = []
  take (suc n) [] = []
  take (suc n) (x ∷ xs) = x ∷ take n xs

  abbrev pub drop : ℕ → List A → List A
  drop zero xs = xs
  drop (suc n) [] = []
  drop (suc n) (x ∷ xs) = drop n xs

  abbrev pub replicate : ℕ → A → List A
  replicate zero a = []
  replicate (suc n) a = a ∷ replicate n a

  abbrev pub is_empty : List A → Bool
  is_empty [] = true
  is_empty (x ∷ xs) = false

  -- The index of the first element that passes the test.
  abbrev pub position : (A → Bool) → List A → Option ℕ
  position p [] = none
  position p (x ∷ xs) = elim (p x) [
    | true ↦ some 0
    | false ↦ elim (position p xs) [ none ↦ none | some i ↦ some (suc i) ]
  ]

  -- How many elements pass the test.
  abbrev pub count_if : (A → Bool) → List A → ℕ
  count_if p [] = 0
  count_if p (x ∷ xs) = (if p x then 1 else 0) + count_if p xs

  -- Those that pass the test, in order.
  abbrev pub retain : (A → Bool) → List A → List A
  retain p [] = []
  retain p (x ∷ xs) = let rest = retain p xs in if p x then x ∷ rest else rest

abbrev pub is_none {ℓ} : {A : Type ℓ} → Option A → Bool
is_none none = true
is_none (some a) = false

abbrev pub is_some {ℓ} : {A : Type ℓ} → Option A → Bool
is_some none = false
is_some (some a) = true

-- `slots.get(i)?.as_ref()`: the content of a slot that exists and is filled.
abbrev pub flatten {ℓ} : {A : Type ℓ} → Option (Option A) → Option A
flatten none = none
flatten (some o) = o

module _ {ℓ} {A : Type ℓ} where
  pub length-append : (xs ys : List A) → length (xs ++ ys) ≡ length xs + length ys
  length-append [] ys = omega arith
  length-append (x ∷ xs) ys = omega (arith, length-append xs ys)

  pub length-set : (xs : List A) (i : ℕ) (v : A) → length (set xs i v) ≡ length xs
  length-set [] i v = refl
  length-set (x ∷ xs) zero v = refl
  length-set (x ∷ xs) (suc i) v = ap suc (length-set xs i v)

  pub length-replicate : (n : ℕ) (a : A) → length (replicate n a) ≡ n
  length-replicate zero a = refl
  length-replicate (suc n) a = ap suc (length-replicate n a)

  pub get_elem?-none : (xs : List A) (i : ℕ) → get_elem? xs i ≡ none → length xs ≤ i
  get_elem?-none [] i e = omega arith
  get_elem?-none (x ∷ xs) zero e = cc
  get_elem?-none (x ∷ xs) (suc i) e = omega (arith, get_elem?-none xs i e)

  pub get_elem?_lt : (xs : List A) (i : ℕ) {a : A} → get_elem? xs i ≡ some a → i < length xs
  get_elem?_lt [] i e = ground arith
  get_elem?_lt (x ∷ xs) zero e = omega arith
  get_elem?_lt (x ∷ xs) (suc i) e = omega (arith, get_elem?_lt xs i e)

  pub get_elem?_of_lt : (xs : List A) (i : ℕ) → i < length xs → (a : A) × (get_elem? xs i ≡ some a)
  get_elem?_of_lt [] i h = elim h [ ]
  get_elem?_of_lt (x ∷ xs) zero h = (x, refl)
  get_elem?_of_lt (x ∷ xs) (suc i) h = get_elem?_of_lt xs i (omega arith)

  -- Reading after a write in bounds.
  pub get_elem?-set :
      (xs : List A) (i j : ℕ) (v : A)
      → i < length xs
      → get_elem? (set xs i v) j ≡ (if i == j then some v else get_elem? xs j)
  get_elem?-set [] i j v h = elim h [ ]
  get_elem?-set (x ∷ xs) zero zero v h = refl
  get_elem?-set (x ∷ xs) zero (suc j) v h = ground arith
  get_elem?-set (x ∷ xs) (suc i) zero v h = ground arith
  get_elem?-set (x ∷ xs) (suc i) (suc j) v h = ground (arith, get_elem?-set xs i j v (omega arith))

  pub get_elem?-set_at :
      (xs : List A) (i j : ℕ) (v : A) {a : A}
      → get_elem? xs i ≡ some a
      → get_elem? (set xs i v) j ≡ (if i == j then some v else get_elem? xs j)
  get_elem?-set_at xs i j v e = get_elem?-set xs i j v (get_elem?_lt xs i e)

  pub set_out_of_bounds : (xs : List A) (i : ℕ) (v : A) → get_elem? xs i ≡ none → set xs i v ≡ xs
  set_out_of_bounds [] i v e = refl
  set_out_of_bounds (x ∷ xs) zero v e = cc
  set_out_of_bounds (x ∷ xs) (suc i) v e = ap (◌∷◌ x) (set_out_of_bounds xs i v e)

  -- An array of free slots has nothing in it.
  pub flatten-replicate : (n i : ℕ) → flatten (get_elem? {A = Option A} (replicate n none) i) ≡ none
  flatten-replicate zero i = refl
  flatten-replicate (suc n) zero = refl
  flatten-replicate (suc n) (suc i) = flatten-replicate n i

  pub get_elem?-append :
      (xs : List A) (a : A) (j : ℕ)
      → get_elem? (xs ++ (a ∷ [])) j ≡ (if length xs == j then some a else get_elem? xs j)
  get_elem?-append [] a zero = refl
  get_elem?-append [] a (suc j) = ground arith
  get_elem?-append (x ∷ xs) a zero = ground arith
  get_elem?-append (x ∷ xs) a (suc j) = ground (arith, get_elem?-append xs a j)

  pub get_elem?-replicate :
      (n : ℕ) (a : A) (i : ℕ) {b : A} → get_elem? (replicate n a) i ≡ some b → b ≡ a
  get_elem?-replicate zero a i e = cc
  get_elem?-replicate (suc n) a zero e = ground arith
  get_elem?-replicate (suc n) a (suc i) e = get_elem?-replicate n a i e

  -- `position` finds an element that passes, and none before it does.
  pub position-some :
      (p : A → Bool) (xs : List A) (i : ℕ)
      → position p xs ≡ some i
      → (i < length xs) × ((a : A) × (get_elem? xs i ≡ some a) × (p a ≡ true))
  position-some p [] i e = cc
  position-some p (x ∷ xs) zero e = (omega arith, (x, refl, ground arith))
  position-some p (x ∷ xs) (suc i) e =
      let h : position p xs ≡ some i = ground arith in
      let (lt, found) = position-some p xs i h in (omega arith, found)

  pub position_before :
      (p : A → Bool) (xs : List A) (i j : ℕ) {a : A}
      → position p xs ≡ some i
      → j < i
      → get_elem? xs j ≡ some a
      → p a ≡ false
  position_before p [] i j e h g = cc
  position_before p (x ∷ xs) zero j e h g = elim h [ ]
  position_before p (x ∷ xs) (suc i) zero e h g = ground arith
  position_before p (x ∷ xs) (suc i) (suc j) e h g =
      let e' : position p xs ≡ some i = ground arith in position_before p xs i j e' (omega arith) g

  pub position-none :
      (p : A → Bool) (xs : List A) (j : ℕ) {a : A}
      → position p xs ≡ none
      → get_elem? xs j ≡ some a
      → p a ≡ false
  position-none p [] j e g = cc
  position-none p (x ∷ xs) zero e g = ground arith
  position-none p (x ∷ xs) (suc j) e g =
      let e' : position p xs ≡ none = ground arith in position-none p xs j e' g

  pub length-take : (n : ℕ) (xs : List A) → length (take n xs) ≡ min n (length xs)
  length-take zero xs = omega arith
  length-take (suc n) [] = omega arith
  length-take (suc n) (x ∷ xs) = omega (arith, length-take n xs)

  pub length-drop : (n : ℕ) (xs : List A) → length (drop n xs) ≡ length xs - n
  length-drop zero xs = omega arith
  length-drop (suc n) [] = omega arith
  length-drop (suc n) (x ∷ xs) = omega (arith, length-drop n xs)

  -- Each element's part in a count.
  pub count_if-set :
      (p : A → Bool) (xs : List A) (i : ℕ) (v : A) {a : A}
      → get_elem? xs i ≡ some a
      → count_if p (set xs i v) + (if p a then 1 else 0) ≡ count_if p xs + (if p v then 1 else 0)
  count_if-set p [] i v e = cc
  count_if-set p (x ∷ xs) zero v {a} e = ground arith
  count_if-set p (x ∷ xs) (suc i) v e = omega (arith, count_if-set p xs i v e)

  pub count_if-le-length : (p : A → Bool) (xs : List A) → count_if p xs ≤ length xs
  count_if-le-length p [] = omega arith
  count_if-le-length p (x ∷ xs) = ground (arith, count_if-le-length p xs)
