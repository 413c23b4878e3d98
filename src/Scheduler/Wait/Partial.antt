-- ===== src/Scheduler/Wait/Partial.antt =====
-- scheduler.rs: what holds of the outcome of a handler, if it has one.
use vlad_os.Base.{Exec, done, panic, and_then, Yields, ◌≡◌, refl}
use vlad_os.Scheduler.{Kernel, K, ◌>>>◌}
use vlad_os.Scheduler.Sound.{Ensures}

-- The outcome, if there is one, has the property.
abbrev pub Partially : {A : Type 0} → (A → Type 0) → Exec A → Type 0
Partially P (done a) = P a
Partially P panic = Unit

pub Partially-Yields :
    {A : Type 0} (P Q : A → Type 0) (m : Exec A) → Partially P m → Yields Q m → Yields P m
Partially-Yields P Q (done a) p q = p
Partially-Yields P Q panic p q = q

pub Ensures-Partially :
    {A : Type 0} (P : Kernel → Type 0) (Q : A × Kernel → Type 0)
    → ((a : A) (k : Kernel) → P k → Q (a, k))
    → (m : K A) → Ensures P m
    → Partially Q m
Ensures-Partially P Q f (done (a, k)) h = f a k h
Ensures-Partially P Q f panic h = tt

pub Ensures-then :
    {A B : Type 0} (P : Kernel → Type 0) (Q : B × Kernel → Type 0) (f : A → Kernel → K B)
    → ((a : A) (k : Kernel) → P k → Partially Q (f a k))
    → (m : K A) → Ensures P m
    → Partially Q (m >>> f)
Ensures-then P Q f g (done (a, k)) h = g a k h
Ensures-then P Q f g panic h = tt

module _ {A B : Type 0} (P : B → Type 0) where
  pub and_then-Partially :
      (m : Exec A) (f : A → Exec B)
      → ((a : A) → m ≡ done a → Partially P (f a))
      → Partially P (and_then m f)
  and_then-Partially (done a) f g = g a refl
  and_then-Partially panic f g = tt
