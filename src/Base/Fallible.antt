-- ===== src/Base/Fallible.antt =====
-- Computations that may panic or return an error, chained by `?`; and the bind of Option.
use vlad_os.Base.Results.{Result, ok, err, Exec, done, panic}

infixl 5 ◌>>=◌ ◌>>◌
abbrev pub ◌>>=◌ {ℓ κ μ} :
    {E : Type ℓ} {A : Type κ} {B : Type μ}
    → Exec (Result E A)
    → (A → Exec (Result E B))
    → Exec (Result E B)
done (ok a) >>= f = f a
done (err e) >>= f = done (err e)
panic >>= f = panic

abbrev pub ◌>>◌ {ℓ κ} :
    {E : Type ℓ} {B : Type κ} → Exec (Result E (Unit {0})) → Exec (Result E B) → Exec (Result E B)
m >> k = m >>= λ _. k
