-- ===== src/Errors/Safely.antt =====
-- Outcomes that are no panic, for the functions of gentxvalidate that chain fallible steps.
use seedward_libs.Base.{Bool, true, false, Bytes, ◌≡◌, refl}
use seedward_libs.Errors.{
  Error, Reply, reply, refusal, Outcome, ok, err, panic, ◌>>=◌, require, wrap,
}

-- No panic, and a value that is returned has the property.
abbrev pub Safely {ℓ} : {A : Type ℓ} → (A → Type 0) → Outcome A → Type 0
Safely P (ok a) = P a
Safely P (err e) = Unit
Safely P panic = ⊥

pub Safely-bind {ℓ κ} :
    {A : Type ℓ} {B : Type κ} {P : A → Type 0} (Q : B → Type 0) (m : Outcome A) (f : A → Outcome B)
    → Safely P m
    → ((a : A) → P a → Safely Q (f a))
    → Safely Q (m >>= f)
Safely-bind Q (ok a) f h k = k a h
Safely-bind Q (err e) f h k = tt
Safely-bind Q panic f h k = h

pub require-Safely : (b : Bool) (e : Error) → Safely (λ u. b ≡ true) (require b e)
require-Safely true e = refl
require-Safely false e = tt

pub wrap-Safely {ℓ} :
    {A : Type ℓ} (f : Bytes → Error) (r : Reply A) → Safely (λ a. Unit {0}) (wrap f r)
wrap-Safely f (reply a) = tt
wrap-Safely f (refusal e) = tt

pub Safely-ok : {A : Type 0} (P : A → Type 0) {o : Outcome A} {a : A} → o ≡ ok a → Safely P o → P a
Safely-ok P e h = rw e at h

pub Safely-panic : {A : Type 0} (P : A → Type 0) {o : Outcome A} → o ≡ panic → Safely P o → ⊥
Safely-panic P e h = rw e at h
