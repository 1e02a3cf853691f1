-- ===== src/Report/Decisions.antt =====
-- How the checks of gentxvalidate/invariants.go are put together from their results.
use seedward_libs.Base.{refl, Bytes}
use seedward_libs.Errors.{Outcome, ok}
use seedward_libs.Report.{Result, Reason, pass, fail, Decides}

-- A step that may fail the check, and what the rest decides.
pub Decides-pass : (inv : Bytes) → Decides inv (Unit {0}) (ok (pass inv))
Decides-pass inv = (pass inv, refl, refl, ((λ h. tt), λ h. refl))

pub Decides-fail : (inv : Bytes) (r : Reason) {P : Type 0} → ¬ P → Decides inv P (ok (fail inv r))
Decides-fail inv r n = (fail inv r, refl, refl, ((λ h. cc), λ h. absurd (n h)))

pub Decides-and :
    (inv : Bytes) {P Q : Type 0} (o : Outcome Result) → P → Decides inv Q o → Decides inv (P × Q) o
Decides-and inv o p (r, e, i, (to, from)) = (r, e, i, ((λ h. (p, to h)), λ h. from h.1))

pub Decides-iff :
    (inv : Bytes) {P Q : Type 0} (o : Outcome Result)
    → (P → Q)
    → (Q → P)
    → Decides inv P o
    → Decides inv Q o
Decides-iff inv o f g (r, e, i, (to, from)) = (r, e, i, ((λ h. f (to h)), λ h. from (g h)))

pub Decides-yes : (inv : Bytes) {P : Type 0} → P → Decides inv P (ok (pass inv))
Decides-yes inv p = (pass inv, refl, refl, ((λ h. p), λ h. refl))
