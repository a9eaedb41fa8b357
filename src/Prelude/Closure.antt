-- ===== src/Prelude/Closure.antt =====
-- Any number of steps of a relation.
use mathlib.Core.Path.{◌≡◌, subst, sym}

pub data Star {A : Type 0} (R : A → A → Type 0) : A → A → Type 0 where
  done : {r : A} → Star R r r
  step_then : {r s t : A} → R r s → Star R s t → Star R r t

module _ {A : Type 0} {R : A → A → Type 0} where
  pub Star-append : {r s t : A} → Star R r s → Star R s t → Star R r t
  Star-append done b = b
  Star-append (step_then x a) b = step_then x (Star-append a b)

  pub one-Star : {r s : A} → R r s → Star R r s
  one-Star x = step_then x done

  pub same-Star : {r s : A} → s ≡ r → Star R r s
  same-Star {r} {s} e = subst (λ x. Star R r x) (sym e) done
