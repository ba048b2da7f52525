-- ===== src/Machine/Triple.antt =====
-- Rules for the actions of the executor (crates/zksm83-core/src/bus.rs): what an action makes of a
-- predicate on executors, and that it does the same on the image of the executor under a function.
use zksm.Prelude.{
  ◌≡◌, refl, sym, ap, ◌∙◌, Bool, true, false, Option, none, some, Result, ok, err, ok_injective,
  if◌then◌else◌,
}
use mathlib.Core.Path.{subst}
use zksm.Machine.Bus.{StepError}
use zksm.Machine.Executor.{Executor, M, pure, fail, lift, require_some, ◌>>=◌, continue}

module _ {A : Type 0} where
  -- What `m` returns it returns on `f x` too, with `f` of the executor that it leaves.
  pub record Triple (f : Executor → Executor) (P : Executor → Type 0) (m : M A)
      (Q : A → Executor → Type 0) : Type 0 where
    pub at :
        (x : Executor) (a : A) (y : Executor)
        → P x
        → m x ≡ ok (a, y)
        → (m (f x) ≡ ok (a, f y)) × Q a y

-- What a bind that succeeds went through.
pub continue-ok :
    {A B : Type 0} (r : Result StepError (A × Executor)) (k : A → M B) (b : B) (z : Executor)
    → continue k r ≡ ok (b, z)
    → (p : A × Executor) × (r ≡ ok p) × (k p.0 p.1 ≡ ok (b, z))
continue-ok (ok p) k b z h = (p, refl, h)
continue-ok (err e) k b z h = absurd (cc h)

pub same_result :
    {A : Type 0} {a b : A} {x y : Executor}
    → a ≡ b
    → x ≡ y
    → ◌≡◌ {A = Result StepError (A × Executor)} (ok (a, x)) (ok (b, y))
same_result p q = cc

module _ {A : Type 0} {f : Executor → Executor} {P : Executor → Type 0} where
  pub Triple-total :
      {m : M A} {Q : A → Executor → Type 0} (r : Executor → A) (g : Executor → Executor)
      → ((x : Executor) → m x ≡ ok (r x, g x))
      → ((x : Executor) → r (f x) ≡ r x)
      → ((x : Executor) → g (f x) ≡ f (g x))
      → ((x : Executor) → P x → Q (r x) (g x))
      → Triple f P m Q
  Triple-total {m = m} {Q = Q} r g total same commutes step = record {
    at = λ x a y h q.
        subst (λ p. (m (f x) ≡ ok (p.0, f p.1)) × Q p.0 p.1)
          (ok_injective (r x, g x) (a, y) (sym (total x) ∙ q))
          (total (f x) ∙ same_result (same x) (commutes x), step x h);
  }

  pub Triple-pure :
      {Q : A → Executor → Type 0} (a : A) → ((x : Executor) → P x → Q a x) → Triple f P (pure a) Q
  unfolding pure
  Triple-pure a h = Triple-total (λ x. a) (λ x. x) (λ x. refl) (λ x. refl) (λ x. refl) h

  pub Triple-fail : {Q : A → Executor → Type 0} (e : StepError) → Triple f P (fail {A = A} e) Q
  unfolding fail
  Triple-fail e = record { at = λ x a y h q. absurd (cc q) }

  pub Triple-weaken :
      {Q R : A → Executor → Type 0} (m : M A)
      → Triple f P m Q
      → ((a : A) (x : Executor) → Q a x → R a x)
      → Triple f P m R
  Triple-weaken m h k = record { at = λ x a y p q. let r = h.at x a y p q in (r.0, k a y r.1) }

  -- A part of the precondition that does not look at the executor.
  pub Triple-given :
      {C : Type 0} {m : M A} {Q : A → Executor → Type 0}
      → (C → Triple f P m Q)
      → Triple f (λ x. C × P x) m Q
  Triple-given h = record { at = λ x a y p q. (h p.0).at x a y p.1 q }

  pub Triple-lift :
      {E : Type 0} {Q : A → Executor → Type 0} (e : E → StepError) (r : Result E A)
      → ((a : A) (x : Executor) → r ≡ ok a → P x → Q a x)
      → Triple f P (lift e r) Q
  unfolding lift pure fail
  Triple-lift e (ok a) h = Triple-pure a (λ x. h a x refl)
  Triple-lift e (err _) h = Triple-fail (e _)

  pub Triple-require_some :
      {Q : A → Executor → Type 0} (e : StepError) (o : Option A)
      → ((a : A) (x : Executor) → o ≡ some a → P x → Q a x)
      → Triple f P (require_some e o) Q
  unfolding require_some fail pure
  Triple-require_some e (some a) h = Triple-pure a (λ x. h a x refl)
  Triple-require_some e none h = Triple-fail e

  pub Triple-if :
      {Q : A → Executor → Type 0} (b : Bool) (m n : M A)
      → Triple f P m Q
      → Triple f P n Q
      → Triple f P (if b then m else n) Q
  Triple-if true m n hm hn = hm
  Triple-if false m n hm hn = hn

module _ {A B : Type 0} {f : Executor → Executor} {P : Executor → Type 0} where
  pub Triple-bind :
      {Q : A → Executor → Type 0} {R : B → Executor → Type 0} (m : M A) (k : A → M B)
      → Triple f P m Q
      → ((a : A) → Triple f (Q a) (k a) R)
      → Triple f P (m >>= k) R
  unfolding ◌>>=◌
  Triple-bind m k hm hk = record {
    at = λ x b z h q.
        let first = continue-ok (m x) k b z q in
        let done = hm.at x first.0.0 first.0.1 h first.1 in
        let rest = (hk first.0.0).at first.0.1 b z done.1 first.2 in
        (ap (continue k) done.0 ∙ rest.0, rest.1);
  }

  -- An action that keeps the predicate, before the rest of the block.
  pub Triple-bind_kept :
      {R : B → Executor → Type 0} (m : M A) (k : A → M B)
      → Triple f P m (λ _. P)
      → ((a : A) → Triple f P (k a) R)
      → Triple f P (m >>= k) R
  Triple-bind_kept m k hm hk = Triple-bind m k hm hk

-- `m` keeps `P`.
abbrev pub Keeps : {A : Type 0} → (Executor → Executor) → (Executor → Type 0) → M A → Type 0
Keeps f P m = Triple f P m (λ _. P)

module _ {A : Type 0} {f : Executor → Executor} {P : Executor → Type 0} where
  pub Keeps-pure : (a : A) → Keeps f P (pure a)
  Keeps-pure a = Triple-pure a (λ x h. h)

  pub Keeps-fail : (e : StepError) → Keeps f P (fail {A = A} e)
  Keeps-fail e = Triple-fail e

  pub Keeps-lift : {E : Type 0} (e : E → StepError) (r : Result E A) → Keeps f P (lift e r)
  Keeps-lift e r = Triple-lift e r (λ a x _ h. h)

  pub Keeps-require_some : (e : StepError) (o : Option A) → Keeps f P (require_some e o)
  Keeps-require_some e o = Triple-require_some e o (λ a x _ h. h)

pub ruleset keeps_rules =
    (Keeps-pure, Keeps-fail, Keeps-lift, Keeps-require_some, Triple-if, Triple-bind_kept)
