-- ===== src/Machine/Laws/Primitives.antt =====
-- What the primitive actions of the executor (crates/zksm83-core/src/bus.rs) do when they succeed.
use mathlib.Core.Path.{subst}
use zksm.Prelude.{
  ℕ, ◌≡◌, refl, ap, sym, ◌∙◌, ◌⊎◌, inl, inr, Bool, true, false, List, [], ◌∷◌, Result, ok, err,
  if◌then◌else◌,
}
use zksm.Memory.Hash.{CommitmentRoot}
use zksm.Memory.Witness.{
  RomRead, MemoryRead, MemoryWrite, verify_rom_read, verify_read, verify_write,
}
use zksm.Machine.Bus.{BusWitness, WitnessRequest, StepError, witness_kind, request_kind}
use zksm.Machine.Executor.{
  Executor, M, BusAuthentication, lift, pure, ◌>>=◌, next, first_witness, same_kind,
}
use zksm.Machine.Executor.Access.{
  authenticate_rom, authenticate_read, authenticate_write, if_merkle, set_memory_root,
}
use zksm.Machine.Triple.{Triple, continue-ok, same_result}

same_pair :
    {A : Type 0} {a b : A} {x y : Executor}
    → ◌≡◌ {A = Result StepError (A × Executor)} (ok (a, x)) (ok (b, y))
    → (a ≡ b) × (x ≡ y)
same_pair p = (cc, cc)

abbrev pub with_witnesses : List BusWitness → Executor → Executor
with_witnesses ws x = record x { witnesses = ws }

first_if :
    (b : Bool) (request : WitnessRequest) (w : BusWitness) (rest : List BusWitness) (x : Executor)
    (v : BusWitness) (y : Executor)
    → ◌≡◌ {A = Result StepError (BusWitness × Executor)}
        (if b
          then ok (w, with_witnesses rest x)
          else err (StepError.unexpected_witness request (witness_kind w)))
        (ok (v, y))
    → (b ≡ true) × ((v ≡ w) × (y ≡ with_witnesses rest x))
first_if true request w rest x v y h = (refl, (sym (same_pair h).0, sym (same_pair h).1))
first_if false request w rest x v y h = absurd (cc h)

-- A witness that is taken is the first, and any executor with the same witnesses takes it.
first_witness-ok :
    (ws : List BusWitness) (request : WitnessRequest) (x : Executor) (v : BusWitness) (y : Executor)
    → first_witness request ws x ≡ ok (v, y)
    → (rest : List BusWitness) × (ws ≡ v ∷ rest)
      × (y ≡ with_witnesses rest x)
      × ((z : Executor) → first_witness request ws z ≡ ok (v, with_witnesses rest z))
first_witness-ok [] request x v y h = absurd (cc h)
first_witness-ok (w ∷ rest) request x v y h =
    let r = first_if (same_kind (witness_kind w) (request_kind request)) request w rest x v y h in
    (rest, ap (λ u. u ∷ rest) (sym r.1.0), r.1.1, λ z. rw (r.0, r.1.0) refl)

pub next-Triple :
    {f : Executor → Executor} {P : Executor → Type 0} {Q : BusWitness → Executor → Type 0}
    (request : WitnessRequest)
    → ((x : Executor) → (f x).witnesses ≡ x.witnesses)
    → ((x : Executor) (ws : List BusWitness) → with_witnesses ws (f x) ≡ f (with_witnesses ws x))
    → ((x : Executor) (w : BusWitness) (ws : List BusWitness)
        → x.witnesses ≡ w ∷ ws
        → P x
        → Q w (with_witnesses ws x))
    → Triple f P (next request) Q
unfolding next
next-Triple {f = f} {Q = Q} request same commutes step = record {
  at = λ x v y p h.
      let r = first_witness-ok x.witnesses request x v y h in
      (
        (ap (λ ws. first_witness request ws (f x)) (same x) ∙ r.3 (f x))
            ∙ same_result refl (commutes x r.0 ∙ ap f (sym r.2)),
        subst (Q v) (sym r.2) (step x v r.0 r.1 p),
      );
}

if_merkle-ok :
    (b : BusAuthentication) (m : M Unit) (x : Executor) (a : Unit) (y : Executor)
    → if_merkle b m x ≡ ok (a, y)
    → ((b ≡ BusAuthentication.lookup) × (y ≡ x))
      ⊎ ((b ≡ BusAuthentication.merkle) × (m x ≡ ok (a, y)))
unfolding pure
if_merkle-ok BusAuthentication.lookup m x a y h = inl (refl, sym (same_pair h).1)
if_merkle-ok BusAuthentication.merkle m x a y h = inr (refl, h)

lift-ok :
    {A E : Type 0} (e : E → StepError) (r : Result E A) (x : Executor) (a : A) (y : Executor)
    → lift e r x ≡ ok (a, y)
    → (r ≡ ok a) × (y ≡ x)
unfolding lift
lift-ok e (ok b) x a y h = (ap ok (same_pair h).0, sym (same_pair h).1)
lift-ok e (err _) x a y h = absurd (cc h)

module _ (sha256 : List ℕ → List ℕ) where
  pub authenticate_rom-ok :
      (r : RomRead) (x : Executor) (a : Unit) (y : Executor)
      → authenticate_rom sha256 r x ≡ ok (a, y)
      → ((x.authentication ≡ BusAuthentication.lookup) × (y ≡ x))
        ⊎ ((verify_rom_read sha256 x.state.rom_root r ≡ ok tt) × (y ≡ x))
  unfolding authenticate_rom
  authenticate_rom-ok r x a y h = elim (if_merkle-ok x.authentication _ x a y h) [
    | inl e ↦ inl e
    | inr e ↦ inr (lift-ok _ _ x a y e.1)
  ]

  pub authenticate_read-ok :
      (r : MemoryRead) (x : Executor) (a : Unit) (y : Executor)
      → authenticate_read sha256 r x ≡ ok (a, y)
      → ((x.authentication ≡ BusAuthentication.lookup) × (y ≡ x))
        ⊎ ((verify_read sha256 x.state.memory_root r ≡ ok tt) × (y ≡ x))
  unfolding authenticate_read
  authenticate_read-ok r x a y h = elim (if_merkle-ok x.authentication _ x a y h) [
    | inl e ↦ inl e
    | inr e ↦ inr (lift-ok _ _ x a y e.1)
  ]

  abbrev pub with_root : CommitmentRoot → Executor → Executor
  with_root root x = record x { state = record x.state { memory_root = root } }

  rooted :
      (w : MemoryWrite) (x : Executor) (a : Unit) (y : Executor)
      → (lift StepError.memory_authentication (verify_write sha256 x.state.memory_root w)
            >>= set_memory_root)
          x
        ≡ ok (a, y)
      → (root : CommitmentRoot) × (verify_write sha256 x.state.memory_root w ≡ ok root)
        × (y ≡ with_root root x)
  unfolding ◌>>=◌ set_memory_root
  rooted w x a y h =
      let c = continue-ok _ set_memory_root a y h in
      let l = lift-ok StepError.memory_authentication _ x c.0.0 c.0.1 c.1 in
      (c.0.0, l.0, sym (same_pair c.2).1 ∙ ap (with_root c.0.0) l.1)

  pub authenticate_write-ok :
      (w : MemoryWrite) (x : Executor) (a : Unit) (y : Executor)
      → authenticate_write sha256 w x ≡ ok (a, y)
      → ((x.authentication ≡ BusAuthentication.lookup) × (y ≡ x))
        ⊎ ((root : CommitmentRoot) × (verify_write sha256 x.state.memory_root w ≡ ok root)
            × (y ≡ with_root root x))
  unfolding authenticate_write
  authenticate_write-ok w x a y h = elim (if_merkle-ok x.authentication _ x a y h) [
    | inl e ↦ inl e
    | inr e ↦ inr (rooted w x a y e.1)
  ]
