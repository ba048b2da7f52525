-- ===== src/Machine/Laws/Finish.antt =====
-- The end of a step (crates/zksm83-core/src/bus.rs, `finalize`) when it succeeds.
use zksm.Prelude.{
  ℕ, ◌≡◌, refl, sym, ap, ◌∙◌, ◌==◌, ==_iff, Bool, true, false, not, List, [], ◌∷◌, length, Result,
  ok, err, and_then-ok, ok_injective, arith, if◌then◌else◌,
}
use zksm.Isa.Types.{DecodedInstruction}
use zksm.Memory.Log.{TranscriptAccumulator}
use zksm.Machine.State.{VmState}
use zksm.Machine.Bus.{BusWitness, StepError, StepEffects}
use zksm.Machine.Executor.{Executor, BusAuthentication, new_executor}
use zksm.Machine.Step.{
  Ran, effects_of, append_events, with_transcripts, with_isa, with_isa_row, by_authentication,
  convert, finalize, finish, step_body, apply,
}

if_not-ok :
    {A : Type 0} (b : Bool) (e : StepError) (r : Result StepError A) (v : A)
    → (if not b then err e else r) ≡ ok v
    → (b ≡ true) × (r ≡ ok v)
if_not-ok true e r v h = (refl, h)
if_not-ok false e r v h = absurd (cc h)

convert-ok :
    {E A : Type 0} (f : E → StepError) (r : Result E A) (a : A) → convert f r ≡ ok a → r ≡ ok a
convert-ok f (ok b) a h = ap ok (ok_injective b a h)
convert-ok f (err e) a h = absurd (cc h)

empty_of_length : (ws : List BusWitness) → length ws ≡ 0 → ws ≡ []
empty_of_length [] h = refl
empty_of_length (w ∷ ws) h = absurd (omega (arith, h))

module _ (sha256 : List ℕ → List ℕ) where
  -- A finished step has used all its witnesses.
  pub finalize-ok :
      (i : DecodedInstruction) (x : Executor) (s : VmState)
      → finalize sha256 i x ≡ ok s
      → (x.witnesses ≡ []) × (by_authentication sha256 x.authentication i x ≡ ok s)
  unfolding finalize
  finalize-ok i x s h =
      let r = if_not-ok (length x.witnesses == 0) _ _ s h in
      (empty_of_length x.witnesses ((==_iff _ _).0 r.0), r.1)

  -- What the transcripts of a Merkle step become.
  pub with_transcripts-ok :
      (i : DecodedInstruction) (x : Executor) (s : VmState)
      → with_transcripts sha256 i x ≡ ok s
      → (bus isa : TranscriptAccumulator) × (append_events sha256 x.state.bus_transcript x.events
          ≡ ok bus)
        × (s ≡ record x.state { bus_transcript = bus; isa_transcript = isa })
  unfolding with_transcripts with_isa with_isa_row
  with_transcripts-ok i x s h =
      let b = and_then-ok _ (with_isa sha256 i x) s h in
      let r = and_then-ok _ (with_isa_row sha256 x b.0) s b.2 in
      let t =
        and_then-ok _ (λ isa. ok (record x.state { bus_transcript = b.0; isa_transcript = isa })) s
          r.2 in
      (b.0, t.0, convert-ok _ _ b.0 b.1, sym (ok_injective _ s t.2))

  -- A step runs its body, and finishes what that leaves.
  pub apply-ok :
      (s : VmState) (input : List BusWitness) (a : BusAuthentication) (s' : VmState)
      (e : StepEffects)
      → apply sha256 s input a ≡ ok (s', e)
      → (ran : Ran) × (y : Executor) × (step_body sha256 s (new_executor s input a) ≡ ok (ran, y))
        × (finalize sha256 ran.instruction y ≡ ok s')
        × (e ≡ effects_of ran y.events)
  unfolding apply finish
  apply-ok s input a s' e h =
      let b = and_then-ok _ _ (s', e) h in
      let t = and_then-ok _ _ (s', e) b.2 in
      let p = ok_injective _ (s', e) t.2 in
      (b.0.0, b.0.1, b.1, t.1 ∙ ap ok (ap (λ q. q.0) p), sym (ap (λ q. q.1) p))

  -- A finished step changes nothing but the transcripts.
  pub by_authentication-ok :
      (a : BusAuthentication) (i : DecodedInstruction) (x : Executor) (s : VmState)
      → by_authentication sha256 a i x ≡ ok s
      → (bus isa : TranscriptAccumulator) × (s
          ≡ record x.state { bus_transcript = bus; isa_transcript = isa })
  by_authentication-ok BusAuthentication.lookup i x s h =
      (x.state.bus_transcript, x.state.isa_transcript, sym (ok_injective x.state s h))
  by_authentication-ok BusAuthentication.merkle i x s h =
      let t = with_transcripts-ok i x s h in (t.0, t.1, t.3)
