-- ===== src/Machine/Bus/Codes.antt =====
-- The codes of bus events (crates/zksm83-core/src/bus.rs, `BusEventKind`).
use zksm.Prelude.{
  ℕ, zero, suc, ◌≤◌, ◌<◌, ◌≡◌, ◌↔◌, ◌⊎◌, inl, inr, refl, ap, ◌∙◌, sym, List, [], ◌∷◌, map, length,
  Result, ok, err, ok_injective, select, Bool, true, ◌==◌, ==_iff, all_below, all_below_sound,
  arith,
}
use zksm.Machine.Bus.{BusEventKind}
use zksm.Machine.Bus.Kinds.{kinds, kind_code, kind_of_code, BusEventKindError}

-- The kinds of events have the codes that are read back as them.
kind_of_code-kind_code : (k : BusEventKind) → kind_of_code (kind_code k) ≡ ok k
unfolding kind_of_code kind_code
kind_of_code-kind_code BusEventKind.unused = refl
kind_of_code-kind_code _ = refl

select-beyond : {A : Type 0} (i : ℕ) (xs : List A) (d : A) → length xs ≤ i → select i xs d ≡ d
select-beyond i [] d h = refl
select-beyond zero (x ∷ xs) d h = absurd (omega (arith, h))
select-beyond (suc i) (x ∷ xs) d h = select-beyond i xs d (omega (arith, h))

abbrev reads_back : ℕ → Result BusEventKindError BusEventKind → Bool
reads_back n (ok k) = kind_code k == n
reads_back n (err e) = true

reads_back-all : (n : ℕ) → reads_back n (kind_of_code n) ≡ true
unfolding kind_of_code kind_code all_below
reads_back-all n =
    let place : (n < 19) ⊎ (19 ≤ n) = ground arith in
    elim place [
      | inl h ↦ all_below_sound 19 (λ m. reads_back m (kind_of_code m)) n refl h
      | inr h ↦ ap (reads_back n) (select-beyond n (map ok kinds) _ h)
    ]

code_of :
    (n : ℕ) (r : Result BusEventKindError BusEventKind) (k : BusEventKind)
    → reads_back n r ≡ true
    → r ≡ ok k
    → kind_code k ≡ n
code_of n (ok j) k h e = ap kind_code (sym (ok_injective j k e)) ∙ (==_iff _ _).0 h
code_of n (err _) k h e = absurd (cc e)

-- A code is read as a kind of event exactly when it is the code of that kind.
pub kind_of_code-eq-ok_iff :
    (n : ℕ) (k : BusEventKind) → (kind_of_code n ≡ ok k) ↔ (kind_code k ≡ n)
kind_of_code-eq-ok_iff n k = (
  λ e. code_of n (kind_of_code n) k (reads_back-all n) e,
  λ e. ap kind_of_code (sym e) ∙ kind_of_code-kind_code k,
)
