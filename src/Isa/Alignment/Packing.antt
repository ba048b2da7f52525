-- ===== src/Isa/Alignment/Packing.antt =====
-- `packed` of crates/zksm83-isa/src/alignment.rs, field by field.
use native.Mathlib.Nat.{two-pow-succ}
use zksm.Prelude.{
  ℕ, zero, suc, ◌+◌, ◌*◌, ◌/◌, ◌^◌, ◌<◌, ◌≡◌, bit_or, bit_or_step, zero-bit_or, ok, arith, leb, ltb,
  false, refl, ap, sym, ◌%◌, ◌∙◌, List, [], ◌∷◌, map, and_then-ok, ok_injective, get_elem?,
  Bool-cases, inl, inr, ◌≤◌,
}
use zksm.Isa.Alignment.Rows.{
  Field, Packing, append_packed, width_limit, append_all, AlignedInstruction, fields, packed,
  unwrap_or_zero,
}

mul_pow_suc : (v k : ℕ) → v * 2 ^ suc k ≡ v * 2 ^ k * 2
mul_pow_suc v k = grind (arith, two-pow-succ k)

pow_add : (j k : ℕ) → 2 ^ (j + k) ≡ 2 ^ k * 2 ^ j
pow_add j zero = grind arith
pow_add j (suc k) = grind (arith, two-pow-succ k, two-pow-succ (j + k), pow_add j k)

bit_or_double : (a m : ℕ) → bit_or a (m * 2) ≡ bit_or (a / 2) m * 2 + a % 2
bit_or_double a m =
    let halved : m * 2 / 2 ≡ m = omega arith in
    omega (arith, bit_or_step a (m * 2), ap (bit_or (a / 2)) halved)

-- Bits placed above a number are added to it.
pub bit_or-above : (k a v : ℕ) → a < 2 ^ k → bit_or a (v * 2 ^ k) ≡ a + v * 2 ^ k
bit_or-above zero a v h =
    let empty : a ≡ 0 = omega arith in rw empty (omega (arith, zero-bit_or (v * 2 ^ 0)))
bit_or-above (suc k) a v h =
    let half : a / 2 < 2 ^ k = omega (arith, two-pow-succ k) in
    rw (mul_pow_suc v k) (omega (arith, bit_or_double a (v * 2 ^ k), bit_or-above k (a / 2) v half))

width_limit_le : (b v : ℕ) → leb (width_limit b) v ≡ false → v < 2 ^ b
width_limit_le b v h = ground arith

-- An accepted field fits its width and is placed above the earlier ones.
append_packed-ok :
    (p : Packing) (f : Field) (q : Packing)
    → append_packed p f ≡ ok q
    → p.packed < 2 ^ p.shift
    → (q.packed ≡ p.packed + f.value * 2 ^ p.shift)
      × (q.shift ≡ p.shift + f.bits)
      × (f.value < 2 ^ f.bits)
unfolding append_packed
append_packed-ok p f q h small = elim (Bool-cases (leb (width_limit f.bits) f.value)) [
  | inl wide ↦ absurd (grind arith)
  | inr fits ↦
      let bound = width_limit_le f.bits f.value fits in
      let above = bit_or-above p.shift p.packed f.value small in
      elim (Bool-cases (ltb 128 (p.shift + f.bits))) [
        | inl long ↦ absurd (grind arith)
        | inr short ↦ grind arith
      ]
]

shifted_bound : (a v b k : ℕ) → a < 2 ^ k → v < 2 ^ b → a + v * 2 ^ k < 2 ^ (k + b)
shifted_bound a v b k ha hv =
    let scaled : (v + 1) * 2 ^ k ≤ 2 ^ b * 2 ^ k = grind arith in grind (arith, pow_add k b)

suc_mul : (v m : ℕ) → suc v * m ≡ v * m + m
suc_mul v m = grind arith

digits_unique : (a a' v v' m : ℕ) → a < m → a' < m → a + v * m ≡ a' + v' * m → (a ≡ a') × (v ≡ v')
digits_unique a a' zero zero m ha ha' h = (omega arith, refl)
digits_unique a a' zero (suc v') m ha ha' h = absurd (omega (arith, suc_mul v' m))
digits_unique a a' (suc v) zero m ha ha' h = absurd (omega (arith, suc_mul v m))
digits_unique a a' (suc v) (suc v') m ha ha' h =
    let rest = digits_unique a a' v v' m ha ha' (omega (arith, suc_mul v m, suc_mul v' m)) in
    (rest.0, ap suc rest.1)

-- Two field lists of the same widths that pack to the same state have the same values.
append_all_injective :
    (fs gs : List Field) (p r q q' : Packing)
    → map (λ f. f.bits) fs ≡ map (λ f. f.bits) gs
    → p.shift ≡ r.shift
    → p.packed < 2 ^ p.shift
    → r.packed < 2 ^ r.shift
    → append_all p fs ≡ ok q
    → append_all r gs ≡ ok q'
    → q.packed ≡ q'.packed
    → (p.packed ≡ r.packed) × (map (λ f. f.value) fs ≡ map (λ f. f.value) gs)
unfolding append_all
append_all_injective [] [] p r q q' w s hp hr e e' end = grind arith
append_all_injective [] (g ∷ gs) p r q q' w s hp hr e e' end = absurd (grind arith)
append_all_injective (f ∷ fs) [] p r q q' w s hp hr e e' end = absurd (grind arith)
append_all_injective (f ∷ fs) (g ∷ gs) p r q q' w s hp hr e e' end =
    let first = and_then-ok (append_packed p f) (λ x. append_all x fs) q e in
    let second = and_then-ok (append_packed r g) (λ x. append_all x gs) q' e' in
    let p1 = first.0 in
    let r1 = second.0 in
    let a = append_packed-ok p f p1 first.1 hp in
    let b = append_packed-ok r g r1 second.1 hr in
    let widths : f.bits ≡ g.bits = grind arith in
    let rest =
      append_all_injective fs gs p1 r1 q q' (grind arith) (grind arith)
        (rw (a.0, a.1) (shifted_bound p.packed f.value f.bits p.shift hp a.2))
        (rw (b.0, b.1) (shifted_bound r.packed g.value g.bits r.shift hr b.2)) first.2 second.2
        end in
    let moduli : 2 ^ p.shift ≡ 2 ^ r.shift = ap (λ k. 2 ^ k) s in
    let digits =
      digits_unique p.packed r.packed f.value g.value (2 ^ p.shift) hp (grind arith)
        (grind arith) in
    (digits.0, cc (digits.1, rest.1))

-- The row that a list of field values, in the order of `fields`, spells.
abbrev spelled : List ℕ → AlignedInstruction
spelled vs =
    let at : ℕ → ℕ = λ i. unwrap_or_zero (get_elem? vs i) in
    record {
      prefix = at 0;
      opcode = at 1;
      family_id = at 2;
      operation = at 3;
      argument_zero = at 4;
      argument_one = at 5;
      byte_len = at 6;
      base_m_cycles = at 7;
      taken_m_cycles = at 8;
      pc_rule = at 9;
      flag_rule = at 10;
      register_reads = at 11;
      register_writes = at 12;
      opcode_fetches = at 13;
      immediate_reads = at 14;
      data_reads = at 15;
      data_writes = at 16;
      taken_data_reads = at 17;
      taken_data_writes = at 18;
    }

spelled-fields : (row : AlignedInstruction) → spelled (map (λ f. f.value) (fields row)) ≡ row
unfolding fields
spelled-fields row = refl

-- Two alignment rows that pack to the same number are the same row.
pub packed_injective :
    (row other : AlignedInstruction) (w : ℕ) → packed row ≡ ok w → packed other ≡ ok w → row ≡ other
unfolding packed fields
packed_injective row other w e e' =
    let start : Packing = record { packed = 0; shift = 0 } in
    let first = and_then-ok (append_all start (fields row)) (λ p. ok p.packed) w e in
    let second = and_then-ok (append_all start (fields other)) (λ p. ok p.packed) w e' in
    let values =
      append_all_injective (fields row) (fields other) start start first.0 second.0 refl refl
        (omega arith) (omega arith) first.1 second.1
        (ok_injective first.0.packed second.0.packed (first.2 ∙ sym second.2)) in
    sym (spelled-fields row) ∙ ap spelled values.1 ∙ spelled-fields other
