-- ===== src/Devices/Idle.antt =====
-- `halt_idle_m_cycles` of crates/zksm83-core/src/dmg.rs against single M-cycles.
use zksm.Prelude.{
  ap, sym, ◌∙◌, ℕ, zero, suc, ◌+◌, ◌≤◌, ◌<◌, ◌≡◌, ◌⊎◌, inl, inr, refl, ◌-◌, if◌then◌else◌, Bool,
  true, false, Bool-cases, iterate, arith,
}
use zksm.Devices.State.{Devices, pending_interrupt}
use zksm.Devices.Clock.{advance_m_cycles}
use zksm.Devices.Halt.{is_pending, idle_loop, halt_idle_m_cycles}

-- Whether an interrupt is pending `n` single M-cycles on.
abbrev pub pending_after : ℕ → Devices → Bool
pending_after n d = is_pending (pending_interrupt (iterate n (advance_m_cycles 1) d))

chosen_bounds :
    (pending : Bool) (elapsed rest : ℕ)
    → elapsed ≤ 6
    → (elapsed ≤ rest) × (rest ≤ 6)
    → (elapsed ≤ (if pending then elapsed else rest)) × ((if pending then elapsed else rest) ≤ 6)
chosen_bounds true elapsed rest h r = (omega arith, h)
chosen_bounds false elapsed rest h r = r

idle_loop-bounds :
    (left elapsed : ℕ) (d : Devices)
    → left + elapsed ≡ 7
    → elapsed ≤ 6
    → (elapsed ≤ idle_loop left elapsed d) × (idle_loop left elapsed d ≤ 6)
unfolding idle_loop
idle_loop-bounds zero elapsed d h le = (omega arith, omega arith)
idle_loop-bounds (suc zero) elapsed d h le = chosen_bounds _ elapsed 6 le (omega arith, omega arith)
idle_loop-bounds (suc (suc left)) elapsed d h le =
    let rest =
      idle_loop-bounds (suc left) (elapsed + 1) (advance_m_cycles 1 d) (omega arith)
        (omega arith) in
    chosen_bounds _ elapsed _ le (omega arith, rest.1)

going_on :
    (pending : Bool) (elapsed rest : ℕ)
    → pending ≡ false
    → (if pending then elapsed else rest) ≡ rest
going_on true elapsed rest h = absurd (cc h)
going_on false elapsed rest h = refl

stopping :
    (pending : Bool) (elapsed rest : ℕ)
    → pending ≡ true
    → (if pending then elapsed else rest) ≡ elapsed
stopping true elapsed rest h = refl
stopping false elapsed rest h = absurd (cc h)

-- A round that does not stop has nothing pending.
idle_loop-silent :
    (left elapsed k : ℕ) (d : Devices)
    → left + elapsed ≡ 7
    → elapsed + k < idle_loop left elapsed d
    → pending_after (suc k) d ≡ false
unfolding idle_loop iterate
idle_loop-silent zero elapsed k d h lt = absurd (omega arith)
idle_loop-silent (suc left) elapsed k d h lt =
    let next = advance_m_cycles 1 d in
    elim (Bool-cases (is_pending (pending_interrupt next))) [
      | inl stop ↦
          let stopped = stopping _ elapsed (idle_loop left (elapsed + 1) next) stop in
          absurd (omega arith)
      | inr go ↦
          let gone = going_on _ elapsed (idle_loop left (elapsed + 1) next) go in
          let first_round : (k ≡ 0) ⊎ (0 < k) = ground arith in
          elim first_round [
            | inl start ↦ rw start go
            | inr later ↦
                let same : suc (k - 1) ≡ k = omega arith in
                ap (λ (m : ℕ). pending_after (suc m) d) (sym same)
                ∙ idle_loop-silent left (elapsed + 1) (k - 1) next (omega arith) (omega arith)
          ]
    ]

idle_loop-stops :
    (left elapsed : ℕ) (d : Devices)
    → left + elapsed ≡ 7
    → (idle_loop left elapsed d ≡ 6)
      ⊎ ((n : ℕ) × (n + elapsed ≡ idle_loop left elapsed d) × (pending_after (suc n) d ≡ true))
unfolding idle_loop iterate
idle_loop-stops zero elapsed d h = inl refl
idle_loop-stops (suc left) elapsed d h =
    let next = advance_m_cycles 1 d in
    elim (Bool-cases (is_pending (pending_interrupt next))) [
      | inl stop ↦
          let stopped = stopping _ elapsed (idle_loop left (elapsed + 1) next) stop in
          inr (0, omega arith, stop)
      | inr go ↦
          let gone = going_on _ elapsed (idle_loop left (elapsed + 1) next) go in
          elim (idle_loop-stops left (elapsed + 1) next (omega arith)) [
            | inl six ↦ inl (gone ∙ six)
            | inr (n, place, hit) ↦ inr (suc n, omega arith, hit)
          ]
    ]

silent_before :
    (k : ℕ) (d : Devices) → (k ≡ 0) ⊎ ((idle_loop 6 1 d ≤ k) ⊎ (pending_after k d ≡ false))
silent_before zero d = inl refl
silent_before (suc k) d =
    let place : (idle_loop 6 1 d ≤ suc k) ⊎ (1 + k < idle_loop 6 1 d) = ground arith in
    elim place [
      | inl past ↦ inr (inl past)
      | inr before ↦ inr (inr (idle_loop-silent 6 1 k d refl before))
    ]

-- The HALT batch takes from one to six M-cycles; an interrupt is pending at its end if it takes
-- fewer than six, and after none of the M-cycles before.
pub halt_idle_m_cycles-first :
    (d : Devices) (k : ℕ)
    → (0 < halt_idle_m_cycles d)
      × (halt_idle_m_cycles d ≤ 6)
      × ((halt_idle_m_cycles d ≡ 6) ⊎ (pending_after (halt_idle_m_cycles d) d ≡ true))
      × ((k ≡ 0) ⊎ ((halt_idle_m_cycles d ≤ k) ⊎ (pending_after k d ≡ false)))
unfolding halt_idle_m_cycles
halt_idle_m_cycles-first d k =
    let bounds = idle_loop-bounds 6 1 d refl (omega arith) in
    (
      omega arith,
      bounds.1,
      elim (idle_loop-stops 6 1 d refl) [
        | inl six ↦ inl six
        | inr (n, place, hit) ↦
            let exact : suc n ≡ idle_loop 6 1 d = omega arith in
            inr (ap (λ (m : ℕ). pending_after m d) (sym exact) ∙ hit)
      ],
      silent_before k d,
    )
