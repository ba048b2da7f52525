-- ===== src/Devices/Clock.antt =====
-- `advance_m_cycles` and the long advance of a quiet HALT (crates/zksm83-core/src/dmg.rs).
use zksm.Prelude.{ℕ, zero, suc, ◌-◌, ◌*◌, if◌then◌else◌, ◌==◌, bit_or, min, iterate}
use zksm.Timer
use zksm.Devices.State.{Devices}
use zksm.Devices.Ppu.{advance_ppu_t_cycle}
use zksm.Devices.Lines.{advance_serial_t_cycles}

unfoldable pub advance_timer : ℕ → Devices → Devices
advance_timer t_cycles d =
    let (requested, t) = Timer.advance_t_cycles t_cycles d.timer in
    record d { timer = t; interrupt_request = bit_or d.interrupt_request requested }

-- `saturating_mul(4)` of a `u8`.
abbrev pub t_cycles_of : ℕ → ℕ
t_cycles_of m_cycles = min 255 (m_cycles * 4)

unfoldable pub advance_m_cycles : ℕ → Devices → Devices
unfolding advance_timer advance_serial_t_cycles
advance_m_cycles m_cycles d =
    let t_cycles = t_cycles_of m_cycles in
    iterate t_cycles advance_ppu_t_cycle
      (advance_serial_t_cycles t_cycles (advance_timer t_cycles d))

-- Chunks of at most 63 M-cycles, on fuel: each chunk of a remaining count is at least one.
unfoldable pub quiet_loop : ℕ → ℕ → Devices → Devices
quiet_loop zero m_cycles d = d
quiet_loop (suc fuel) m_cycles d =
    let chunk = min m_cycles 63 in
    let rest = quiet_loop fuel (m_cycles - chunk) (advance_m_cycles chunk d) in
    if m_cycles == 0 then d else rest

unfoldable pub advance_quiet_long : ℕ → Devices → Devices
unfolding quiet_loop
advance_quiet_long m_cycles d = quiet_loop m_cycles m_cycles d
