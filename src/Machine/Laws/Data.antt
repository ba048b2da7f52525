-- ===== src/Machine/Laws/Data.antt =====
-- Fetches, data accesses and OAM DMA (crates/zksm83-core/src/bus.rs) under the laws.
use zksm.Prelude.{ℕ, ◌≡◌, refl, List, some}
use zksm.Mapper.{ExternalWindow}
use zksm.Memory.Address.{AddressOwner}
use zksm.Memory.Witness.{RomRead, MemoryRead}
use zksm.Machine.Bus.{BusRole, BusWitness}
use zksm.Machine.Executor.{Executor}
use zksm.Machine.Executor.Access.{fetch_event, instruction_event}
use zksm.Machine.Executor.Data.{
  read_dmg_mmio, write_dmg_mmio, write_control, fetch, read_memory, read_instruction_memory,
  write_memory, read_input, read_dmg_joypad, write_output, fetch_owned, fetch_instruction,
  read_window, read_owned, read_data, write_window, write_owned, write_data, copy_dma_byte,
}
use zksm.Machine.Triple.{
  Triple, Keeps, Triple-bind, Triple-bind_kept, Triple-pure, Triple-fail, Triple-given, Keeps-pure,
  keeps_rules,
}
use zksm.Machine.Laws.{Phase, idle, checked, Laws, carries}
use zksm.Machine.Laws.Dma.{recorded, copy_dma_byte-Triple}
use zksm.Machine.Laws.Bus.{
  require_cpu_dma_access-Keeps, require_cpu_ppu_access-Keeps, as_input_byte-Triple,
  take_rom_read-Triple, take_memory_read-Triple, take_memory_write-Triple,
}

module _ {sha256 : List ℕ → List ℕ} {f : Executor → Executor} {H : Phase → Executor → Type 0}
    (laws : Laws sha256 f H) where
  read_dmg_mmio-Keeps : (address : ℕ) → Keeps f (H idle) (read_dmg_mmio address)
  unfolding read_dmg_mmio carries
  read_dmg_mmio-Keeps address = Triple-bind_kept _ _ (laws.access.get_devices idle) λ d.
      Triple-bind_kept _ _ (search keeps_rules)
        λ value. Triple-bind_kept _ _ (laws.access.silent_event _ refl) λ _. Keeps-pure _

  write_dmg_mmio-Keeps : (address value : ℕ) → Keeps f (H idle) (write_dmg_mmio address value)
  unfolding write_dmg_mmio carries
  write_dmg_mmio-Keeps address value = Triple-bind_kept _ _ (laws.access.get_devices idle) λ d.
      Triple-bind_kept _ _ (search keeps_rules)
        λ r. Triple-bind_kept _ _ (laws.put_devices _ idle) λ _. laws.access.silent_event _ refl

  write_control-Keeps : (address value : ℕ) → Keeps f (H idle) (write_control address value)
  unfolding write_control carries
  write_control-Keeps address value = Triple-bind_kept _ _ (laws.access.get_profile idle) λ p.
      Triple-bind_kept _ _ (laws.access.get_mbc3 idle)
        λ m. Triple-bind_kept _ _ (laws.put_mbc3 _) λ _. laws.access.silent_event _ refl

  fetch_event-Triple :
      (role : BusRole) (r : RomRead)
      → Triple f
          (H (checked (BusWitness.rom r)))
          (fetch_event role r)
          (λ event y. (carries event ≡ some (BusWitness.rom r)) × H (checked (BusWitness.rom r)) y)
  unfolding fetch_event carries
  fetch_event-Triple BusRole.opcode_fetch r = Triple-pure _ (λ x h. (refl, h))
  fetch_event-Triple BusRole.immediate_read r = Triple-pure _ (λ x h. (refl, h))
  fetch_event-Triple BusRole.data_read r = Triple-pure _ (λ x h. (refl, h))
  fetch_event-Triple BusRole.data_write r = Triple-fail _

  instruction_event-Triple :
      (role : BusRole) (r : MemoryRead)
      → Triple f (H (checked (BusWitness.memory_read r))) (instruction_event role r) (λ event y.
        (carries event ≡ some (BusWitness.memory_read r))
        × H (checked (BusWitness.memory_read r)) y)
  unfolding instruction_event carries
  instruction_event-Triple BusRole.opcode_fetch r = Triple-pure _ (λ x h. (refl, h))
  instruction_event-Triple BusRole.immediate_read r = Triple-pure _ (λ x h. (refl, h))
  instruction_event-Triple BusRole.data_read r = Triple-fail _
  instruction_event-Triple BusRole.data_write r = Triple-fail _

  fetch-Keeps : (address : ℕ) (role : BusRole) → Keeps f (H idle) (fetch sha256 address role)
  unfolding fetch
  fetch-Keeps address role = Triple-bind_kept _ _ (laws.access.get_profile idle) λ p.
      Triple-bind_kept _ _ (laws.access.get_mbc3 idle) λ m.
        Triple-bind _ _ (take_rom_read-Triple laws.access _ _ _) λ r.
          Triple-bind _ _ (fetch_event-Triple role r)
            λ event. Triple-given (recorded laws.access (BusWitness.rom r) event r.value)

  read_memory-Keeps : (a p : ℕ) → Keeps f (H idle) (read_memory sha256 a p)
  unfolding read_memory carries
  read_memory-Keeps a p =
      Triple-bind _ _ (take_memory_read-Triple laws.access _ _ _)
        λ r. recorded laws.access (BusWitness.memory_read r) _ r.value refl

  read_instruction_memory-Keeps :
      (a : ℕ) (role : BusRole) → Keeps f (H idle) (read_instruction_memory sha256 a role)
  unfolding read_instruction_memory
  read_instruction_memory-Keeps a role =
      Triple-bind _ _ (take_memory_read-Triple laws.access _ _ _) λ r.
        Triple-bind _ _ (instruction_event-Triple role r)
          λ event. Triple-given (recorded laws.access (BusWitness.memory_read r) event r.value)

  write_memory-Keeps : (a p v : ℕ) → Keeps f (H idle) (write_memory sha256 a p v)
  unfolding write_memory carries
  write_memory-Keeps a p v =
      Triple-bind _ _ (take_memory_write-Triple laws.access _ _ _)
        λ w. Triple-bind _ _ (laws.access.check_write w) λ _. laws.access.record_event _ _ refl

  read_input-Keeps : Keeps f (H idle) (read_input sha256)
  unfolding read_input carries
  read_input-Keeps = Triple-bind _ _ (laws.access.take _) λ w.
      Triple-bind _ _ (as_input_byte-Triple laws.access w) λ v.
        Triple-bind_kept _ _ (laws.get_input_log _) λ log.
          Triple-bind_kept _ _ (search keeps_rules) λ next_log.
            Triple-bind_kept _ _ (laws.put_input_log next_log _)
              λ _. recorded laws.access _ _ v refl

  read_dmg_joypad-Keeps : Keeps f (H idle) (read_dmg_joypad sha256)
  unfolding read_dmg_joypad carries
  read_dmg_joypad-Keeps = Triple-bind _ _ (laws.access.take _) λ w.
      Triple-bind _ _ (as_input_byte-Triple laws.access w) λ v.
        Triple-bind_kept _ _ (laws.get_input_log _) λ log.
          Triple-bind_kept _ _ (search keeps_rules) λ next_log.
            Triple-bind_kept _ _ (laws.access.get_devices _) λ d.
              Triple-bind_kept _ _ (laws.put_devices _ _) λ _.
                Triple-bind_kept _ _ (laws.put_input_log next_log _)
                  λ _. recorded laws.access _ _ _ refl

  write_output-Keeps : (v : ℕ) → Keeps f (H idle) (write_output sha256 v)
  unfolding write_output carries
  write_output-Keeps v = Triple-bind_kept _ _ (laws.get_output_log _) λ log.
      Triple-bind_kept _ _ (search keeps_rules) λ next_log.
        Triple-bind_kept _ _ (laws.put_output_log next_log) λ _. laws.access.silent_event _ refl

  fetch_owned-Keeps :
      (o : AddressOwner) (a : ℕ) (role : BusRole) → Keeps f (H idle) (fetch_owned sha256 o a role)
  unfolding fetch_owned
  fetch_owned-Keeps AddressOwner.rom a role = fetch-Keeps a role
  fetch_owned-Keeps AddressOwner.memory a role = read_instruction_memory-Keeps a role
  fetch_owned-Keeps AddressOwner.input a role = Triple-fail _
  fetch_owned-Keeps AddressOwner.output a role = Triple-fail _
  fetch_owned-Keeps AddressOwner.dmg_mmio a role = Triple-fail _
  fetch_owned-Keeps AddressOwner.dmg_echo a role = Triple-fail _
  fetch_owned-Keeps AddressOwner.unowned a role = Triple-fail _

  read_window-Keeps : (w : ExternalWindow) (a : ℕ) → Keeps f (H idle) (read_window sha256 w a)
  unfolding read_window carries
  read_window-Keeps (ExternalWindow.ram p) a = read_memory-Keeps a p
  read_window-Keeps (ExternalWindow.rtc_register s) a = Triple-fail _
  read_window-Keeps ExternalWindow.unavailable a =
      Triple-bind_kept _ _ (laws.access.silent_event _ refl) λ _. Keeps-pure _

  read_owned-Keeps : (o : AddressOwner) (a : ℕ) → Keeps f (H idle) (read_owned sha256 o a)
  unfolding read_owned
  read_owned-Keeps AddressOwner.rom a = fetch-Keeps a _
  read_owned-Keeps AddressOwner.memory a = read_memory-Keeps a a
  read_owned-Keeps AddressOwner.input a = read_input-Keeps
  read_owned-Keeps AddressOwner.output a = Triple-fail _
  read_owned-Keeps AddressOwner.dmg_mmio a = read_dmg_mmio-Keeps a
  read_owned-Keeps AddressOwner.dmg_echo a = Triple-fail _
  read_owned-Keeps AddressOwner.unowned a = Triple-fail _

  write_window-Keeps : (w : ExternalWindow) (a v : ℕ) → Keeps f (H idle) (write_window sha256 w a v)
  unfolding write_window carries
  write_window-Keeps (ExternalWindow.ram p) a v = write_memory-Keeps a p v
  write_window-Keeps (ExternalWindow.rtc_register s) a v = Triple-fail _
  write_window-Keeps ExternalWindow.unavailable a v = laws.access.silent_event _ refl

  write_owned-Keeps : (o : AddressOwner) (a v : ℕ) → Keeps f (H idle) (write_owned sha256 o a v)
  unfolding write_owned
  write_owned-Keeps AddressOwner.rom a v = Triple-fail _
  write_owned-Keeps AddressOwner.memory a v = write_memory-Keeps a a v
  write_owned-Keeps AddressOwner.input a v = Triple-fail _
  write_owned-Keeps AddressOwner.output a v = write_output-Keeps v
  write_owned-Keeps AddressOwner.dmg_mmio a v = write_dmg_mmio-Keeps a v
  write_owned-Keeps AddressOwner.dmg_echo a v = Triple-fail _
  write_owned-Keeps AddressOwner.unowned a v = Triple-fail _

  ruleset access_rules = (
    keeps_rules, fetch_owned-Keeps, read_window-Keeps, read_owned-Keeps, write_window-Keeps,
    write_owned-Keeps, write_control-Keeps, read_dmg_joypad-Keeps,
  )

  pub fetch_instruction-Keeps :
      (a : ℕ) (role : BusRole) → Keeps f (H idle) (fetch_instruction sha256 a role)
  unfolding fetch_instruction
  fetch_instruction-Keeps a role =
      search
        (
          access_rules,
          laws.access.get_profile,
          require_cpu_dma_access-Keeps laws.access,
          require_cpu_ppu_access-Keeps laws.access,
        )
        depth 12

  pub read_data-Keeps : (a : ℕ) → Keeps f (H idle) (read_data sha256 a)
  unfolding read_data
  read_data-Keeps a =
      search
        (
          access_rules,
          laws.access.get_profile,
          laws.access.get_mbc3,
          require_cpu_dma_access-Keeps laws.access,
          require_cpu_ppu_access-Keeps laws.access,
        )
        depth 12

  pub write_data-Keeps : (a v : ℕ) → Keeps f (H idle) (write_data sha256 a v)
  unfolding write_data
  write_data-Keeps a v =
      search
        (
          access_rules,
          laws.access.get_profile,
          laws.access.get_mbc3,
          require_cpu_dma_access-Keeps laws.access,
          require_cpu_ppu_access-Keeps laws.access,
        )
        depth 12

  pub copy_dma_byte-Keeps : Keeps f (H idle) (copy_dma_byte sha256)
  copy_dma_byte-Keeps =
      copy_dma_byte-Triple laws.access
        (Triple-bind_kept _ _ (laws.access.get_devices idle) λ d. laws.put_devices _ idle)
