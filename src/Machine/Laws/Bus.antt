-- ===== src/Machine/Laws/Bus.antt =====
-- The accesses of the executor (crates/zksm83-core/src/bus.rs) under the laws.
use zksm.Prelude.{ℕ, List}
use zksm.Machine.Bus.{BusRole, BusWitness}
use zksm.Machine.Executor.{Executor}
use zksm.Machine.Executor.Access.{
  require_address, require_physical_address, require_cpu_dma_access, require_cpu_ppu_access, as_rom,
  as_memory_read, as_memory_write, as_input_byte, take_rom_read, take_memory_read,
  take_memory_write,
}
use zksm.Machine.Triple.{
  Triple, Keeps, Triple-bind, Triple-bind_kept, Triple-pure, Triple-fail, Triple-if, keeps_rules,
}
use zksm.Machine.Laws.{Phase, idle, taken, checked, AccessLaws}

module _ {f : Executor → Executor} {P : Executor → Type 0} where
  require_address-Keeps : (e a : ℕ) (role : BusRole) → Keeps f P (require_address e a role)
  unfolding require_address
  require_address-Keeps e a role = search keeps_rules

  require_physical_address-Keeps :
      (e a : ℕ) (role : BusRole) → Keeps f P (require_physical_address e a role)
  unfolding require_physical_address
  require_physical_address-Keeps e a role = search keeps_rules

ruleset address_rules = (keeps_rules, require_address-Keeps, require_physical_address-Keeps)

module _ {sha256 : List ℕ → List ℕ} {f : Executor → Executor} {H : Phase → Executor → Type 0}
    (laws : AccessLaws sha256 f H) where
  pub require_cpu_dma_access-Keeps :
      (address : ℕ) → Keeps f (H idle) (require_cpu_dma_access address)
  unfolding require_cpu_dma_access
  require_cpu_dma_access-Keeps address = search (keeps_rules, laws.get_profile, laws.get_devices)

  pub require_cpu_ppu_access-Keeps :
      (address : ℕ) → Keeps f (H idle) (require_cpu_ppu_access address)
  unfolding require_cpu_ppu_access
  require_cpu_ppu_access-Keeps address = search (keeps_rules, laws.get_profile, laws.get_devices)

  as_rom-Triple :
      (w : BusWitness) → Triple f (H (taken w)) (as_rom w) (λ r. H (taken (BusWitness.rom r)))
  unfolding as_rom
  as_rom-Triple (BusWitness.rom r) = Triple-pure r (λ x h. h)
  as_rom-Triple (BusWitness.memory_read r) = Triple-fail _
  as_rom-Triple (BusWitness.memory_write r) = Triple-fail _
  as_rom-Triple (BusWitness.input_byte r) = Triple-fail _

  as_memory_read-Triple :
      (w : BusWitness)
      → Triple f (H (taken w)) (as_memory_read w) (λ r. H (taken (BusWitness.memory_read r)))
  unfolding as_memory_read
  as_memory_read-Triple (BusWitness.memory_read r) = Triple-pure r (λ x h. h)
  as_memory_read-Triple (BusWitness.rom r) = Triple-fail _
  as_memory_read-Triple (BusWitness.memory_write r) = Triple-fail _
  as_memory_read-Triple (BusWitness.input_byte r) = Triple-fail _

  as_memory_write-Triple :
      (w : BusWitness)
      → Triple f (H (taken w)) (as_memory_write w) (λ r. H (taken (BusWitness.memory_write r)))
  unfolding as_memory_write
  as_memory_write-Triple (BusWitness.memory_write r) = Triple-pure r (λ x h. h)
  as_memory_write-Triple (BusWitness.rom r) = Triple-fail _
  as_memory_write-Triple (BusWitness.memory_read r) = Triple-fail _
  as_memory_write-Triple (BusWitness.input_byte r) = Triple-fail _

  pub as_input_byte-Triple :
      (w : BusWitness)
      → Triple f (H (taken w)) (as_input_byte w) (λ v. H (checked (BusWitness.input_byte v)))
  unfolding as_input_byte
  as_input_byte-Triple (BusWitness.input_byte v) = Triple-pure v (laws.check_input v)
  as_input_byte-Triple (BusWitness.rom r) = Triple-fail _
  as_input_byte-Triple (BusWitness.memory_read r) = Triple-fail _
  as_input_byte-Triple (BusWitness.memory_write r) = Triple-fail _

  pub take_rom_read-Triple :
      (a p : ℕ) (role : BusRole)
      → Triple f (H idle) (take_rom_read sha256 a p role) (λ r. H (checked (BusWitness.rom r)))
  unfolding take_rom_read
  take_rom_read-Triple a p role = Triple-bind _ _ (laws.take _) λ w.
      Triple-bind _ _ (as_rom-Triple w) λ r. Triple-bind_kept _ _ (require_address-Keeps _ _ _) λ _.
        Triple-bind_kept _ _ (require_physical_address-Keeps _ _ _)
          λ _. Triple-bind _ _ (laws.check_rom r) λ _. Triple-pure r (λ x h. h)

  pub take_memory_read-Triple :
      (a p : ℕ) (role : BusRole)
      → Triple f
          (H idle)
          (take_memory_read sha256 a p role)
          (λ r. H (checked (BusWitness.memory_read r)))
  unfolding take_memory_read
  take_memory_read-Triple a p role = Triple-bind _ _ (laws.take _) λ w.
      Triple-bind _ _ (as_memory_read-Triple w) λ r.
        Triple-bind_kept _ _ (require_address-Keeps _ _ _) λ _.
          Triple-bind_kept _ _ (require_physical_address-Keeps _ _ _)
            λ _. Triple-bind _ _ (laws.check_read r) λ _. Triple-pure r (λ x h. h)

  pub take_memory_write-Triple :
      (a p v : ℕ)
      → Triple f (H idle) (take_memory_write a p v) (λ w. H (taken (BusWitness.memory_write w)))
  unfolding take_memory_write
  take_memory_write-Triple a p v = Triple-bind _ _ (laws.take _) λ w.
      Triple-bind _ _ (as_memory_write-Triple w) λ r.
        Triple-bind_kept _ _ (require_address-Keeps _ _ _) λ _.
          Triple-bind_kept _ _ (require_physical_address-Keeps _ _ _)
            λ _. Triple-if _ _ _ (Triple-fail _) (Triple-pure r (λ x h. h))
