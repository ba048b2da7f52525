-- ===== src/Machine/Laws/Dma.antt =====
-- OAM DMA (crates/zksm83-core/src/bus.rs, `copy_dma_byte`) under the laws of accesses.
use zksm.Prelude.{ℕ, ◌≡◌, refl, List, some}
use zksm.Mapper.{ExternalWindow}
use zksm.Memory.Address.{AddressOwner}
use zksm.Machine.Bus.{BusWitness, BusEvent}
use zksm.Machine.Executor.{Executor, ◌>>=◌, push_event, pure, devices, set_devices}
use zksm.Devices.Lines.{complete_dma_byte}
use zksm.Machine.Executor.Data.{
  read_dma_rom, read_dma_memory, read_dma_window, read_dma_source, copy_dma_byte,
}
use zksm.Machine.Triple.{
  Triple, Keeps, Triple-bind, Triple-bind_kept, Triple-pure, Triple-fail, Triple-if, keeps_rules,
}
use zksm.Machine.Laws.{Phase, idle, checked, AccessLaws, carries}
use zksm.Machine.Laws.Bus.{take_rom_read-Triple, take_memory_read-Triple, take_memory_write-Triple}

module _ {sha256 : List ℕ → List ℕ} {f : Executor → Executor} {H : Phase → Executor → Type 0}
    (laws : AccessLaws sha256 f H) where
  -- An event that records the witness at hand, and the value of the access.
  pub recorded :
      {A : Type 0} (w : BusWitness) (event : BusEvent) (a : A)
      → carries event ≡ some w
      → Triple f (H (checked w)) (push_event event >>= λ _. pure a) (λ _. H idle)
  recorded w event a e = Triple-bind _ _ (laws.record_event event w e) λ _. Triple-pure a (λ x h. h)

  read_dma_rom-Keeps : (a : ℕ) → Keeps f (H idle) (read_dma_rom sha256 a)
  unfolding read_dma_rom carries
  read_dma_rom-Keeps a = Triple-bind_kept _ _ (laws.get_profile idle) λ p.
      Triple-bind_kept _ _ (laws.get_mbc3 idle)
        λ m. Triple-bind _ _ (take_rom_read-Triple laws _ _ _) λ r. recorded _ _ r.value refl

  read_dma_memory-Keeps : (a p : ℕ) → Keeps f (H idle) (read_dma_memory sha256 a p)
  unfolding read_dma_memory carries
  read_dma_memory-Keeps a p =
      Triple-bind _ _ (take_memory_read-Triple laws _ _ _) λ r. recorded _ _ r.value refl

  read_dma_window-Keeps :
      (w : ExternalWindow) (a : ℕ) → Keeps f (H idle) (read_dma_window sha256 w a)
  unfolding read_dma_window
  read_dma_window-Keeps (ExternalWindow.ram p) a = read_dma_memory-Keeps a p
  read_dma_window-Keeps (ExternalWindow.rtc_register s) a = Triple-fail _
  read_dma_window-Keeps ExternalWindow.unavailable a = Triple-fail _

  read_dma_source-Keeps : (o : AddressOwner) (a : ℕ) → Keeps f (H idle) (read_dma_source sha256 o a)
  unfolding read_dma_source
  read_dma_source-Keeps AddressOwner.rom a = read_dma_rom-Keeps a
  read_dma_source-Keeps AddressOwner.memory a =
      search
        (keeps_rules, laws.get_profile, laws.get_mbc3, read_dma_window-Keeps, read_dma_memory-Keeps)
  read_dma_source-Keeps AddressOwner.input a = Triple-fail _
  read_dma_source-Keeps AddressOwner.output a = Triple-fail _
  read_dma_source-Keeps AddressOwner.dmg_mmio a = Triple-fail _
  read_dma_source-Keeps AddressOwner.dmg_echo a = Triple-fail _
  read_dma_source-Keeps AddressOwner.unowned a = Triple-fail _

  pub copy_dma_byte-Triple :
      {Q : Unit → Executor → Type 0}
      → Triple f (H idle) (devices >>= λ d. set_devices (complete_dma_byte d)) Q
      → Triple f (H idle) (copy_dma_byte sha256) Q
  unfolding copy_dma_byte carries
  copy_dma_byte-Triple h = Triple-bind_kept _ _ (laws.get_devices idle) λ d.
      Triple-bind_kept _ _ (laws.get_profile idle) λ p.
        Triple-bind_kept _ _ (Triple-if _ _ _ (Triple-fail _) (read_dma_source-Keeps _ _)) λ v.
          Triple-bind _ _ (take_memory_write-Triple laws _ _ _) λ w.
            Triple-bind _ _ (laws.check_write w)
              λ _. Triple-bind _ _ (laws.record_event _ _ refl) λ _. h
