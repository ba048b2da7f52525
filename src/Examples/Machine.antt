-- ===== src/Examples/Machine.antt =====
-- Concrete instances of the theorems on the steps of the machine.
use zksm.Prelude.{
  ℕ, ◌≡◌, refl, List, [], ◌∷◌, replicate, some, Result, ok, err, true, false, ◌<◌, ◌+◌, ◌↔◌,
  u64_limit, arith,
}
use zksm.Memory.Hash.{CommitmentRoot, zero_root}
use zksm.Memory.Witness.{MerklePath, RomRead, MemoryWrite}
use zksm.Machine.State.{
  VmState, MachineProfile, CpuState, vm_profile_initial, dmg_post_boot_mbc3_initial,
  dmg_post_boot_mbc3_unchecked, is_dmg_post_boot_mbc3,
}
use zksm.Machine.Bus.{BusWitness, BusEventKind, StepEffects, StepError, StepKind}
use zksm.Machine.Executor.{BusAuthentication}
use zksm.Machine.Step.{apply}
use zksm.Isa.Decode.{decode_cb}
use zksm.Devices.State.{dmg_post_boot}
use zksm.Machine.Bus.Kinds.{kind_code, kind_of_code}
use zksm.Machine.Bus.Codes.{kind_of_code-eq-ok_iff}
use zksm.Machine.Transition.{increment_of}
use zksm.Machine.Laws.Apply.{duration_of}
use zksm.Machine.Authentication.{with_commitments, apply-lookup}
use zksm.Machine.Witnesses.{carried, apply-carried}
use zksm.Machine.Replay.{replay, apply-replay}
use zksm.Machine.Cycles.{apply-m_cycles}
use zksm.Machine.Dma.{Steps, dma-paid}

-- A digest that every input shares, so that witnesses are easy to write down.
abbrev constant_digest : List ℕ → List ℕ
constant_digest x = replicate 32 0

abbrev zero_path : MerklePath
zero_path = record { siblings = replicate 20 zero_root }

abbrev rom_byte : ℕ → ℕ → BusWitness
rom_byte address value =
    BusWitness.rom
      (record { address = address; physical_address = address; value = value; path = zero_path })

-- `LD (0xc000), A` at the start of ROM.
abbrev store_witnesses : List BusWitness
store_witnesses =
    rom_byte 0 0xea
    ∷ rom_byte 1 0x00
    ∷ rom_byte 2 0xc0
    ∷ BusWitness.memory_write (record {
      address = 0xc000;
      physical_address = 0xc000;
      before = 7;
      after = 0;
      path = zero_path;
    })
    ∷ []

abbrev first_state : VmState
first_state = vm_profile_initial constant_digest zero_root zero_root

-- OAM DMA that owes its first byte.
abbrev dma_state : VmState
dma_state = record (dmg_post_boot_mbc3_initial constant_digest zero_root zero_root) {
  dmg_devices = record dmg_post_boot { dma_source_high = 0xc0; dma_active = true; dma_owed = 1 };
}

abbrev dma_witnesses : List BusWitness
dma_witnesses =
    BusWitness.memory_read
      (record { address = 0xc000; physical_address = 0xc000; value = 9; path = zero_path })
    ∷ BusWitness.memory_write (record {
      address = 0xfe00;
      physical_address = 0xfe00;
      before = 0;
      after = 9;
      path = zero_path;
    })
    ∷ []

abbrev no_effects : StepEffects
no_effects = record {
  kind = StepKind.halt_wake;
  instruction = decode_cb 0;
  branch_taken = false;
  bus_events = [];
}

-- What a step returns, or a default.
abbrev returned : Result StepError (VmState × StepEffects) → VmState × StepEffects
returned (ok r) = r
returned (err e) = (first_state, no_effects)

abbrev stored : VmState × StepEffects
stored = returned (apply constant_digest first_state store_witnesses BusAuthentication.merkle)

abbrev copied : VmState × StepEffects
copied = returned (apply constant_digest dma_state dma_witnesses BusAuthentication.merkle)

store_runs :
    apply constant_digest first_state store_witnesses BusAuthentication.merkle
    ≡ ok (stored.0, stored.1)
unfolding zksm.Isa.Decode.operand8 zksm.Isa.Decode.register16 zksm.Isa.Decode.stack_register16
    zksm.Isa.Decode.condition zksm.Isa.Decode.alu_operation zksm.Isa.Decode.cb_rotate
    zksm.Isa.Decode.indirect_accumulator zksm.Isa.Decode.block_zero_misc
    zksm.Isa.Decode.decode_block_zero zksm.Isa.Decode.decode_block_one
    zksm.Isa.Decode.decode_block_two zksm.Isa.Decode.decode_block_three_z_one
    zksm.Isa.Decode.decode_block_three zksm.Isa.Decode.decode_defined_primary
    zksm.Isa.Decode.is_undefined zksm.Isa.Decode.decode_primary zksm.Isa.Decode.decode_cb
    zksm.Isa.Metadata.class zksm.Isa.Metadata.alu_flags zksm.Isa.Metadata.flag_effect
    zksm.Isa.Metadata.preserves_flags zksm.Isa.Metadata.direction_bus
    zksm.Isa.Metadata.operand_transfer_bus zksm.Isa.Metadata.data_pattern
    zksm.Isa.Metadata.bus_pattern zksm.Isa.Metadata.state_access zksm.Isa.Metadata.instruction
    zksm.Isa.Access.mask zksm.Isa.Access.register_mask zksm.Isa.Access.stack_register_mask
    zksm.Isa.Access.register_component zksm.Isa.Access.operand_read zksm.Isa.Access.operand_write
    zksm.Isa.Access.indirect_read zksm.Isa.Access.transfer_access zksm.Isa.Access.destination_access
    zksm.Isa.Access.operation_access zksm.Isa.Alignment.pc_rule_code zksm.Isa.Alignment.pc_rule
    zksm.Isa.Alignment.flag_action_code zksm.Isa.Alignment.condition_code
    zksm.Isa.Alignment.operand8_code zksm.Isa.Alignment.register16_code
    zksm.Isa.Alignment.stack_register_code zksm.Isa.Alignment.indirect_code
    zksm.Isa.Alignment.direction_code zksm.Isa.Alignment.alu_code
    zksm.Isa.Alignment.cb_operation_code zksm.Isa.Alignment.cb_descriptor
    zksm.Isa.Alignment.descriptor zksm.Isa.Alignment.Rows.component_bits
    zksm.Isa.Alignment.Rows.flag_rule zksm.Isa.Alignment.Rows.from_decoded
    zksm.Isa.Alignment.Rows.append_packed zksm.Isa.Alignment.Rows.append_all
    zksm.Isa.Alignment.Rows.fields zksm.Isa.Alignment.Rows.packed zksm.Isa.Types.class_code
    zksm.Machine.State.profile_code zksm.Machine.State.is_dmg_post_boot_mbc3
    zksm.Machine.State.mbc3_cartridge_profile zksm.Machine.State.dmg_post_boot_for_cartridge
    zksm.Machine.State.ime_code zksm.Machine.State.run_state_code
    zksm.Machine.State.can_execute_instruction zksm.Machine.State.vm_profile_initial
    zksm.Machine.State.dmg_post_boot_mbc3_unchecked zksm.Machine.State.dmg_post_boot_mbc3_initial
    zksm.Machine.State.dmg_post_boot_mbc3_profile_initial zksm.Machine.State.from_parts
    zksm.Machine.State.from_parts_with_mbc3 zksm.Machine.State.vm_from_profile_parts
    zksm.Machine.Bus.witness_kind zksm.Machine.Bus.request_kind zksm.Machine.Bus.Kinds.kind_code
    zksm.Machine.Bus.Kinds.kind_of_code zksm.Machine.Bus.Kinds.event_kind
    zksm.Machine.Bus.Kinds.blank zksm.Machine.Bus.Kinds.transcript_event zksm.Machine.Executor.pure
    zksm.Machine.Executor.fail zksm.Machine.Executor.lift zksm.Machine.Executor.require_some
    zksm.Machine.Executor.◌>>=◌ zksm.Machine.Executor.cpu zksm.Machine.Executor.devices
    zksm.Machine.Executor.mbc3 zksm.Machine.Executor.profile zksm.Machine.Executor.input_log
    zksm.Machine.Executor.output_log zksm.Machine.Executor.set_registers
    zksm.Machine.Executor.set_flags zksm.Machine.Executor.set_pc zksm.Machine.Executor.set_sp
    zksm.Machine.Executor.set_ime zksm.Machine.Executor.set_run_state
    zksm.Machine.Executor.set_m_cycles zksm.Machine.Executor.set_mbc3
    zksm.Machine.Executor.set_devices zksm.Machine.Executor.set_input_log
    zksm.Machine.Executor.set_output_log zksm.Machine.Executor.push_event zksm.Machine.Executor.next
    zksm.Machine.Executor.Access.state_owner zksm.Machine.Executor.Access.require_address
    zksm.Machine.Executor.Access.require_physical_address
    zksm.Machine.Executor.Access.require_cpu_dma_access
    zksm.Machine.Executor.Access.require_cpu_ppu_access zksm.Machine.Executor.Access.as_rom
    zksm.Machine.Executor.Access.as_memory_read zksm.Machine.Executor.Access.as_memory_write
    zksm.Machine.Executor.Access.as_input_byte zksm.Machine.Executor.Access.fetch_event
    zksm.Machine.Executor.Access.instruction_event zksm.Machine.Executor.Access.set_memory_root
    zksm.Machine.Executor.Access.authenticate_rom zksm.Machine.Executor.Access.authenticate_read
    zksm.Machine.Executor.Access.authenticate_write zksm.Machine.Executor.Access.take_rom_read
    zksm.Machine.Executor.Access.take_memory_read zksm.Machine.Executor.Access.take_memory_write
    zksm.Machine.Executor.Data.read_dmg_mmio zksm.Machine.Executor.Data.write_dmg_mmio
    zksm.Machine.Executor.Data.write_control zksm.Machine.Executor.Data.fetch
    zksm.Machine.Executor.Data.read_memory zksm.Machine.Executor.Data.read_instruction_memory
    zksm.Machine.Executor.Data.write_memory zksm.Machine.Executor.Data.read_input
    zksm.Machine.Executor.Data.read_dmg_joypad zksm.Machine.Executor.Data.write_output
    zksm.Machine.Executor.Data.fetch_owned zksm.Machine.Executor.Data.fetch_instruction
    zksm.Machine.Executor.Data.read_window zksm.Machine.Executor.Data.read_owned
    zksm.Machine.Executor.Data.read_data zksm.Machine.Executor.Data.write_window
    zksm.Machine.Executor.Data.write_owned zksm.Machine.Executor.Data.write_data
    zksm.Machine.Executor.Data.read_dma_rom zksm.Machine.Executor.Data.read_dma_memory
    zksm.Machine.Executor.Data.read_dma_window zksm.Machine.Executor.Data.read_dma_source
    zksm.Machine.Executor.Data.copy_dma_byte zksm.Machine.Operands.push_immediate
    zksm.Machine.Operands.immediate_byte zksm.Machine.Operands.immediate_word
    zksm.Machine.Operands.register8_of zksm.Machine.Operands.with_register8
    zksm.Machine.Operands.register16_of zksm.Machine.Operands.register8
    zksm.Machine.Operands.set_register8 zksm.Machine.Operands.register16
    zksm.Machine.Operands.set_register16 zksm.Machine.Operands.set_accumulator
    zksm.Machine.Operands.stack_register_of zksm.Machine.Operands.stack_register
    zksm.Machine.Operands.set_stack_register zksm.Machine.Operands.bit_mask
    zksm.Machine.Operands.indirect_of zksm.Machine.Operands.indirect_address
    zksm.Machine.Operands.update_hl_after_indirect zksm.Machine.Operands.condition_of
    zksm.Machine.Operands.condition_holds zksm.Machine.Operands.taken_if
    zksm.Machine.Operands.read_operand zksm.Machine.Operands.write_operand
    zksm.Machine.Operands.transfer_accumulator zksm.Machine.Operands.store_sp_absolute
    zksm.Machine.Operands.push_word zksm.Machine.Operands.pop_word
    zksm.Machine.Local.invariant_error zksm.Machine.Local.execute_control
    zksm.Machine.Local.execute_alu16 zksm.Machine.Local.relative_target
    zksm.Machine.Local.absolute_target zksm.Machine.Local.execute_jump
    zksm.Machine.Local.execute_interrupt zksm.Machine.Local.execute_low_power
    zksm.Machine.Execute.execute_load zksm.Machine.Execute.execute_alu8
    zksm.Machine.Execute.execute_rotate zksm.Machine.Execute.execute_bit_of
    zksm.Machine.Execute.execute_bit zksm.Machine.Execute.return_if zksm.Machine.Execute.call_if
    zksm.Machine.Execute.execute_call_return zksm.Machine.Execute.execute_stack
    zksm.Machine.Execute.execute_class zksm.Machine.Execute.execute
    zksm.Machine.Transition.add_m_cycles zksm.Machine.Transition.run_devices
    zksm.Machine.Transition.add_machine_timing zksm.Machine.Transition.increment_of
    zksm.Machine.Transition.add_timing zksm.Machine.Transition.apply_delayed_ime
    zksm.Machine.Transition.marker_of zksm.Machine.Transition.machine_event_marker
    zksm.Machine.Transition.defined_instruction zksm.Machine.Transition.enter_halt_bug
    zksm.Machine.Transition.fetch_and_advance zksm.Machine.Transition.fetch_first_opcode
    zksm.Machine.Transition.fetch_loop zksm.Machine.Transition.fetch_immediates
    zksm.Machine.Transition.push_interrupt_return zksm.Machine.Transition.fetch_cb
    zksm.Machine.Transition.fetch_primary zksm.Machine.Transition.fetch_operation
    zksm.Machine.Transition.run_instruction zksm.Machine.Transition.enter_interrupt
    zksm.Machine.Transition.skip_halt zksm.Machine.Step.idle_event
    zksm.Machine.Step.classify_dmg_machine_event zksm.Machine.Step.machine_step
    zksm.Machine.Step.append_events zksm.Machine.Step.with_isa_row zksm.Machine.Step.with_isa
    zksm.Machine.Step.with_transcripts zksm.Machine.Step.finalize zksm.Machine.Step.finish
    zksm.Machine.Step.run_event zksm.Machine.Step.execute_step
    zksm.Machine.Step.event_or_instruction zksm.Machine.Step.dma_byte zksm.Machine.Step.dmg_step
    zksm.Machine.Step.step_body zksm.Machine.Step.apply zksm.Memory.Witness.parent
    zksm.Memory.Witness.climb zksm.Memory.Witness.derive_root zksm.Memory.Witness.mutable_root
    zksm.Memory.Witness.verify_rom_read zksm.Memory.Witness.verify_read
    zksm.Memory.Witness.verify_write zksm.Memory.Witness.transcript_read
    zksm.Memory.Witness.transcript_write zksm.Memory.Address.owner zksm.Memory.Address.dmg_owner
    zksm.Memory.Log.canonical_bytes zksm.Memory.Log.empty zksm.Memory.Log.append
    zksm.Memory.Log.append_all zksm.Memory.Log.commit zksm.Memory.Log.empty_bus_transcript
    zksm.Memory.Log.append_event zksm.Memory.Log.empty_isa_transcript zksm.Memory.Log.append_row
    zksm.Memory.Hash.code zksm.Memory.Hash.le_bytes zksm.Memory.Hash.preimage
    zksm.Memory.Hash.hash_parts zksm.Flags.from_byte zksm.Flags.from_bits zksm.Flags.zero_flag
    zksm.Flags.subtract_flag zksm.Flags.half_carry_flag zksm.Flags.carry_flag zksm.Alu.increment
    zksm.Alu.decrement zksm.Alu.add_hl zksm.Alu.add_signed_to_sp zksm.Alu.add zksm.Alu.subtract
    zksm.Alu.logical zksm.Alu.apply_alu zksm.Alu.shifted zksm.Alu.rotate_shift
    zksm.Alu.decimal_adjust zksm.Mapper.byte_length zksm.Mapper.max_bank
    zksm.Mapper.from_profile_parts zksm.Mapper.map_rom_for zksm.Mapper.external_window_for
    zksm.Mapper.apply_control_write_for zksm.Devices.State.bit zksm.Devices.State.vector
    zksm.Devices.State.first_pending zksm.Devices.State.pending_interrupt
    zksm.Devices.State.acknowledge_interrupt zksm.Devices.Lines.visible_joypad
    zksm.Devices.Lines.request_joypad_falling_edge zksm.Devices.Lines.sample_joypad
    zksm.Devices.Lines.advance_serial_t_cycles zksm.Devices.Lines.dma_source_address
    zksm.Devices.Lines.dma_destination_address zksm.Devices.Lines.schedule_dma_bytes
    zksm.Devices.Lines.complete_dma_byte zksm.Devices.Mmio.read_video zksm.Devices.Mmio.read_mmio
    zksm.Devices.Mmio.write_lcd_control zksm.Devices.Mmio.write_joypad_select
    zksm.Devices.Mmio.write_serial_control zksm.Devices.Mmio.start_dma zksm.Devices.Mmio.write_video
    zksm.Devices.Mmio.write_register zksm.Devices.Mmio.write_mmio zksm.Devices.Ppu.lcd_enabled
    zksm.Devices.Ppu.ppu_mode zksm.Devices.Ppu.visible_lcd_status zksm.Devices.Ppu.stat_signal
    zksm.Devices.Ppu.request_stat_rising_edge zksm.Devices.Ppu.advance_dot
    zksm.Devices.Ppu.advance_ppu_t_cycle zksm.Devices.Ppu.cpu_vram_blocked
    zksm.Devices.Ppu.cpu_oam_blocked zksm.Devices.Clock.advance_timer
    zksm.Devices.Clock.advance_m_cycles zksm.Devices.Clock.quiet_loop
    zksm.Devices.Clock.advance_quiet_long zksm.Timer.read zksm.Timer.write_counter
    zksm.Timer.write_modulo zksm.Timer.written zksm.Timer.write zksm.Timer.detector_input
    zksm.Timer.advance_reload_pipeline zksm.Timer.increment_counter zksm.Timer.count_edge
    zksm.Timer.tick zksm.Timer.advance_loop zksm.Timer.advance_t_cycles
    zksm.Timer.t_cycles_until_interrupt
store_runs = refl

copy_runs :
    apply constant_digest dma_state dma_witnesses BusAuthentication.merkle ≡ ok (copied.0, copied.1)
unfolding zksm.Isa.Decode.operand8 zksm.Isa.Decode.register16 zksm.Isa.Decode.stack_register16
    zksm.Isa.Decode.condition zksm.Isa.Decode.alu_operation zksm.Isa.Decode.cb_rotate
    zksm.Isa.Decode.indirect_accumulator zksm.Isa.Decode.block_zero_misc
    zksm.Isa.Decode.decode_block_zero zksm.Isa.Decode.decode_block_one
    zksm.Isa.Decode.decode_block_two zksm.Isa.Decode.decode_block_three_z_one
    zksm.Isa.Decode.decode_block_three zksm.Isa.Decode.decode_defined_primary
    zksm.Isa.Decode.is_undefined zksm.Isa.Decode.decode_primary zksm.Isa.Decode.decode_cb
    zksm.Isa.Metadata.class zksm.Isa.Metadata.alu_flags zksm.Isa.Metadata.flag_effect
    zksm.Isa.Metadata.preserves_flags zksm.Isa.Metadata.direction_bus
    zksm.Isa.Metadata.operand_transfer_bus zksm.Isa.Metadata.data_pattern
    zksm.Isa.Metadata.bus_pattern zksm.Isa.Metadata.state_access zksm.Isa.Metadata.instruction
    zksm.Isa.Access.mask zksm.Isa.Access.register_mask zksm.Isa.Access.stack_register_mask
    zksm.Isa.Access.register_component zksm.Isa.Access.operand_read zksm.Isa.Access.operand_write
    zksm.Isa.Access.indirect_read zksm.Isa.Access.transfer_access zksm.Isa.Access.destination_access
    zksm.Isa.Access.operation_access zksm.Isa.Alignment.pc_rule_code zksm.Isa.Alignment.pc_rule
    zksm.Isa.Alignment.flag_action_code zksm.Isa.Alignment.condition_code
    zksm.Isa.Alignment.operand8_code zksm.Isa.Alignment.register16_code
    zksm.Isa.Alignment.stack_register_code zksm.Isa.Alignment.indirect_code
    zksm.Isa.Alignment.direction_code zksm.Isa.Alignment.alu_code
    zksm.Isa.Alignment.cb_operation_code zksm.Isa.Alignment.cb_descriptor
    zksm.Isa.Alignment.descriptor zksm.Isa.Alignment.Rows.component_bits
    zksm.Isa.Alignment.Rows.flag_rule zksm.Isa.Alignment.Rows.from_decoded
    zksm.Isa.Alignment.Rows.append_packed zksm.Isa.Alignment.Rows.append_all
    zksm.Isa.Alignment.Rows.fields zksm.Isa.Alignment.Rows.packed zksm.Isa.Types.class_code
    zksm.Machine.State.profile_code zksm.Machine.State.is_dmg_post_boot_mbc3
    zksm.Machine.State.mbc3_cartridge_profile zksm.Machine.State.dmg_post_boot_for_cartridge
    zksm.Machine.State.ime_code zksm.Machine.State.run_state_code
    zksm.Machine.State.can_execute_instruction zksm.Machine.State.vm_profile_initial
    zksm.Machine.State.dmg_post_boot_mbc3_unchecked zksm.Machine.State.dmg_post_boot_mbc3_initial
    zksm.Machine.State.dmg_post_boot_mbc3_profile_initial zksm.Machine.State.from_parts
    zksm.Machine.State.from_parts_with_mbc3 zksm.Machine.State.vm_from_profile_parts
    zksm.Machine.Bus.witness_kind zksm.Machine.Bus.request_kind zksm.Machine.Bus.Kinds.kind_code
    zksm.Machine.Bus.Kinds.kind_of_code zksm.Machine.Bus.Kinds.event_kind
    zksm.Machine.Bus.Kinds.blank zksm.Machine.Bus.Kinds.transcript_event zksm.Machine.Executor.pure
    zksm.Machine.Executor.fail zksm.Machine.Executor.lift zksm.Machine.Executor.require_some
    zksm.Machine.Executor.◌>>=◌ zksm.Machine.Executor.cpu zksm.Machine.Executor.devices
    zksm.Machine.Executor.mbc3 zksm.Machine.Executor.profile zksm.Machine.Executor.input_log
    zksm.Machine.Executor.output_log zksm.Machine.Executor.set_registers
    zksm.Machine.Executor.set_flags zksm.Machine.Executor.set_pc zksm.Machine.Executor.set_sp
    zksm.Machine.Executor.set_ime zksm.Machine.Executor.set_run_state
    zksm.Machine.Executor.set_m_cycles zksm.Machine.Executor.set_mbc3
    zksm.Machine.Executor.set_devices zksm.Machine.Executor.set_input_log
    zksm.Machine.Executor.set_output_log zksm.Machine.Executor.push_event zksm.Machine.Executor.next
    zksm.Machine.Executor.Access.state_owner zksm.Machine.Executor.Access.require_address
    zksm.Machine.Executor.Access.require_physical_address
    zksm.Machine.Executor.Access.require_cpu_dma_access
    zksm.Machine.Executor.Access.require_cpu_ppu_access zksm.Machine.Executor.Access.as_rom
    zksm.Machine.Executor.Access.as_memory_read zksm.Machine.Executor.Access.as_memory_write
    zksm.Machine.Executor.Access.as_input_byte zksm.Machine.Executor.Access.fetch_event
    zksm.Machine.Executor.Access.instruction_event zksm.Machine.Executor.Access.set_memory_root
    zksm.Machine.Executor.Access.authenticate_rom zksm.Machine.Executor.Access.authenticate_read
    zksm.Machine.Executor.Access.authenticate_write zksm.Machine.Executor.Access.take_rom_read
    zksm.Machine.Executor.Access.take_memory_read zksm.Machine.Executor.Access.take_memory_write
    zksm.Machine.Executor.Data.read_dmg_mmio zksm.Machine.Executor.Data.write_dmg_mmio
    zksm.Machine.Executor.Data.write_control zksm.Machine.Executor.Data.fetch
    zksm.Machine.Executor.Data.read_memory zksm.Machine.Executor.Data.read_instruction_memory
    zksm.Machine.Executor.Data.write_memory zksm.Machine.Executor.Data.read_input
    zksm.Machine.Executor.Data.read_dmg_joypad zksm.Machine.Executor.Data.write_output
    zksm.Machine.Executor.Data.fetch_owned zksm.Machine.Executor.Data.fetch_instruction
    zksm.Machine.Executor.Data.read_window zksm.Machine.Executor.Data.read_owned
    zksm.Machine.Executor.Data.read_data zksm.Machine.Executor.Data.write_window
    zksm.Machine.Executor.Data.write_owned zksm.Machine.Executor.Data.write_data
    zksm.Machine.Executor.Data.read_dma_rom zksm.Machine.Executor.Data.read_dma_memory
    zksm.Machine.Executor.Data.read_dma_window zksm.Machine.Executor.Data.read_dma_source
    zksm.Machine.Executor.Data.copy_dma_byte zksm.Machine.Operands.push_immediate
    zksm.Machine.Operands.immediate_byte zksm.Machine.Operands.immediate_word
    zksm.Machine.Operands.register8_of zksm.Machine.Operands.with_register8
    zksm.Machine.Operands.register16_of zksm.Machine.Operands.register8
    zksm.Machine.Operands.set_register8 zksm.Machine.Operands.register16
    zksm.Machine.Operands.set_register16 zksm.Machine.Operands.set_accumulator
    zksm.Machine.Operands.stack_register_of zksm.Machine.Operands.stack_register
    zksm.Machine.Operands.set_stack_register zksm.Machine.Operands.bit_mask
    zksm.Machine.Operands.indirect_of zksm.Machine.Operands.indirect_address
    zksm.Machine.Operands.update_hl_after_indirect zksm.Machine.Operands.condition_of
    zksm.Machine.Operands.condition_holds zksm.Machine.Operands.taken_if
    zksm.Machine.Operands.read_operand zksm.Machine.Operands.write_operand
    zksm.Machine.Operands.transfer_accumulator zksm.Machine.Operands.store_sp_absolute
    zksm.Machine.Operands.push_word zksm.Machine.Operands.pop_word
    zksm.Machine.Local.invariant_error zksm.Machine.Local.execute_control
    zksm.Machine.Local.execute_alu16 zksm.Machine.Local.relative_target
    zksm.Machine.Local.absolute_target zksm.Machine.Local.execute_jump
    zksm.Machine.Local.execute_interrupt zksm.Machine.Local.execute_low_power
    zksm.Machine.Execute.execute_load zksm.Machine.Execute.execute_alu8
    zksm.Machine.Execute.execute_rotate zksm.Machine.Execute.execute_bit_of
    zksm.Machine.Execute.execute_bit zksm.Machine.Execute.return_if zksm.Machine.Execute.call_if
    zksm.Machine.Execute.execute_call_return zksm.Machine.Execute.execute_stack
    zksm.Machine.Execute.execute_class zksm.Machine.Execute.execute
    zksm.Machine.Transition.add_m_cycles zksm.Machine.Transition.run_devices
    zksm.Machine.Transition.add_machine_timing zksm.Machine.Transition.increment_of
    zksm.Machine.Transition.add_timing zksm.Machine.Transition.apply_delayed_ime
    zksm.Machine.Transition.marker_of zksm.Machine.Transition.machine_event_marker
    zksm.Machine.Transition.defined_instruction zksm.Machine.Transition.enter_halt_bug
    zksm.Machine.Transition.fetch_and_advance zksm.Machine.Transition.fetch_first_opcode
    zksm.Machine.Transition.fetch_loop zksm.Machine.Transition.fetch_immediates
    zksm.Machine.Transition.push_interrupt_return zksm.Machine.Transition.fetch_cb
    zksm.Machine.Transition.fetch_primary zksm.Machine.Transition.fetch_operation
    zksm.Machine.Transition.run_instruction zksm.Machine.Transition.enter_interrupt
    zksm.Machine.Transition.skip_halt zksm.Machine.Step.idle_event
    zksm.Machine.Step.classify_dmg_machine_event zksm.Machine.Step.machine_step
    zksm.Machine.Step.append_events zksm.Machine.Step.with_isa_row zksm.Machine.Step.with_isa
    zksm.Machine.Step.with_transcripts zksm.Machine.Step.finalize zksm.Machine.Step.finish
    zksm.Machine.Step.run_event zksm.Machine.Step.execute_step
    zksm.Machine.Step.event_or_instruction zksm.Machine.Step.dma_byte zksm.Machine.Step.dmg_step
    zksm.Machine.Step.step_body zksm.Machine.Step.apply zksm.Memory.Witness.parent
    zksm.Memory.Witness.climb zksm.Memory.Witness.derive_root zksm.Memory.Witness.mutable_root
    zksm.Memory.Witness.verify_rom_read zksm.Memory.Witness.verify_read
    zksm.Memory.Witness.verify_write zksm.Memory.Witness.transcript_read
    zksm.Memory.Witness.transcript_write zksm.Memory.Address.owner zksm.Memory.Address.dmg_owner
    zksm.Memory.Log.canonical_bytes zksm.Memory.Log.empty zksm.Memory.Log.append
    zksm.Memory.Log.append_all zksm.Memory.Log.commit zksm.Memory.Log.empty_bus_transcript
    zksm.Memory.Log.append_event zksm.Memory.Log.empty_isa_transcript zksm.Memory.Log.append_row
    zksm.Memory.Hash.code zksm.Memory.Hash.le_bytes zksm.Memory.Hash.preimage
    zksm.Memory.Hash.hash_parts zksm.Flags.from_byte zksm.Flags.from_bits zksm.Flags.zero_flag
    zksm.Flags.subtract_flag zksm.Flags.half_carry_flag zksm.Flags.carry_flag zksm.Alu.increment
    zksm.Alu.decrement zksm.Alu.add_hl zksm.Alu.add_signed_to_sp zksm.Alu.add zksm.Alu.subtract
    zksm.Alu.logical zksm.Alu.apply_alu zksm.Alu.shifted zksm.Alu.rotate_shift
    zksm.Alu.decimal_adjust zksm.Mapper.byte_length zksm.Mapper.max_bank
    zksm.Mapper.from_profile_parts zksm.Mapper.map_rom_for zksm.Mapper.external_window_for
    zksm.Mapper.apply_control_write_for zksm.Devices.State.bit zksm.Devices.State.vector
    zksm.Devices.State.first_pending zksm.Devices.State.pending_interrupt
    zksm.Devices.State.acknowledge_interrupt zksm.Devices.Lines.visible_joypad
    zksm.Devices.Lines.request_joypad_falling_edge zksm.Devices.Lines.sample_joypad
    zksm.Devices.Lines.advance_serial_t_cycles zksm.Devices.Lines.dma_source_address
    zksm.Devices.Lines.dma_destination_address zksm.Devices.Lines.schedule_dma_bytes
    zksm.Devices.Lines.complete_dma_byte zksm.Devices.Mmio.read_video zksm.Devices.Mmio.read_mmio
    zksm.Devices.Mmio.write_lcd_control zksm.Devices.Mmio.write_joypad_select
    zksm.Devices.Mmio.write_serial_control zksm.Devices.Mmio.start_dma zksm.Devices.Mmio.write_video
    zksm.Devices.Mmio.write_register zksm.Devices.Mmio.write_mmio zksm.Devices.Ppu.lcd_enabled
    zksm.Devices.Ppu.ppu_mode zksm.Devices.Ppu.visible_lcd_status zksm.Devices.Ppu.stat_signal
    zksm.Devices.Ppu.request_stat_rising_edge zksm.Devices.Ppu.advance_dot
    zksm.Devices.Ppu.advance_ppu_t_cycle zksm.Devices.Ppu.cpu_vram_blocked
    zksm.Devices.Ppu.cpu_oam_blocked zksm.Devices.Clock.advance_timer
    zksm.Devices.Clock.advance_m_cycles zksm.Devices.Clock.quiet_loop
    zksm.Devices.Clock.advance_quiet_long zksm.Timer.read zksm.Timer.write_counter
    zksm.Timer.write_modulo zksm.Timer.written zksm.Timer.write zksm.Timer.detector_input
    zksm.Timer.advance_reload_pipeline zksm.Timer.increment_counter zksm.Timer.count_edge
    zksm.Timer.tick zksm.Timer.advance_loop zksm.Timer.advance_t_cycles
    zksm.Timer.t_cycles_until_interrupt
copy_runs = refl

apply-lookup_example :
    apply constant_digest first_state store_witnesses BusAuthentication.lookup
    ≡ ok (with_commitments stored.0 first_state, stored.1)
apply-lookup_example =
    apply-lookup constant_digest first_state store_witnesses stored.0 stored.1 store_runs

apply-carried_example : carried stored.1.bus_events ≡ store_witnesses
apply-carried_example =
    apply-carried constant_digest first_state store_witnesses BusAuthentication.merkle stored.0
      stored.1 store_runs

apply-replay_example :
    replay constant_digest zero_root stored.1.bus_events zero_root ≡ some stored.0.memory_root
unfolding vm_profile_initial
apply-replay_example =
    apply-replay constant_digest first_state store_witnesses stored.0 stored.1 store_runs

apply-m_cycles_example :
    (stored.0.cpu.m_cycles
      ≡ 0
        + duration_of stored.1.kind
            (increment_of stored.1.instruction.timing stored.1.branch_taken)
            first_state.dmg_devices)
    × (stored.0.cpu.m_cycles < u64_limit)
unfolding vm_profile_initial
apply-m_cycles_example =
    apply-m_cycles constant_digest first_state store_witnesses BusAuthentication.merkle stored.0
      stored.1 (ground arith) store_runs

dma-paid_example : (copied.0.dmg_devices.dma_owed ≡ 0) × (copied.0.cpu ≡ dma_state.cpu)
unfolding is_dmg_post_boot_mbc3 dmg_post_boot_mbc3_initial dmg_post_boot_mbc3_unchecked
dma-paid_example = dma-paid 1 dma_state copied.0 refl refl (
    Steps.after 0 dma_state copied.0 copied.0 dma_witnesses copied.1 copy_runs
      (Steps.here copied.0))

kind_of_code-eq-ok_iff_example :
    (kind_of_code 18 ≡ ok BusEventKind.dmg_dma_write) ↔ (kind_code BusEventKind.dmg_dma_write ≡ 18)
kind_of_code-eq-ok_iff_example = kind_of_code-eq-ok_iff 18 BusEventKind.dmg_dma_write
