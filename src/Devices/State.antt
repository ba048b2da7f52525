-- ===== src/Devices/State.antt =====
-- The device snapshot and its interrupt sources (crates/zksm83-core/src/dmg.rs).
use zksm.Prelude.{
  ℕ, ◌^◌, Bool, false, Option, none, some, has_bits, bit_and, complement, if◌then◌else◌,
}
use zksm.Timer
use zksm.Timer.{Timer}
use zksm.Apu
use zksm.Apu.{Apu}

pub data Interrupt : Type 0 where
  v_blank lcd_stat timer serial joypad : Interrupt

unfoldable pub bit : Interrupt → ℕ
bit Interrupt.v_blank = 0
bit Interrupt.lcd_stat = 1
bit Interrupt.timer = 2
bit Interrupt.serial = 3
bit Interrupt.joypad = 4

unfoldable pub vector : Interrupt → ℕ
vector Interrupt.v_blank = 0x40
vector Interrupt.lcd_stat = 0x48
vector Interrupt.timer = 0x50
vector Interrupt.serial = 0x58
vector Interrupt.joypad = 0x60

-- `DmgDeviceState`
pub record Devices : Type 0 where
  pub interrupt_request : ℕ
  pub interrupt_enable : ℕ
  pub serial_data : ℕ
  pub serial_control : ℕ
  pub serial_cycles_remaining : ℕ
  pub timer : Timer
  pub apu : Apu
  pub lcd_control : ℕ
  pub lcd_status_control : ℕ
  pub scroll_y : ℕ
  pub scroll_x : ℕ
  pub background_palette : ℕ
  pub object_palette_zero : ℕ
  pub object_palette_one : ℕ
  pub window_y : ℕ
  pub window_x : ℕ
  pub line_compare : ℕ
  pub ppu_line : ℕ
  pub ppu_dot : ℕ
  pub joypad_select : ℕ
  pub joypad_buttons : ℕ
  pub dma_source_high : ℕ
  pub dma_index : ℕ
  pub dma_active : Bool
  pub dma_owed : ℕ

abbrev pub empty : Devices
empty = record {
  interrupt_request = 0;
  interrupt_enable = 0;
  serial_data = 0;
  serial_control = 0;
  serial_cycles_remaining = 0;
  timer = Timer.empty;
  apu = Apu.empty;
  lcd_control = 0;
  lcd_status_control = 0;
  scroll_y = 0;
  scroll_x = 0;
  background_palette = 0;
  object_palette_zero = 0;
  object_palette_one = 0;
  window_y = 0;
  window_x = 0;
  line_compare = 0;
  ppu_line = 0;
  ppu_dot = 0;
  joypad_select = 0;
  joypad_buttons = 0;
  dma_source_high = 0;
  dma_index = 0;
  dma_active = false;
  dma_owed = 0;
}

abbrev pub dmg_post_boot : Devices
dmg_post_boot = record empty {
  interrupt_request = 0x01;
  serial_control = 0x7e;
  timer = Timer.dmg_post_boot;
  apu = Apu.dmg_post_boot;
  lcd_control = 0x91;
  background_palette = 0xfc;
  object_palette_zero = 0xff;
  object_palette_one = 0xff;
}

unfoldable pub first_pending : ℕ → Option Interrupt
first_pending pending =
    if has_bits pending 0x01
    then some Interrupt.v_blank
    else if has_bits pending 0x02
    then some Interrupt.lcd_stat
    else if has_bits pending 0x04
    then some Interrupt.timer
    else if has_bits pending 0x08
    then some Interrupt.serial
    else if has_bits pending 0x10
    then some Interrupt.joypad
    else none

unfoldable pub pending_interrupt : Devices → Option Interrupt
unfolding first_pending
pending_interrupt d = first_pending (bit_and d.interrupt_request d.interrupt_enable)

unfoldable pub acknowledge_interrupt : Interrupt → Devices → Devices
unfolding bit
acknowledge_interrupt i d = record d {
  interrupt_request = bit_and d.interrupt_request (complement (2 ^ bit i));
}
