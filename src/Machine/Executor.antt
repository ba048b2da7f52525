-- ===== src/Machine/Executor.antt =====
-- The executor of a step (crates/zksm83-core/src/bus.rs, `Executor`) as a state monad with errors.
-- A method that takes `&mut self` is an action; an error drops the executor.
pub mod Access
pub mod Data
use zksm.Prelude.{
  ℕ, Bool, true, false, List, [], ◌∷◌, ◌++◌, Option, none, some, Result, ok, err, if◌then◌else◌,
}
use zksm.Flags.{Flags}
use zksm.Mapper.{Mapper}
use zksm.Devices.State.{Devices}
use zksm.Memory.Log.{LogAccumulator}
use zksm.Machine.State.{VmState, CpuState, Registers, ImeState, RunState, MachineProfile}
use zksm.Machine.Bus.{
  BusWitness, WitnessKind, WitnessRequest, BusEvent, StepError, witness_kind, request_kind,
}

pub data BusAuthentication : Type 0 where
  merkle lookup : BusAuthentication

pub record Executor : Type 0 where
  pub state : VmState
  pub witnesses : List BusWitness
  pub events : List BusEvent
  pub authentication : BusAuthentication

-- `Executor::new`; a step input is its witnesses.
abbrev pub new_executor : VmState → List BusWitness → BusAuthentication → Executor
new_executor state input authentication = record {
  state = state;
  witnesses = input;
  events = [];
  authentication = authentication;
}

abbrev pub M : Type 0 → Type 0
M A = Executor → Result StepError (A × Executor)

module _ {A : Type 0} where
  unfoldable pub pure : A → M A
  pure a x = ok (a, x)

  unfoldable pub fail : StepError → M A
  fail e x = err e

  -- `result?`, the error converted.
  unfoldable pub lift : {E : Type 0} → (E → StepError) → Result E A → M A
  lift convert (ok a) x = ok (a, x)
  lift convert (err e) x = err (convert e)

  -- `option.ok_or(error)?`
  unfoldable pub require_some : StepError → Option A → M A
  require_some e (some a) x = ok (a, x)
  require_some e none x = err e

module _ {A B : Type 0} where
  abbrev pub continue :
      (A → M B) → Result StepError (A × Executor) → Result StepError (B × Executor)
  continue k (ok r) = k r.0 r.1
  continue k (err e) = err e

  infixl 10 ◌>>=◌ ◌>>◌
  unfoldable pub ◌>>=◌ : M A → (A → M B) → M B
  ◌>>=◌ m k x = continue k (m x)

  abbrev pub ◌>>◌ : M A → M B → M B
  m >> n = m >>= λ _. n

-- Reads of the state.
unfoldable pub cpu : M CpuState
cpu x = ok (x.state.cpu, x)

unfoldable pub devices : M Devices
devices x = ok (x.state.dmg_devices, x)

unfoldable pub mbc3 : M Mapper
mbc3 x = ok (x.state.mbc3, x)

unfoldable pub profile : M MachineProfile
profile x = ok (x.state.profile, x)

unfoldable pub input_log : M LogAccumulator
input_log x = ok (x.state.input_log, x)

unfoldable pub output_log : M LogAccumulator
output_log x = ok (x.state.output_log, x)

-- The setters of `CpuState`.
abbrev pub with_cpu : CpuState → Executor → Executor
with_cpu c x = record x { state = record x.state { cpu = c } }

unfoldable pub set_registers : Registers → M Unit
set_registers registers x = ok (tt, with_cpu (record x.state.cpu { registers = registers }) x)

unfoldable pub set_flags : Flags → M Unit
set_flags flags x = ok (tt, with_cpu (record x.state.cpu { flags = flags }) x)

unfoldable pub set_pc : ℕ → M Unit
set_pc pc x = ok (tt, with_cpu (record x.state.cpu { pc = pc }) x)

unfoldable pub set_sp : ℕ → M Unit
set_sp sp x = ok (tt, with_cpu (record x.state.cpu { sp = sp }) x)

unfoldable pub set_ime : ImeState → M Unit
set_ime ime x = ok (tt, with_cpu (record x.state.cpu { ime = ime }) x)

unfoldable pub set_run_state : RunState → M Unit
set_run_state run_state x = ok (tt, with_cpu (record x.state.cpu { run_state = run_state }) x)

unfoldable pub set_m_cycles : ℕ → M Unit
set_m_cycles m_cycles x = ok (tt, with_cpu (record x.state.cpu { m_cycles = m_cycles }) x)

-- The setters of `VmState`.
unfoldable pub set_mbc3 : Mapper → M Unit
set_mbc3 m x = ok (tt, record x { state = record x.state { mbc3 = m } })

unfoldable pub set_devices : Devices → M Unit
set_devices d x = ok (tt, record x { state = record x.state { dmg_devices = d } })

unfoldable pub set_input_log : LogAccumulator → M Unit
set_input_log log x = ok (tt, record x { state = record x.state { input_log = log } })

unfoldable pub set_output_log : LogAccumulator → M Unit
set_output_log log x = ok (tt, record x { state = record x.state { output_log = log } })

-- `self.events.push(event)`
unfoldable pub push_event : BusEvent → M Unit
push_event event x = ok (tt, record x { events = x.events ++ (event ∷ []) })

abbrev pub same_kind : WitnessKind → WitnessKind → Bool
same_kind WitnessKind.rom WitnessKind.rom = true
same_kind WitnessKind.memory_read WitnessKind.memory_read = true
same_kind WitnessKind.memory_write WitnessKind.memory_write = true
same_kind WitnessKind.input_byte WitnessKind.input_byte = true
same_kind _ _ = false

abbrev pub first_witness : WitnessRequest → List BusWitness → M BusWitness
first_witness request [] x = err (StepError.missing_witness request)
first_witness request (witness ∷ rest) x =
    if same_kind (witness_kind witness) (request_kind request)
    then ok (witness, record x { witnesses = rest })
    else err (StepError.unexpected_witness request (witness_kind witness))

unfoldable pub next : WitnessRequest → M BusWitness
unfolding witness_kind request_kind
next request x = first_witness request x.witnesses x
