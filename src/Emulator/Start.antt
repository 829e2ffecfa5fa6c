-- ===== src/Emulator/Start.antt =====
-- The start of the program: the constructors of the emulator's objects, `Emulator::Emulator` and
-- `main` of src/emulator.cc. A constructor takes the object's memory as it was, since the fields that
-- it leaves alone keep what was there.
use aarch64_emu.Base.{ℕ, Bool, true, false, Option, none, some, ltb, if◌then◌else◌}
use aarch64_emu.Base.{Outcome, ok, exit, undefined, ◌>>=◌}
use aarch64_emu.Mem
use aarch64_emu.Uart.{Uart}
use aarch64_emu.Gic.{Gic}
use aarch64_emu.Virtio.{ControlRegs, Virtio}
use aarch64_emu.Bus.{Bus}
use aarch64_emu.Cpu.{Cpu}
use aarch64_emu.Loader
use aarch64_emu.Loader.{Loader, System, Elf, text_start_paddr}
use aarch64_emu.Loader.Memory.{Host}
use aarch64_emu.Emulator.{Machine, execute_loop}
use aarch64_emu.Emulator.Input.{Phase}
use aarch64_emu.Base.{List}

-- The interrupt mask has no initial value: it is whatever number it holds until the guest writes it.
abbrev pub new_uart : Uart → Uart
new_uart u = record u {
  uart_rx_idx = 0;
  uart_rx_last_idx = 0;
  uart_fr = 0x90;
  uart_icr = 0x10;
  counter = 0;
}

abbrev pub new_gic : Gic → Gic
new_gic g = record g {
  d_typer = 0x3780007;
  d_igroupr = λ _. 0;
  d_isenabler = λ _. 0;
  d_icpendr = λ _. 0;
  d_ipriorityr = λ _. 0;
  r_waker = 0x2;
  r_isenabler0 = 0;
  r_icpendr0 = 0;
  r_ipriorityr = λ _. 0;
}

abbrev pub new_control_regs : ControlRegs → ControlRegs
new_control_regs r = record r {
  magic_value = 0x74726976;
  version = 1;
  device_id = 2;
  vender_id = 0x554d4551;
  host_features = 0x31006ed4;
  guest_page_size = 0;
  queue_num_max = 0x10;
  queue_num = 0;
  queue_pfn = 0;
  queue_notify = 0xffffffff;
  status = 0;
}

-- The disk's file: its bytes by offset, or none where it cannot be opened.
abbrev pub DiskFile : Type 0
DiskFile = Option (ℕ → Option ℕ)

unfoldable pub new_virtio : DiskFile → Virtio → Outcome Virtio
new_virtio none v = exit 0
new_virtio (some bytes) v = ok (record v {
  control_regs = new_control_regs v.control_regs;
  disk = bytes;
  virtqueue = none;
  id = 0;
})

unfoldable pub new_bus : ℕ → ℕ → ℕ → DiskFile → Bus → Outcome Bus
unfolding new_virtio
new_bus text_start text_size map_base disk b = do
  v ← new_virtio disk b.virtio
  ok (record b {
    mem = Mem.init b.mem text_start text_size map_base;
    uart = new_uart b.uart;
    gic = new_gic b.gic;
    virtio = v;
  })

unfoldable pub new_cpu : ℕ → ℕ → ℕ → ℕ → ℕ → DiskFile → Cpu → Outcome Cpu
unfolding new_bus
new_cpu entry sp_base text_start text_size map_base disk c = do
  b ← new_bus text_start text_size map_base disk c.bus
  ok (record c {
    bus = b;
    mmu = record (c.mmu) { sctlr_el1 = 0xc50838 };
    pc = entry;
    xregs = λ _. 0;
    sp = sp_base;
    daif = 0x3c0;
    el = 1;
    icc_sre_el1 = 0x7;
    cntv_ctl_el0 = 0;
    cntfrq_el0 = 0x3b9aca0;
    cntv_tval_el0 = 0;
  })

-- `init_done_` has no value until the constructor ends well.
pub record Emulator : Type 0 where
  pub cpu : Option Cpu
  pub loader : Loader
  pub init_done : Option Bool

abbrev pub new_loader : Loader → Loader
new_loader l = record l { entry = none }

-- The guest's memory is the process's.
abbrev pub with_host : Cpu → Host → Cpu
with_host c h = record c { bus = record (c.bus) { mem = record (c.bus.mem) { cell = h } } }

-- The constructor's part behind the loader; `loader.entry` may not have been set. `loader.text_size`
-- is set nowhere, and is whatever number it holds; the memory keeps it and never reads it.
unfoldable pub create_cpu : DiskFile → Loader → Cpu → Outcome Emulator
unfolding new_cpu
create_cpu disk l c = elim l.entry [
  | none ↦ undefined
  | some entry ↦ (do
    c' ← new_cpu entry l.init_sp text_start_paddr l.text_size l.map_base disk (with_host c l.host)
    ok (record { cpu = some c'; loader = l; init_done = some true }))
]

unfoldable pub new_emulator : System → Elf → DiskFile → Loader → Cpu → Outcome Emulator
unfolding create_cpu
new_emulator os elf disk l c = do
  ready ← Loader.init os elf (new_loader l)
  elim ready [
    | none ↦ ok (record { cpu = none; loader = new_loader l; init_done = none })
    | some l1 ↦ (do
      loaded ← Loader.load os elf l1
      elim loaded [
        | none ↦ ok (record { cpu = none; loader = l1; init_done = none })
        | some l2 ↦ create_cpu disk l2 c
      ])
  ]

-- Where `main` stands after the rounds it was given: there was nothing to run, the loop still runs,
-- or it has ended. At its end the input thread's object is destroyed before it is joined, and the
-- process is aborted by `std::terminate`.
pub data Ending : Type 0 where
  unstarted : Ending
  still_running aborted : Machine → Ending

-- The loop, from the start of the input thread on.
unfoldable pub run_loop : List ℕ → List ℕ → Cpu → Outcome Ending
run_loop turns typed c = do
  done ← execute_loop turns (record { cpu = c; phase = Phase.reading; stdin = typed })
  ok (if done.0 then still_running done.1 else aborted done.1)

-- `main`, with the input thread's turns and what is typed. To test `init_done_` before it has a value
-- is undefined.
unfoldable pub main : List ℕ → List ℕ → ℕ → System → Elf → DiskFile → Loader → Cpu → Outcome Ending
unfolding new_emulator run_loop
main turns typed argc os elf disk l c = if ltb argc 2 then ok unstarted else (do
  emu ← new_emulator os elf disk l c
  elim emu.init_done [
    | none ↦ undefined
    | some false ↦ ok unstarted
    | some true ↦ elim emu.cpu [ none ↦ undefined | some cpu ↦ run_loop turns typed cpu ]
  ])
