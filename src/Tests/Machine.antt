-- ===== src/Tests/Machine.antt =====
-- A small machine: 16384 mapped host bytes with a page table of three levels, and every register
-- of the devices zero.
use aarch64_emu.Base.{ℕ, false, none, some, [], ltb, ◌==◌, if◌then◌else◌, ◌+◌, ◌-◌}
use aarch64_emu.Mem.{Mem}
use aarch64_emu.Uart.{Uart}
use aarch64_emu.Gic.{Gic}
use aarch64_emu.Virtio.{Virtio, ControlRegs}
use aarch64_emu.Bus.{Bus}
use aarch64_emu.Mmu.{Mmu}
use aarch64_emu.Cpu.{Cpu, Nzcv}

-- The bytes of the tables' entries: a table at 0, one at 0x1000, and a page entry at 0x2008. The
-- instruction `svc #0` stands at 0x3800.
abbrev table_byte : ℕ → ℕ
table_byte i =
    if i == 0x0000
    then 0x03
    else if i == 0x0001
    then 0x10
    else if i == 0x0003
    then 0x40
    else if i == 0x1000
    then 0x03
    else if i == 0x1001
    then 0x20
    else if i == 0x1003
    then 0x40
    else if i == 0x2008
    then 0x03
    else if i == 0x2009
    then 0x50
    else if i == 0x200b
    then 0x40
    else if i == 0x3800
    then 0x01
    else if i == 0x3803
    then 0xd4
    else 0

-- The host address that the guest's RAM starts at.
abbrev host_base : ℕ
host_base = 0x10000

abbrev pub small_mem : Mem
small_mem = record {
  text_start = 0x40000000;
  text_size = 0x4000;
  map_base = host_base;
  cell = λ p.
      if ltb p host_base
      then none
      else if ltb p (host_base + 0x4000)
      then some (table_byte (p - host_base))
      else none;
}

abbrev pub small_uart : Uart
small_uart = record {
  uart_dr = 0;
  uart_rx_idx = 0;
  uart_rx_last_idx = 0;
  uart_rx_buff = λ _. 0;
  uart_fr = 0;
  uart_lcr_h = 0;
  uart_cr = 0;
  uart_imsc = 0;
  uart_icr = 0;
  counter = 0;
  stdout = [];
}

abbrev pub small_gic : Gic
small_gic = record {
  d_ctlr = 0;
  d_typer = 0;
  d_igroupr = λ _. 0;
  d_isenabler = λ _. 0;
  d_icpendr = λ _. 0;
  d_ipriorityr = λ _. 0;
  r_ctlr = 0;
  r_waker = 0;
  r_igroupr0 = 0;
  r_isenabler0 = 0;
  r_icpendr0 = 0;
  r_ipriorityr = λ _. 0;
  r_igrpmodr0 = 0;
}

abbrev small_regs : ControlRegs
small_regs = record {
  magic_value = 0x74726976;
  version = 1;
  device_id = 2;
  vender_id = 0x554d4551;
  host_features = 0;
  guest_features = 0;
  guest_page_size = 0;
  queue_sel = 0;
  queue_num_max = 8;
  queue_num = 0;
  queue_pfn = 0;
  queue_notify = 9999;
  interrupt_status = 0;
  interrupt_ack = 0;
  status = 0;
}

abbrev pub small_virtio : Virtio
small_virtio = record { control_regs = small_regs; disk = λ _. none; virtqueue = none; id = 0 }

abbrev pub small_bus : Bus
small_bus = record { mem = small_mem; uart = small_uart; gic = small_gic; virtio = small_virtio }

-- Translation is on, with 36-bit widths in both halves and the table at the start of RAM.
abbrev pub small_mmu : Mmu
small_mmu = record {
  ttbr0_el1 = 0x40000000;
  ttbr1_el1 = 0x40000000;
  sctlr_el1 = 1;
  tcr_el1 = 0x1c001c;
}

abbrev pub clear_flags : Nzcv
clear_flags = record { n = false; z = false; c = false; v = false }

-- A program at level 0, with translation off.
abbrev pub small_cpu : Cpu
small_cpu = record {
  bus = small_bus;
  mmu = record { ttbr0_el1 = 0; ttbr1_el1 = 0; sctlr_el1 = 0; tcr_el1 = 0 };
  pc = 0x40000100;
  xregs = λ i. i + 7;
  sp = 0x40003000;
  current_el = 0;
  vbar_el1 = 0x40000800;
  sp_el0 = 0;
  sp_el1 = 0x40002000;
  esr_el1 = 0;
  timer_count = 0;
  daif = 0;
  nzcv = clear_flags;
  el = 0;
  icc_igrpen1_el1 = 0;
  icc_pmr_el1 = 0;
  icc_sre_el1 = 0;
  icc_iar1_el1 = 0;
  icc_eoir1_el1 = 0;
  spsr_el1 = 0;
  elr_el1 = 0;
  cntv_ctl_el0 = 0;
  cntfrq_el0 = 0;
  cntv_tval_el0 = 0;
  inst = 0;
}
