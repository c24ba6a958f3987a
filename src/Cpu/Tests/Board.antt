-- ===== src/Cpu/Tests/Board.antt =====
-- A small machine: a clock that goes on by one tick with each read of it, a timer at half its pace, the
-- window of a device controller and the two old controllers.
use b0s.Base.{ℕ, ◌+◌, ◌-◌, ◌/◌, ◌%◌, ◌^◌, ◌==◌, if◌then◌else◌}
use b0s.Cpu.Machine.{Machine}
use b0s.Cpu.Pic.Chips.{Chips, Chip, takes_mask, port_write}

pub record Board : Type 0 where
  pub time : ℕ
  pub armed : ℕ
  pub select : ℕ
  pub register : ℕ → ℕ
  pub chips : Chips

abbrev pub clock_base : ℕ
clock_base = 0x1000

abbrev pub clock_counter : ℕ
clock_counter = 0x10f0

abbrev pub window : ℕ
window = 0x2000

abbrev pub board : Machine Board
board = record {
  identify = λ leaf subleaf s. ((0, 0, 2 ^ 21, 2 ^ 9), s);
  read_msr =
      λ msr s. if msr == 0x839 then ((0xffffffff - (s.time - s.armed) / 2, 0), s) else ((0, 0), s);
  write_msr = λ msr low high s. if msr == 0x838 then record s { armed = s.time } else s;
  in_byte = λ port s. (0, s);
  out_byte = λ port v s. record s { chips = port_write port v s.chips };
  load8 = λ a s.
      if a == clock_counter
      then (s.time % 2 ^ 64, record s { time = s.time + 1 })
      else (if a == window + 0x10 then (s.register s.select, s) else (0, s));
  store8 = λ a v s. s;
  store4 = λ a v s.
      if a == window
      then record s { select = v }
      else (if a == window + 0x10
          then record s { register = λ i. if i == s.select then v else s.register i }
          else s);
  load_gdt = λ limit base s. s;
  load_idt = λ limit base s. s;
  load_task = λ selector s. s;
  allow_interrupts = λ allowed s. s;
  load_directory = λ cr3 s. s;
  drop_page = λ a s. s;
}

abbrev pub chip : Chip
chip = record { phase = takes_mask; vector = 0; wiring = 0; mask = 0 }

abbrev pub at_start : Board
at_start = record {
  time = 100;
  armed = 0;
  select = 0;
  register = λ i. 0;
  chips = record { master = chip; slave = chip };
}
