-- ===== src/Cpu/Pic/Chips.antt =====
-- The two controllers as the state machines that their documentation describes, and what
-- `pic_disable` makes of them.
use b0s.Base.{ℕ, ◌==◌, if◌then◌else◌, ◌≡◌, refl, Bool, true, ◌&&◌, ◌||◌}
use b0s.Cpu.Machine.{Machine, outb}
use b0s.Cpu.Pic.{
  pic_command_master, pic_command_slave, pic_data_master, pic_data_slave, pic_disable,
}

-- What a controller takes the next byte at its data port for: the first vector, the wiring and the
-- mode during an initialisation, and the mask after it.
pub data Phase : Type 0 where
  wants_vector wants_wiring wants_mode takes_mask : Phase

pub record Chip : Type 0 where
  pub phase : Phase
  pub vector : ℕ
  pub wiring : ℕ
  pub mask : ℕ

-- An initialisation starts with the byte 0x11 at the command port, which clears the mask.
pub command : ℕ → Chip → Chip
command v c = if v == 0x11 then record c { phase = wants_vector; mask = 0 } else c

pub data_by : Phase → ℕ → Chip → Chip
data_by wants_vector v c = record c { phase = wants_wiring; vector = v }
data_by wants_wiring v c = record c { phase = wants_mode; wiring = v }
data_by wants_mode v c = record c { phase = takes_mask }
data_by takes_mask v c = record c { mask = v }

pub record Chips : Type 0 where
  pub master : Chip
  pub slave : Chip

-- What a byte at a port does to the two.
pub port_write : ℕ → ℕ → Chips → Chips
port_write port v cs =
    let at_master =
      if port == pic_command_master
      then command v cs.master
      else (if port == pic_data_master then data_by cs.master.phase v cs.master else cs.master) in
    let at_slave =
      if port == pic_command_slave
      then command v cs.slave
      else (if port == pic_data_slave then data_by cs.slave.phase v cs.slave else cs.slave) in
    record { master = at_master; slave = at_slave }

abbrev pub disabled : ℕ → ℕ → Chip
disabled vector wiring = record {
  phase = takes_mask;
  vector = vector;
  wiring = wiring;
  mask = 0xff;
}

-- The bytes that the documentation gives this meaning at the ports: the start of an initialisation by
-- 0x11 at the two command ports; vectors, wiring, mode and full mask at the two data ports.
abbrev pub is_known : ℕ → ℕ → Bool
is_known port v =
    if port == pic_command_master || port == pic_command_slave
    then v == 0x11
    else (port == pic_data_master || port == pic_data_slave)
      && (v == 0x20 || v == 0x28 || v == 4 || v == 2 || v == 1 || v == 0xff)

-- Whatever the two controllers were about to take, pic_disable initialises both: the master gives
-- vectors from 32 on, the slave from 40 on, each knows where the other is wired, and every line of
-- either is masked.
pub pic_disable-masks {ℓ} :
    {State : Type ℓ} (hw : Machine State) (chips : State → Chips)
    → ((port v : ℕ)
        → is_known port v ≡ true
        → (s : State) → chips (hw.out_byte port v s) ≡ port_write port v (chips s))
    → (s : State)
    → chips (pic_disable hw s) ≡ record { master = disabled 32 4; slave = disabled 40 2 }
unfolding pic_disable outb port_write command data_by
pic_disable-masks hw chips wired s = rw (
  wired 0xA1 0xFF refl,
  wired 0x21 0xFF refl,
  wired 0xA1 1 refl,
  wired 0x21 1 refl,
  wired 0xA1 2 refl,
  wired 0x21 4 refl,
  wired 0xA1 0x28 refl,
  wired 0x21 0x20 refl,
  wired 0xA0 0x11 refl,
  wired 0x20 0x11 refl,
)
