-- ===== src/Ata/Registers.antt =====
-- What a controller finds in its registers when a command arrives.
use hatcher.Base.{
  ℕ, ◌+◌, ◌*◌, ◌/◌, ◌%◌, ◌^◌, ◌≡◌, refl, Bool, true, false, arith, ltb, ◌==◌, if◌then◌else◌,
}
use hatcher.Ata.{Device, command_writes, base_of, primary_base, secondary_base, out_all}

-- Registers that keep what was last written to them.
abbrev pub latch : Device (ℕ → ℕ)
latch = record {
  outb = λ port value regs q. if q == port then value else regs q;
  inb = λ port regs. (regs port, regs);
  outw = λ port value regs q. if q == port then value else regs q;
  inw = λ port regs. (regs port, regs);
}

-- The 28 bits of address in the registers at `base`.
abbrev pub address : ℕ → (ℕ → ℕ) → ℕ
address base regs =
    regs (base + 3)
    + regs (base + 4) * 2 ^ 8
    + regs (base + 5) * 2 ^ 16
    + regs (base + 6) % 2 ^ 4 * 2 ^ 24

-- The registers ask for the command on the one sector `lba` of the drive `head`, in LBA mode.
abbrev pub Asks : ℕ → ℕ → ℕ → ℕ → (ℕ → ℕ) → Type 0
Asks base head lba command regs =
    (regs (base + 2) ≡ 1)
    × (address base regs ≡ lba % 2 ^ 28)
    × (regs (base + 6) / 2 ^ 4 ≡ 14 + head)
    × (regs (base + 7) ≡ command)

low_bits :
    (lba : ℕ) (h : ℕ)
    → lba % 2 ^ 8
        + lba / 2 ^ 8 % 2 ^ 8 * 2 ^ 8
        + lba / 2 ^ 16 % 2 ^ 8 * 2 ^ 16
        + (0xE0 + h * 2 ^ 4 + lba / 2 ^ 24 % 2 ^ 4) % 2 ^ 4 * 2 ^ 24
      ≡ lba % 2 ^ 28
low_bits lba h = omega arith

device_bits : (lba h : ℕ) → (0xE0 + h * 2 ^ 4 + lba / 2 ^ 24 % 2 ^ 4) / 2 ^ 4 ≡ 14 + h
device_bits lba h = omega arith

channel :
    (first : Bool) (head lba command : ℕ) (regs : ℕ → ℕ)
    → let base = if first then primary_base else secondary_base in
      Asks base head lba command (out_all latch (command_writes base head lba command) regs)
unfolding command_writes
channel true head lba command regs = (refl, low_bits lba head, device_bits lba head, refl)
channel false head lba command regs = (refl, low_bits lba head, device_bits lba head, refl)

-- For every drive number, sector number, command and former contents: the writes leave in the registers
-- of the drive's channel a count of one sector, the sector number modulo 2^28, LBA mode with the drive's
-- place on the channel, and the command.
pub command_writes-Asks :
    (drive lba command : ℕ) (regs : ℕ → ℕ)
    → let base = base_of drive in
      Asks base
        (drive % 2)
        lba
        command
        (out_all latch (command_writes base (drive % 2) lba command) regs)
command_writes-Asks drive lba command regs = channel (ltb drive 2) (drive % 2) lba command regs
