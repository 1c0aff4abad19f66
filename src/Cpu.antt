-- ===== src/Cpu.antt =====
-- kernel/gdt.c, cpu/idt.c, cpu/8259a.c, mem/paging.c and drivers/pci/pci.c: the tables and addresses
-- that the processor and the devices read. A table is the list of its entries; what the ports
-- have been told is the list of the writes, in order.
pub mod Descriptors
pub mod Interrupts
mod Tests
use hatcher.Base.{
  ℕ, zero, suc, ◌+◌, ◌-◌, ◌*◌, ◌/◌, ◌%◌, ◌^◌, Bool, true, false, Option, none, some, List, [], ◌∷◌,
  ◌++◌, ◌==◌, ◌&&◌, ltb, leb, if◌then◌else◌, u8, u16, u32, u64, set, get_or, replicate, update,
}

-- `gdt_entry_t`
pub record GdtEntry : Type 0 where
  pub limit_low : ℕ
  pub base_low : ℕ
  pub base_mid : ℕ
  pub access : ℕ
  pub flags_limit : ℕ
  pub base_high : ℕ

-- The bits of the limit and of `flags << 4` do not overlap.
abbrev pub gdt_entry : ℕ → ℕ → ℕ → ℕ → GdtEntry
gdt_entry base limit access flags = record {
  limit_low = limit % 2 ^ 16;
  base_low = base % 2 ^ 16;
  base_mid = base / 2 ^ 16 % 2 ^ 8;
  access = access;
  flags_limit = u8 (limit / 2 ^ 16 % 2 ^ 4 + flags * 2 ^ 4);
  base_high = base / 2 ^ 24 % 2 ^ 8;
}

unfoldable pub gdt_set_entry : ℕ → ℕ → ℕ → ℕ → ℕ → List GdtEntry → List GdtEntry
gdt_set_entry idx base limit access flags gdt = set gdt idx (gdt_entry base limit access flags)

-- `gdt_init`, up to the load of the register: the access bytes are PRESENT, the ring, CODE or DATA, and
-- RW; the flags GRANULARITY and, for code, LONGMODE.
unfoldable pub gdt_init : List GdtEntry → List GdtEntry
unfolding gdt_set_entry
gdt_init gdt = gdt_set_entry 4 0 0xFFFFFFFF (0x80 + 0x60 + 0x18 + 0x02) (0x8 + 0x2) (
    gdt_set_entry 3 0 0xFFFFFFFF (0x80 + 0x60 + 0x10 + 0x02) 0x8 (
      gdt_set_entry 2 0 0xFFFFFFFF (0x80 + 0x00 + 0x10 + 0x02) 0x8 (
        gdt_set_entry 1 0 0xFFFFFFFF (0x80 + 0x00 + 0x18 + 0x02) (0x8 + 0x2)
          (gdt_set_entry 0 0 0 0 0 gdt))))

unfoldable pub gdt_set_tss_entry : ℕ → ℕ → ℕ → List GdtEntry → List GdtEntry
gdt_set_tss_entry idx base limit gdt =
    set
      (set gdt idx (record {
        limit_low = limit % 2 ^ 16;
        base_low = base % 2 ^ 16;
        base_mid = base / 2 ^ 16 % 2 ^ 8;
        access = 0x89;
        flags_limit = limit / 2 ^ 16 % 2 ^ 4;
        base_high = base / 2 ^ 24 % 2 ^ 8;
      }))
      (idx + 1)
      (record {
        limit_low = base / 2 ^ 32 % 2 ^ 16;
        base_low = base / 2 ^ 48 % 2 ^ 16;
        base_mid = 0;
        access = 0;
        flags_limit = 0;
        base_high = 0;
      })

-- `idt_entry_t`
pub record IdtEntry : Type 0 where
  pub offset_low : ℕ
  pub selector : ℕ
  pub ist : ℕ
  pub type_attr : ℕ
  pub offset_mid : ℕ
  pub offset_high : ℕ
  pub zero_field : ℕ

abbrev pub idt_entry : ℕ → ℕ → IdtEntry
idt_entry handler flags = record {
  offset_low = handler % 2 ^ 16;
  selector = 0x08;
  ist = 0;
  type_attr = flags;
  offset_mid = handler / 2 ^ 16 % 2 ^ 16;
  offset_high = handler / 2 ^ 32 % 2 ^ 32;
  zero_field = 0;
}

unfoldable pub idt_set_gate : ℕ → ℕ → ℕ → List IdtEntry → List IdtEntry
idt_set_gate vector handler flags idt = set idt vector (idt_entry handler flags)

-- The loop of `idt_init`, `n` rounds from `i` on; `stub` is `isr_stub_table`.
unfoldable pub idt_loop : (ℕ → ℕ) → ℕ → ℕ → List IdtEntry → List IdtEntry
unfolding idt_set_gate
idt_loop stub zero i idt = idt
idt_loop stub (suc n) i idt =
    idt_loop stub n (i + 1) (idt_set_gate i (stub i) (if i == 0x80 then 0xEE else 0x8E) idt)

abbrev pub zero_gate : IdtEntry
zero_gate = record {
  offset_low = 0;
  selector = 0;
  ist = 0;
  type_attr = 0;
  offset_mid = 0;
  offset_high = 0;
  zero_field = 0;
}

unfoldable pub idt_init : (ℕ → ℕ) → List IdtEntry
unfolding idt_loop
idt_init stub = idt_loop stub 256 0 (replicate 256 zero_gate)

-- `interrupt_handlers`: the handler of a vector, none for NULL.
abbrev pub Handlers : Type 0
Handlers = ℕ → Option ℕ

abbrev pub idt_register_handler : ℕ → ℕ → Handlers → Handlers
idt_register_handler vector handler handlers = update handlers vector (some handler)

abbrev pub idt_uninstall_handler : ℕ → Handlers → Handlers
idt_uninstall_handler vector handlers = update handlers vector none

-- A write of a byte to a port.
abbrev pub Write : Type 0
Write = ℕ × ℕ

abbrev pub pic1_command : ℕ
pic1_command = 0x20

abbrev pub pic1_data : ℕ
pic1_data = 0x21

abbrev pub pic2_command : ℕ
pic2_command = 0xA0

abbrev pub pic2_data : ℕ
pic2_data = 0xA1

unfoldable pub pic_send_eoi : ℕ → List Write
pic_send_eoi irq =
    (if leb 8 irq then (pic2_command, 0x20) ∷ [] else []) ++ ((pic1_command, 0x20) ∷ [])

-- `a1` and `a2` are what the data ports give.
unfoldable pub pic_remap : ℕ → ℕ → ℕ → ℕ → List Write
pic_remap offset1 offset2 a1 a2 =
    (pic1_command, 0x11)
    ∷ (pic2_command, 0x11)
    ∷ (pic1_data, u8 offset1)
    ∷ (pic2_data, u8 offset2)
    ∷ (pic1_data, 4)
    ∷ (pic2_data, 2)
    ∷ (pic1_data, 0x01)
    ∷ (pic2_data, 0x01)
    ∷ (pic1_data, a1)
    ∷ (pic2_data, a2)
    ∷ []

abbrev pub mask_port : ℕ → ℕ
mask_port irq_line = if ltb irq_line 8 then pic1_data else pic2_data

-- `value | (1 << n)` and `value & ~(1 << n)` of a byte.
abbrev pub set_bit : ℕ → ℕ → ℕ
set_bit n value = if value / 2 ^ n % 2 == 0 then value + 2 ^ n else value

abbrev pub clear_bit : ℕ → ℕ → ℕ
clear_bit n value = if value / 2 ^ n % 2 == 0 then value else value - 2 ^ n

-- The masks of the two controllers are the bytes that their data ports give.
unfoldable pub pic_set_mask : ℕ → (ℕ → ℕ) → ℕ → ℕ
pic_set_mask irq_line ports =
    let port = mask_port irq_line in update ports port (set_bit (irq_line % 8) (ports port))

unfoldable pub pic_clear_mask : ℕ → (ℕ → ℕ) → ℕ → ℕ
pic_clear_mask irq_line ports =
    let port = mask_port irq_line in update ports port (clear_bit (irq_line % 8) (ports port))

-- What `isr_dispatch` comes to: the handler that it calls and the writes that follow, or the end.
pub data Dispatch : Type 0 where
  handled : Option ℕ → List Write → Dispatch
  halted : ℕ → Dispatch

unfoldable pub isr_dispatch : ℕ → Handlers → Dispatch
unfolding pic_send_eoi
isr_dispatch int_no handlers =
    let vec = u8 int_no in
    let served =
      handled (handlers vec) (if leb 32 vec && leb vec 47 then pic_send_eoi (vec - 32) else []) in
    if vec == 46
    then served
    else if vec == 32
    then served
    else if vec == 33
    then served
    else halted vec

-- `(phys_addr & ~0xFFF) | (flags & 0xFFF)`
abbrev pub page_entry : ℕ → ℕ → ℕ
page_entry phys_addr flags = phys_addr - phys_addr % 2 ^ 12 + flags % 2 ^ 12

abbrev pub page_index : ℕ → ℕ
page_index virt_addr = virt_addr / 2 ^ 12 % 512

unfoldable pub paging_map_page : ℕ → ℕ → ℕ → List ℕ → List ℕ
paging_map_page virt_addr phys_addr flags pt =
    set pt (page_index virt_addr) (page_entry phys_addr flags)

-- The word that `pci_config_read32` writes to the address port.
unfoldable pub pci_address : ℕ → ℕ → ℕ → ℕ → ℕ
pci_address bus device function offset =
    2 ^ 31 + bus * 2 ^ 16 + device * 2 ^ 11 + function * 2 ^ 8 + (offset - offset % 4)

-- `config` gives the word at an address.
module _ (config : ℕ → ℕ) where
  unfoldable pub pci_config_read32 : ℕ → ℕ → ℕ → ℕ → ℕ
  unfolding pci_address
  pci_config_read32 bus device function offset = config (pci_address bus device function offset)

  unfoldable pub pci_config_read16 : ℕ → ℕ → ℕ → ℕ → ℕ
  unfolding pci_config_read32
  pci_config_read16 bus device function offset =
      pci_config_read32 bus device function offset / 2 ^ (offset / 2 % 2 * 2 * 8) % 2 ^ 16

  unfoldable pub pci_config_read8 : ℕ → ℕ → ℕ → ℕ → ℕ
  unfolding pci_config_read32
  pci_config_read8 bus device function offset =
      pci_config_read32 bus device function offset / 2 ^ (offset % 4 * 8) % 2 ^ 8
