-- ===== src/Cpu/Tests.antt =====
-- Entries and gates at concrete places.
use hatcher.Base.{
  ℕ, ◌+◌, ◌*◌, ◌/◌, ◌%◌, ◌^◌, ◌≡◌, ◌≢◌, ◌⊎◌, refl, none, some, [], ◌∷◌, arith, get_elem?,
}
use hatcher.Cpu.{
  IdtEntry, Handlers, idt_init, isr_dispatch, idt_register_handler, handled, halted, pic1_command,
  pic2_command, pci_address,
}
use hatcher.Cpu.Descriptors.{gate_offset, idt_init-gate_offset}
use hatcher.Cpu.Interrupts.{isr_dispatch-pic_send_eoi}

idt_init_example :
    (e : IdtEntry) × (get_elem? (idt_init (λ i. 0x100000 + i * 16)) 0x80 ≡ some e)
    × (gate_offset e ≡ 0x100800)
    × (e.selector ≡ 0x08)
    × (e.type_attr / 2 ^ 7 ≡ 1)
    × (e.type_attr / 2 ^ 5 % 2 ^ 2 ≡ 3)
idt_init_example = idt_init-gate_offset (λ i. 0x100000 + i * 16) 0x80 (omega arith) (omega arith)

abbrev no_handlers : Handlers
no_handlers v = none

-- The keyboard's.
abbrev keys : ℕ
keys = 33

isr_dispatch_example :
    let d = isr_dispatch keys (idt_register_handler keys 7 no_handlers) in
    ((keys ≡ 32) × (d ≡ handled (some 7) ((pic1_command, 0x20) ∷ [])))
    ⊎ ((keys ≡ 33) × (d ≡ handled (some 7) ((pic1_command, 0x20) ∷ [])))
    ⊎ ((keys ≡ 46) × (d ≡ handled (some 7) ((pic2_command, 0x20) ∷ (pic1_command, 0x20) ∷ [])))
    ⊎ ((keys ≢ 32) × (keys ≢ 33) × (keys ≢ 46) × (d ≡ halted keys))
isr_dispatch_example = isr_dispatch-pic_send_eoi keys 7 no_handlers (omega arith)

-- Bus 1, device 2, function 3, offset 0x12.
pci_address_run : pci_address 1 2 3 0x12 ≡ 0x80011310
unfolding pci_address
pci_address_run = refl
