-- ===== src/Cpu/Descriptors.antt =====
-- The descriptors, read back as the processor reads them.
use hatcher.Base.{
  ℕ, zero, suc, ◌+◌, ◌*◌, ◌/◌, ◌%◌, ◌^◌, ◌≤◌, ◌<◌, ◌≡◌, ◌≢◌, refl, sym, ap, ◌∙◌, some, List, arith,
  ◌==◌, if◌then◌else◌, ℕ_discrete, set, get_elem?, length, length-set, length-replicate, replicate,
  get_elem?-set_self, get_elem?-set_ne,
}
use hatcher.Cpu.{
  GdtEntry, gdt_entry, gdt_set_entry, gdt_set_tss_entry, IdtEntry, idt_entry, idt_set_gate,
  idt_loop, idt_init, zero_gate,
}

-- The fields of a segment descriptor.
abbrev pub segment_base : GdtEntry → ℕ
segment_base e = e.base_low + e.base_mid * 2 ^ 16 + e.base_high * 2 ^ 24

abbrev pub segment_limit : GdtEntry → ℕ
segment_limit e = e.limit_low + e.flags_limit % 2 ^ 4 * 2 ^ 16

abbrev pub segment_flags : GdtEntry → ℕ
segment_flags e = e.flags_limit / 2 ^ 4

-- The base of a task state segment, in two descriptors.
abbrev pub tss_base : GdtEntry → GdtEntry → ℕ
tss_base e e' = segment_base e + e'.limit_low * 2 ^ 32 + e'.base_low * 2 ^ 48

-- Other entries stay, and the processor reads the base, the low 20 bits of the limit, the access byte and
-- the low 4 bits of the flags that `gdt_set_entry` was given.
pub gdt_set_entry-segment_base :
    (idx other base limit access flags : ℕ) (gdt : List GdtEntry)
    → idx < length gdt
    → base < 2 ^ 32
    → limit < 2 ^ 32
    → idx ≢ other
    → let gdt' = gdt_set_entry idx base limit access flags gdt in
      ((e : GdtEntry) × (get_elem? gdt' idx ≡ some e)
        × (segment_base e ≡ base)
        × (segment_limit e ≡ limit % 2 ^ 20)
        × (e.access ≡ access)
        × (segment_flags e ≡ flags % 2 ^ 4))
      × (get_elem? gdt' other ≡ get_elem? gdt other)
unfolding gdt_set_entry
gdt_set_entry-segment_base idx other base limit access flags gdt inside small small' apart = (
  (
    gdt_entry base limit access flags,
    get_elem?-set_self gdt idx (gdt_entry base limit access flags) inside,
    omega arith,
    omega arith,
    refl,
    omega arith,
  ),
  get_elem?-set_ne gdt idx other (gdt_entry base limit access flags) apart,
)

-- The two descriptors of the task state segment hold its whole base of 64 bits.
pub gdt_set_tss_entry-tss_base :
    (idx base limit : ℕ) (gdt : List GdtEntry)
    → idx + 1 < length gdt
    → base < 2 ^ 64
    → let gdt' = gdt_set_tss_entry idx base limit gdt in
      (e e' : GdtEntry) × (get_elem? gdt' idx ≡ some e)
      × (get_elem? gdt' (idx + 1) ≡ some e')
      × (tss_base e e' ≡ base)
unfolding gdt_set_tss_entry
gdt_set_tss_entry-tss_base idx base limit gdt inside small =
    let first : GdtEntry = record {
      limit_low = limit % 2 ^ 16;
      base_low = base % 2 ^ 16;
      base_mid = base / 2 ^ 16 % 2 ^ 8;
      access = 0x89;
      flags_limit = limit / 2 ^ 16 % 2 ^ 4;
      base_high = base / 2 ^ 24 % 2 ^ 8;
    } in
    let second : GdtEntry = record {
      limit_low = base / 2 ^ 32 % 2 ^ 16;
      base_low = base / 2 ^ 48 % 2 ^ 16;
      base_mid = 0;
      access = 0;
      flags_limit = 0;
      base_high = 0;
    } in
    (
      first,
      second,
      get_elem?-set_ne (set gdt idx first) (idx + 1) idx second (λ e. omega arith)
          ∙ get_elem?-set_self gdt idx first (omega arith),
      get_elem?-set_self (set gdt idx first) (idx + 1) second
          (omega (arith, length-set gdt idx first)),
      omega arith,
    )

-- The address that a gate leads to.
abbrev pub gate_offset : IdtEntry → ℕ
gate_offset e = e.offset_low + e.offset_mid * 2 ^ 16 + e.offset_high * 2 ^ 32

abbrev gate_flags : ℕ → ℕ
gate_flags i = if i == 0x80 then 0xEE else 0x8E

module _ (stub : ℕ → ℕ) where
  -- The loop sets the gates from `start` on, and leaves the others.
  before_start :
      (n start i : ℕ) (idt : List IdtEntry)
      → i < start
      → get_elem? (idt_loop stub n start idt) i ≡ get_elem? idt i
  unfolding idt_loop idt_set_gate
  before_start zero start i idt h = refl
  before_start (suc n) start i idt h =
      before_start n (start + 1) i (idt_set_gate start (stub start) (gate_flags start) idt)
        (omega arith)
      ∙ get_elem?-set_ne idt start i (idt_entry (stub start) (gate_flags start)) (λ e. omega arith)

  loop_sets :
      (n start i : ℕ) (idt : List IdtEntry)
      → start ≤ i
      → i < start + n
      → i < length idt
      → get_elem? (idt_loop stub n start idt) i ≡ some (idt_entry (stub i) (gate_flags i))
  unfolding idt_loop idt_set_gate
  loop_sets zero start i idt from to inside = absurd (omega arith)
  loop_sets (suc n) start i idt from to inside = elim (ℕ_discrete start i) [
    | yes now ↦
        let gate = idt_entry (stub start) (gate_flags start) in
        ap (get_elem? (idt_loop stub n (start + 1) (set idt start gate))) (sym now)
        ∙ before_start n (start + 1) start (set idt start gate) (omega arith)
        ∙ get_elem?-set_self idt start gate (omega arith)
        ∙ ap (λ j. some (idt_entry (stub j) (gate_flags j))) now
    | no other ↦
        let gate = idt_entry (stub start) (gate_flags start) in
        loop_sets n (start + 1) i (set idt start gate) (omega arith) (omega arith)
          (omega (arith, length-set idt start gate))
  ]

  -- After `idt_init` the gate of every vector is present and leads, in the segment of the kernel, to the
  -- stub of the vector; only the gate 0x80 may be used from ring 3.
  pub idt_init-gate_offset :
      (i : ℕ)
      → i < 256
      → stub i < 2 ^ 64
      → (e : IdtEntry) × (get_elem? (idt_init stub) i ≡ some e)
        × (gate_offset e ≡ stub i)
        × (e.selector ≡ 0x08)
        × (e.type_attr / 2 ^ 7 ≡ 1)
        × (e.type_attr / 2 ^ 5 % 2 ^ 2 ≡ (if i == 0x80 then 3 else 0))
  unfolding idt_init
  idt_init-gate_offset i inside small = (
    idt_entry (stub i) (gate_flags i),
    loop_sets 256 0 i (replicate 256 zero_gate) (omega arith) (omega arith)
        (omega (arith, length-replicate 256 zero_gate)),
    omega arith,
    refl,
    ground arith,
    ground arith,
  )
