-- ===== src/Cpu/Interrupts.antt =====
-- The masks of the interrupt controllers, and the end of an interrupt.
use hatcher.Base.{
  ℕ, ◌<◌, ◌≡◌, ◌≢◌, ◌⊎◌, inl, inr, ap, ◌∙◌, false, some, [], ◌∷◌, arith, ◌==◌, ℕ_discrete, u8,
  if-false,
}
use hatcher.Cpu.{
  Handlers, handled, halted, isr_dispatch, pic_send_eoi, pic1_command, pic2_command,
  idt_register_handler,
}

-- Of the 256 vectors only 32, 33 and 46 come back from `isr_dispatch`. For these the handler that was
-- registered is called, then the controllers are told: both for 46, the first one for 32 and 33. All
-- others, the interrupts 34 to 45 and 47 of the controllers among them, halt the kernel.
pub isr_dispatch-pic_send_eoi :
    (vector handler : ℕ) (handlers : Handlers)
    → vector < 256
    → let d = isr_dispatch vector (idt_register_handler vector handler handlers) in
      ((vector ≡ 32) × (d ≡ handled (some handler) ((pic1_command, 0x20) ∷ [])))
      ⊎ ((vector ≡ 33) × (d ≡ handled (some handler) ((pic1_command, 0x20) ∷ [])))
      ⊎ ((vector ≡ 46)
          × (d ≡ handled (some handler) ((pic2_command, 0x20) ∷ (pic1_command, 0x20) ∷ [])))
      ⊎ ((vector ≢ 32) × (vector ≢ 33) × (vector ≢ 46) × (d ≡ halted vector))
unfolding isr_dispatch pic_send_eoi
isr_dispatch-pic_send_eoi vector handler handlers small =
    let served = λ (v : ℕ). isr_dispatch v (idt_register_handler v handler handlers) in
    elim (ℕ_discrete vector 32) [
      | yes e ↦ inl (e, ap served e)
      | no not32 ↦ elim (ℕ_discrete vector 33) [
        | yes e ↦ inr (inl (e, ap served e))
        | no not33 ↦ elim (ℕ_discrete vector 46) [
          | yes e ↦ inr (inr (inl (e, ap served e)))
          | no not46 ↦
              let same : u8 vector ≡ vector = omega arith in
              let a : (u8 vector == 46) ≡ false = ground arith in
              let b : (u8 vector == 32) ≡ false = ground arith in
              let c : (u8 vector == 33) ≡ false = ground arith in
              inr (
                inr (
                  inr (
                    not32,
                    not33,
                    not46,
                    if-false _ _ a ∙ if-false _ _ b ∙ if-false _ _ c ∙ ap halted same,
                  )))
        ]
      ]
    ]
