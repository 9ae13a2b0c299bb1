-- ===== src/Coredump/Memory.antt =====
-- The instruction memory in a dump.
use package.amdhardware_kernel.Common.{
  ℕ, zero, suc, ◌+◌, ◌*◌, ◌/◌, ◌≤◌, ◌<◌, ◌≡◌, refl, ap, ◌∙◌, List, ◌∷◌, arith, get_or, length,
}
use package.amdhardware_kernel.Bus.{rd, wr, Trace, Hw}
use package.amdhardware_kernel.Bus.Regs.{reg_shader_addr, reg_shader_data}
use package.amdhardware_kernel.Shader.{shader_write_to_hw}
use package.amdhardware_kernel.Shader.Upload.{instr_addr, instr_mem, shader_write_to_hw_cases}
use package.amdhardware_kernel.Coredump.Capture.{capture_instrmem, read_instrs}

-- A read of the data register answers the dword at the address last written.
unfoldable pub AnswersMemory : Hw → Type 0
AnswersMemory hw = (h : Trace) → hw h reg_shader_data ≡ instr_mem h (instr_addr h)

addressed :
    (i a : ℕ) (h : Trace)
    → (instr_addr (wr reg_shader_addr i ∷ h) ≡ i)
      × (instr_mem (wr reg_shader_addr i ∷ h) a ≡ instr_mem h a)
      × (instr_mem (rd reg_shader_data ∷ wr reg_shader_addr i ∷ h) a ≡ instr_mem h a)
unfolding instr_addr instr_mem
addressed i a h = (refl, refl, refl)

module _ (hw : Hw) (answers : AnswersMemory hw) where
  read_instrs-memory :
      (left i k : ℕ) (h : Trace)
      → k < left
      → get_or (read_instrs hw left i h).0 k 0 ≡ instr_mem h (i + k)
  unfolding read_instrs AnswersMemory
  read_instrs-memory zero i k h lt = elim lt [ ]
  read_instrs-memory (suc left) i zero h lt =
      let (at, kept, _) = addressed i i h in
      answers (wr reg_shader_addr i ∷ h)
      ∙ ap (instr_mem (wr reg_shader_addr i ∷ h)) at
      ∙ kept
      ∙ ap (instr_mem h) (omega arith)
  read_instrs-memory (suc left) i (suc k) h lt =
      let h₁ = rd reg_shader_data ∷ wr reg_shader_addr i ∷ h in
      let (_, _, kept) = addressed i (i + 1 + k) h in
      read_instrs-memory left (i + 1) k h₁ (omega arith) ∙ kept ∙ ap (instr_mem h) (omega arith)

  -- On a device that answers reads of its data register from the instruction memory, the dump taken
  -- right after the upload of a shader of `size` bytes to a slot below 16, which ends inside the
  -- memory, has the dwords of the shader at the slot's place.
  pub capture_instrmem-upload :
      (slot size i : ℕ) (code : List ℕ) (h : Trace)
      → slot < 16
      → size / 4 ≤ length code
      → slot * 1024 + size ≤ 4096
      → i < size / 4
      → get_or (capture_instrmem hw (shader_write_to_hw slot code size h).1).0 (slot * 256 + i) 0
        ≡ get_or code i 0
  unfolding capture_instrmem
  capture_instrmem-upload slot size i code h lt enough fits inside =
      let (_, stored, _) = (shader_write_to_hw_cases slot size code h lt enough).0 fits in
      read_instrs-memory 1024 0 (slot * 256 + i) _ (omega arith)
      ∙ ap (instr_mem (shader_write_to_hw slot code size h).1) (omega arith)
      ∙ stored i inside
