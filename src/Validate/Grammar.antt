-- ===== src/Validate/Grammar.antt =====
-- What a well-formed command buffer is, apart from how the driver looks for it.
use package.amdhardware_kernel.Common.{
  ℕ, suc, ◌%◌, ◌≤◌, ◌<◌, ◌≡◌, ◌⊎◌, true, false, some, List, [], ◌∷◌, ◌++◌, arith, length,
}
use package.amdhardware_kernel.Bus.Regs.{cmd_nop, cmd_reg_write}
use package.amdhardware_kernel.Validate.{
  hdr_opcode, hdr_size, Check, no_check, draw_check, dma_check, fence_check, Validator,
  find_validator, dword,
}

-- The limits of a command's arguments, dword 0 being the header.
abbrev pub Meets : Check → List ℕ → Type 0
Meets no_check cmd = Unit {0}
Meets draw_check cmd = (0 < dword cmd 1) × (dword cmd 1 ≤ 65536) × (0 < dword cmd 2)
Meets dma_check cmd =
    (0 < dword cmd 3)
    × (dword cmd 3 ≤ 16777216)
    × (dword cmd 1 % 4 ≡ 0)
    × (dword cmd 2 % 4 ≡ 0)
    × (dword cmd 3 % 4 ≡ 0)
Meets fence_check cmd = dword cmd 1 % 4 ≡ 0

-- A command as the table allows it.
pub record Allowed (header : ℕ) (args : List ℕ) : Type 0 where
  pub rule : Validator
  pub listed : find_validator (hdr_opcode header) ≡ some rule
  pub at_least : rule.min_size ≤ hdr_size header
  pub at_most : hdr_size header ≤ rule.max_size
  pub limits : Meets rule.validate (header ∷ args)

-- A command that needs no privilege: a NOP of any size, or an allowed one with an opcode below
-- that of the register commands.
abbrev pub Harmless : ℕ → List ℕ → Type 0
Harmless header args =
    (hdr_opcode header ≡ cmd_nop) ⊎ ((hdr_opcode header < cmd_reg_write) × Allowed header args)

-- A buffer is a sequence of commands, each as many dwords long as its header says.
pub data Commands (P : ℕ → List ℕ → Type 0) : List ℕ → Type 0 where
  done : Commands P []
  next :
      {buf : List ℕ} (header : ℕ) (args rest : List ℕ)
      → hdr_size header ≡ suc (length args)
      → P header args
      → Commands P rest
      → buf ≡ header ∷ (args ++ rest)
      → Commands P buf

-- What the table says of a listed opcode.
pub listed_facts :
    (opcode : ℕ) (v : Validator)
    → find_validator opcode ≡ some v
    → (0 < v.min_size)
      × ((v.privileged ≡ true) ⊎ ((v.privileged ≡ false) × (opcode < cmd_reg_write)))
      × (v.validate ≡ draw_check → 5 ≤ v.min_size)
      × (v.validate ≡ dma_check → 4 ≤ v.min_size)
      × (v.validate ≡ fence_check → 3 ≤ v.min_size)
unfolding find_validator
listed_facts opcode v e = ground arith
