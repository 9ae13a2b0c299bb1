-- ===== src/Validate.antt =====
-- The validation of command buffers in kernel/drivers/gpu/mgpu/mgpu_uapi.c. A buffer is the list of
-- its dwords, and a pointer into it the list from there on.
pub mod Grammar
pub mod Soundness
pub mod Completeness
pub mod Checked
mod Tests
use package.amdhardware_kernel.Common.{
  take, drop, ℕ, zero, suc, ◌+◌, ◌-◌, ◌*◌, ◌/◌, ◌%◌, Bool, true, false, not, ◌&&◌, ◌||◌, Option,
  none, some, List, [], ◌∷◌, ◌++◌, ltb, leb, ◌==◌, if◌then◌else◌, length, get_or, flag,
}
use package.amdhardware_kernel.Bus.{Trace, Hw, Io, ◌>>=◌, ◌>>◌, pure, read, einval, Status, ok, err}
use package.amdhardware_kernel.Bus.Regs.{
  reg_vertex_base, cmd_nop, cmd_draw, cmd_compute, cmd_dma, cmd_fence, cmd_wait, cmd_reg_write,
  cmd_reg_read,
}

-- The bit fields of `struct mgpu_cmd_header`.
abbrev pub hdr_opcode : ℕ → ℕ
hdr_opcode header = header % 256

abbrev pub hdr_size : ℕ → ℕ
hdr_size header = header / 256 % 256

-- `hdr->opcode = MGPU_CMD_NOP`
abbrev pub with_nop : ℕ → ℕ
with_nop header = header - hdr_opcode header + cmd_nop

pub data Check : Type 0 where
  no_check draw_check dma_check fence_check : Check

-- `struct mgpu_cmd_validator`
pub record Validator : Type 0 where
  pub opcode : ℕ
  pub min_size : ℕ
  pub max_size : ℕ
  pub privileged : Bool
  pub validate : Check

abbrev pub row : ℕ → ℕ → ℕ → Bool → Check → Validator
row opcode min_size max_size privileged validate = record {
  opcode = opcode;
  min_size = min_size;
  max_size = max_size;
  privileged = privileged;
  validate = validate;
}

pub cmd_validators : List Validator
cmd_validators =
    row cmd_nop 1 1 false no_check
    ∷ row cmd_draw 5 8 false draw_check
    ∷ row cmd_compute 4 8 false no_check
    ∷ row cmd_dma 4 5 false dma_check
    ∷ row cmd_fence 3 3 false fence_check
    ∷ row cmd_wait 2 3 false no_check
    ∷ row cmd_reg_write 3 3 true no_check
    ∷ row cmd_reg_read 2 3 true no_check
    ∷ []

find_in : ℕ → List Validator → Option Validator
find_in opcode [] = none
find_in opcode (v ∷ vs) =
    let rest = find_in opcode vs in if v.opcode == opcode then some v else rest

pub find_validator : ℕ → Option Validator
unfolding find_in cmd_validators
find_validator opcode = find_in opcode cmd_validators

-- The dword `i` of a command, counted from its header.
abbrev pub dword : List ℕ → ℕ → ℕ
dword cmd i = get_or cmd i 0

pub validate_draw_cmd : Hw → List ℕ → Io Status
validate_draw_cmd hw cmd =
    if dword cmd 1 == 0 || ltb 65536 (dword cmd 1)
    then pure (err einval)
    else if dword cmd 2 == 0
    then pure (err einval)
    else do base ← read hw reg_vertex_base; pure (if base == 0 then err einval else ok)

pub validate_dma_cmd : List ℕ → Status
validate_dma_cmd cmd =
    if dword cmd 3 == 0 || ltb (16 * 1024 * 1024) (dword cmd 3)
    then err einval
    else if flag (dword cmd 1) 3 || flag (dword cmd 2) 3 || flag (dword cmd 3) 3
    then err einval
    else ok

-- A fence value of 0 is only logged.
pub validate_fence_cmd : List ℕ → Status
validate_fence_cmd cmd = if flag (dword cmd 1) 3 then err einval else ok

pub run_check : Hw → Check → List ℕ → Io Status
run_check hw no_check cmd = pure ok
run_check hw draw_check cmd = validate_draw_cmd hw cmd
run_check hw dma_check cmd = pure (validate_dma_cmd cmd)
run_check hw fence_check cmd = pure (validate_fence_cmd cmd)

-- One round of the loop up to the privilege check: the validator, or the error.
pub data Found : Type 0 where
  bad : Found
  good : Validator → Found

size_fits : List ℕ → Validator → Bool
size_fits ptr v =
    let cmd_size = hdr_size (dword ptr 0) in
    not (ltb cmd_size v.min_size || ltb v.max_size cmd_size) && leb cmd_size (length ptr)

abbrev fitting : List ℕ → Option Validator → Found
fitting ptr none = bad
fitting ptr (some v) = if size_fits ptr v then good v else bad

pub look_up : List ℕ → Found
unfolding find_validator size_fits
look_up ptr = fitting ptr (find_validator (hdr_opcode (dword ptr 0)))

-- `hdr` after the privilege check.
abbrev pub checked_header : Validator → ℕ → ℕ
checked_header v header = if v.privileged then with_nop header else header

abbrev pub Validated : Type 0
Validated = (Status × List ℕ) × Trace

-- The end of a round, with the status of the command's own check, and the rounds after it.
pub after_check : Validator → ℕ → List ℕ → (Trace → Validated) → Status → Trace → Validated
after_check v x xs rest (err e) h = ((err e, x ∷ xs), h)
after_check v x xs rest ok h =
    let (out, h') = rest h in
    ((out.0, checked_header v x ∷ (take (hdr_size x - 1) xs ++ out.1)), h')

pub on_found : Hw → ℕ → List ℕ → (Trace → Validated) → Found → Trace → Validated
unfolding after_check
on_found hw x xs rest bad h = ((err einval, x ∷ xs), h)
on_found hw x xs rest (good v) h =
    let (ret, h₁) = run_check hw v.validate (x ∷ xs) h in after_check v x xs rest ret h₁

-- The loop of `mgpu_validate_commands`, from a pointer on: the status, and the buffer from there on
-- as the loop leaves it. The fuel is a bound on the rounds.
pub validate_from : Hw → ℕ → List ℕ → Trace → Validated
unfolding on_found
validate_from hw fuel [] h = ((ok, []), h)
validate_from hw zero (x ∷ xs) h = ((err einval, x ∷ xs), h)
validate_from hw (suc fuel) (x ∷ xs) h =
    on_found hw x xs (λ h'. validate_from hw fuel (drop (hdr_size x) (x ∷ xs)) h')
      (look_up (x ∷ xs)) h

-- `mgpu_validate_commands` on `size_bytes / 4` dwords.
pub validate_commands : Hw → List ℕ → ℕ → Io (Status × List ℕ)
validate_commands hw cmds size_bytes =
    validate_from hw (size_bytes / 4) (take (size_bytes / 4) cmds)
