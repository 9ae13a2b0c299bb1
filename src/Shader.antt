-- ===== src/Shader.antt =====
-- kernel/drivers/gpu/mgpu/mgpu_shader.c: sixteen shader slots and the instruction memory, with
-- `mgpu_shader_handle_halt` of kernel/drivers/gpu/mgpu/mgpu_cmdq.c.
pub mod Upload
pub mod Slots
pub mod Kept
pub mod Halt
mod Tests
use package.amdhardware_kernel.Common.{
  ℕ, ◌+◌, ◌*◌, ◌/◌, ◌^◌, bit_and, bit_or, Bool, true, false, not, ◌||◌, Option, none, some, List,
  [], ◌∷◌, ltb, leb, ◌==◌, if◌then◌else◌, get_or, set, replicate, take, u32, flag,
}
use package.amdhardware_kernel.Bus.{
  wr, Io, ◌>>=◌, ◌>>◌, pure, write, enoent, enomem, efault, enodev, einval, enospc, Status, ok, err,
  unit_done,
}
use package.amdhardware_kernel.Bus.Regs.{
  reg_shader_pc, reg_shader_addr, reg_shader_data, reg_shader_ctrl, reg_instr_mem_size,
}

-- `struct mgpu_shader_slot`; `code` is `none` for a null pointer.
pub record ShaderSlot : Type 0 where
  pub code : Option (List ℕ)
  pub size : ℕ
  pub kind : ℕ
  pub loaded : Bool

abbrev pub empty_slot : ShaderSlot
empty_slot = record { code = none; size = 0; kind = 0; loaded = false }

-- The slots of `struct mgpu_shader_mgr`; `none` for `mdev->shader_mgr` is a null pointer.
abbrev pub ShaderMgr : Type 0
ShaderMgr = List ShaderSlot

abbrev pub shader_vertex : ℕ
shader_vertex = 0

abbrev pub shader_fragment : ℕ
shader_fragment = 1

abbrev pub shader_compute : ℕ
shader_compute = 2

-- `struct mgpu_load_shader`, without the user pointer and the flags that are not read.
pub record LoadShader : Type 0 where
  pub size : ℕ
  pub kind : ℕ
  pub slot : ℕ

-- `mgpu_shader_init`, given whether `kzalloc` succeeds.
pub shader_init : Bool → Status × Option ShaderMgr
shader_init false = (err enomem, none)
shader_init true = (ok, some (replicate 16 empty_slot))

-- `mgpu_shader_fini` frees the code of every slot and the manager.
pub shader_fini : Option ShaderMgr → Option ShaderMgr
shader_fini mgr = none

-- `mgpu_shader_validate`: the magic number of `code[0]` is looked at, but only logged.
pub shader_validate : List ℕ → ℕ → ℕ → Status
shader_validate code size kind =
    if ltb size 8 || ltb reg_instr_mem_size size
    then err einval
    else if flag size 3
    then err einval
    else if ltb shader_compute kind
    then err einval
    else ok

-- The loop of `mgpu_shader_write_to_hw` from address `offset` on.
pub write_instrs : ℕ → List ℕ → Io (Unit {0})
write_instrs offset [] h = (tt, h)
write_instrs offset (x ∷ xs) h =
    write_instrs (offset + 1) xs (wr reg_shader_data x ∷ wr reg_shader_addr offset ∷ h)

pub shader_write_to_hw : ℕ → List ℕ → ℕ → Io Status
shader_write_to_hw slot code size =
    if ltb reg_instr_mem_size (u32 (u32 (slot * 256) * 4) + size) then pure (err enospc) else do
      write_instrs (u32 (slot * 256)) (take (size / 4) code)
      write reg_shader_ctrl (bit_or (u32 (slot * 2 ^ 16)) (bit_and (size / 4) 0xFFFF))
      pure ok

-- The slot after the write to the hardware, by its result.
abbrev pub stored_slot : LoadShader → List ℕ → Status → ShaderSlot
stored_slot args code ok = record {
  code = some code;
  size = args.size;
  kind = args.kind;
  loaded = true;
}
stored_slot args code (err e) = record {
  code = none;
  size = args.size;
  kind = args.kind;
  loaded = false;
}

-- From the validation of the copied code on.
pub load_code : LoadShader → List ℕ → ShaderMgr → Status → Io (Status × Option ShaderMgr)
load_code args code mgr (err e) = pure (err e, some mgr)
load_code args code mgr ok = do
  ret ← shader_write_to_hw args.slot code args.size
  pure (ret, some (set mgr args.slot (stored_slot args code ret)))

pub load_copied : LoadShader → Bool → Option (List ℕ) → ShaderMgr → Io (Status × Option ShaderMgr)
unfolding load_code
load_copied args false user mgr = pure (err enomem, some mgr)
load_copied args true none mgr = pure (err efault, some mgr)
load_copied args true (some code) mgr =
    load_code args code mgr (shader_validate code args.size args.kind)

-- `mgpu_load_shader`, given whether `kmalloc` succeeds and the dwords that `copy_from_user` copies.
pub load_shader :
    LoadShader → Bool → Option (List ℕ) → Option ShaderMgr → Io (Status × Option ShaderMgr)
unfolding load_copied
load_shader args kmalloc user none = pure (err enodev, none)
load_shader args kmalloc user (some mgr) =
    if leb 16 args.slot
    then pure (err einval, some mgr)
    else if args.size == 0 || ltb reg_instr_mem_size args.size
    then pure (err einval, some mgr)
    else load_copied args kmalloc user mgr

-- The register that a shader of this kind is bound by, where there is one.
pc_write : ℕ → ℕ → Io (Unit {0})
pc_write kind pc_offset =
    if kind == shader_vertex
    then write reg_shader_pc pc_offset
    else if kind == shader_fragment
    then write (reg_shader_pc + 4) pc_offset
    else if kind == shader_compute
    then write (reg_shader_pc + 8) pc_offset
    else unit_done

pub shader_bind : ℕ → ℕ → Option ShaderMgr → Io Status
unfolding pc_write
shader_bind slot kind none = pure (err enodev)
shader_bind slot kind (some mgr) =
    if leb 16 slot
    then pure (err einval)
    else (let shader = get_or mgr slot empty_slot in
        if not shader.loaded
        then pure (err enoent)
        else if not (shader.kind == kind)
        then pure (err einval)
        else pc_write kind (u32 (slot * 256)) >> pure ok)

-- The size and the kind go through the pointers where the status is 0.
pub shader_get_info : ℕ → Option ShaderMgr → Status × Option (ℕ × ℕ)
shader_get_info slot none = (err enodev, none)
shader_get_info slot (some mgr) =
    if leb 16 slot
    then (err einval, none)
    else (let shader = get_or mgr slot empty_slot in
        if not shader.loaded then (err enoent, none) else (ok, some (shader.size, shader.kind)))
