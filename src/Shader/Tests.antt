-- ===== src/Shader/Tests.antt =====
-- Loads into the first slots, and a halt that does not clear.
use package.amdhardware_kernel.Common.{
  none, ℕ, ◌≡◌, refl, true, some, List, [], ◌∷◌, arith, replicate,
}
use package.amdhardware_kernel.Shader.{
  shader_fini, empty_slot, ShaderMgr, LoadShader, shader_init, shader_write_to_hw, write_instrs,
  load_shader,
}
use package.amdhardware_kernel.Bus.{wr, Hw, ok}
use package.amdhardware_kernel.Bus.Regs.{
  reg_shader_addr, reg_shader_data, reg_shader_ctrl, status_halted,
}
use package.amdhardware_kernel.Shader.Slots.{SlotsOk, shader_init-SlotsOk, Loadable}
use package.amdhardware_kernel.Shader.Kept.{MgrOk, load_shader-SlotsOk}

abbrev fresh : ShaderMgr
fresh = replicate 16 empty_slot

abbrev short : LoadShader
short = record { size = 8; kind = 1; slot = 2 }

abbrev long : LoadShader
long = record { size = 2048; kind = 0; slot = 0 }

long-Loadable : Loadable long
long-Loadable = omega arith

uploaded : shader_write_to_hw 1 (5 ∷ 7 ∷ []) 8 [] ≡ (
  ok,
  wr reg_shader_ctrl 0x10002
      ∷ wr reg_shader_data 7
      ∷ wr reg_shader_addr 257
      ∷ wr reg_shader_data 5
      ∷ wr reg_shader_addr 256
      ∷ [],
)
unfolding shader_write_to_hw write_instrs
uploaded = refl

abbrev long_code : List ℕ
long_code = replicate 512 9

fresh-SlotsOk : SlotsOk fresh
unfolding shader_init
fresh-SlotsOk = shader_init-SlotsOk true fresh refl

load_shader-SlotsOk_example : MgrOk (load_shader short true (some (1 ∷ 2 ∷ [])) (some fresh) []).0.1
load_shader-SlotsOk_example =
    load_shader-SlotsOk short true (some (1 ∷ 2 ∷ [])) fresh [] fresh-SlotsOk

abbrev halting : Hw
halting h r = status_halted

finished : shader_fini none ≡ none
unfolding shader_fini
finished = refl
