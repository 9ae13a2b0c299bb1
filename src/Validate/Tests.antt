-- ===== src/Validate/Tests.antt =====
-- Buffers of one and two commands, with and without a privileged one.
use package.amdhardware_kernel.Common.{ℕ, ◌≡◌, refl, ◌↔◌, true, none, some, List, [], ◌∷◌, arith}
use package.amdhardware_kernel.Bus.{Hw, Io, einval, ok, err}
use package.amdhardware_kernel.Ring.{Ring}
use package.amdhardware_kernel.Ring.Submit.{Submit, Kernel}
use package.amdhardware_kernel.Validate.{
  look_up, run_check, after_check, on_found, validate_draw_cmd, validate_from, validate_commands,
}
use package.amdhardware_kernel.Validate.Grammar.{Allowed, Harmless, Commands}
use package.amdhardware_kernel.Validate.Soundness.{validate_from_sound}
use package.amdhardware_kernel.Validate.Completeness.{validate_commands-ok}
use package.amdhardware_kernel.Validate.Checked.{Copy}

abbrev configured : Hw
configured h r = 0x4000

-- A draw of three vertices, then a register write of three dwords.
abbrev buffer : List ℕ
buffer = 0x501 ∷ 3 ∷ 1 ∷ 0 ∷ 0 ∷ 0x306 ∷ 8 ∷ 1 ∷ []

buffer_passes :
    (validate_from configured 8 buffer []).0 ≡ (ok, 0x501 ∷ 3 ∷ 1 ∷ 0 ∷ 0 ∷ 0x300 ∷ 8 ∷ 1 ∷ [])
unfolding validate_from on_found after_check look_up run_check validate_draw_cmd
buffer_passes = refl

validate_from_sound_example :
    Commands Allowed buffer
    × Commands Harmless (0x501 ∷ 3 ∷ 1 ∷ 0 ∷ 0 ∷ 0x300 ∷ 8 ∷ 1 ∷ [])
    × (◌≡◌ {A = ℕ} 8 8)
validate_from_sound_example =
    validate_from_sound configured 8 buffer [] (0x501 ∷ 3 ∷ 1 ∷ 0 ∷ 0 ∷ 0x300 ∷ 8 ∷ 1 ∷ [])
      buffer_passes

validate_commands-ok_example :
    ((validate_commands configured buffer 32 []).0.0 ≡ ok) ↔ Commands Allowed buffer
validate_commands-ok_example = validate_commands-ok configured buffer 32 [] (λ h. omega arith)

-- A draw of no vertices.
abbrev empty_draw : List ℕ
empty_draw = 0x501 ∷ 0 ∷ 1 ∷ 0 ∷ 0 ∷ []

empty_draw_refused : (validate_commands configured empty_draw 20 []).0.0 ≡ err einval
unfolding validate_commands validate_from on_found after_check look_up run_check validate_draw_cmd
empty_draw_refused = refl

abbrev args : Submit
args = record {
  commands = 0x7000;
  cmd_size = 20;
  queue_id = 0;
  flags = 0;
  fence_addr = 0;
  fence_value = 0;
}

abbrev kern : Kernel
kern = record {
  pow2 = record { is_power_of_2 = λ n. true; roundup_pow_of_two = λ n. n };
  alloc = record { kzalloc = true; dma_alloc = some 0x8000 };
  kmalloc = true;
  user = none;
}

abbrev copy : Copy
copy = record { kmalloc = some 0x9000; user = some empty_draw }

abbrev no_space : Ring → Io ℕ
no_space r h = (0, h)
