-- ===== src/Shader/Kept.antt =====
-- The slots that the paths of `mgpu_load_shader` leave.
use package.amdhardware_kernel.Common.{
  ℕ, ◌+◌, ◌*◌, ◌%◌, ◌≤◌, ◌<◌, ◌≡◌, refl, ◌∙◌, inl, inr, Bool, true, false, ◌||◌, Option, none, some,
  List, arith, ltb, leb, ◌==◌, Bool-cases, get_or, set, length-set, get_or-set_self, get_or-set_ne,
}
use package.amdhardware_kernel.Bus.{Trace, Status, ok, err}
use package.amdhardware_kernel.Bus.Regs.{reg_instr_mem_size}
use native.Mathlib.Decide.{ℕ_discrete}
use package.amdhardware_kernel.Shader.{
  ShaderSlot, empty_slot, ShaderMgr, LoadShader, shader_validate, shader_write_to_hw, stored_slot,
  load_code, load_copied, load_shader, shader_compute,
}
use package.amdhardware_kernel.Shader.Slots.{SlotOk, SlotsOk, validate_lem, upload_status}

-- The manager is still there, with well-formed slots.
abbrev pub MgrOk : Option ShaderMgr → Type 0
MgrOk m = (mgr : ShaderMgr) × (m ≡ some mgr) × SlotsOk mgr

stored-SlotOk :
    (args : LoadShader) (code : List ℕ) (s : Status)
    → (8 ≤ args.size) × (args.size ≤ 4096) × (args.size % 4 ≡ 0) × (args.kind ≤ shader_compute)
    → (s ≡ ok → args.slot * 1024 + args.size ≤ 4096)
    → SlotOk args.slot (stored_slot args code s)
stored-SlotOk args code ok (large, small, aligned, known) room = record {
  fits = λ e. room refl;
  large = λ e. large;
  aligned = λ e. aligned;
  known = λ e. known;
  held = λ e. absurd (cc e);
}
stored-SlotOk args code (err x) v room = record {
  fits = λ e. absurd (cc e);
  large = λ e. absurd (cc e);
  aligned = λ e. absurd (cc e);
  known = λ e. absurd (cc e);
  held = λ e. refl;
}

pub set-SlotsOk :
    (mgr : ShaderMgr) (i : ℕ) (s : ShaderSlot)
    → i < 16
    → SlotsOk mgr
    → SlotOk i s
    → SlotsOk (set mgr i s)
set-SlotsOk mgr i s lt v good = record {
  count = length-set mgr i s ∙ v.count;
  each = λ j. at_slot j (ℕ_discrete i j);
}
  where
    at_slot : (j : ℕ) → Dec (i ≡ j) → SlotOk j (get_or (set mgr i s) j empty_slot)
    at_slot j (yes e) = rw (← e, get_or-set_self mgr i s empty_slot (omega (arith, v.count))) good
    at_slot j (no ne) = rw (get_or-set_ne mgr i j s empty_slot ne) (v.each j)

load_code-MgrOk :
    (args : LoadShader) (code : List ℕ) (mgr : ShaderMgr) (s : Status) (h : Trace)
    → args.slot < 16
    → SlotsOk mgr
    → (s ≡ ok → shader_validate code args.size args.kind ≡ ok)
    → MgrOk (load_code args code mgr s h).0.1
unfolding load_code
load_code-MgrOk args code mgr (err x) h lt v valid = (mgr, refl, v)
load_code-MgrOk args code mgr ok h lt v valid = (
  set mgr args.slot (stored_slot args code (shader_write_to_hw args.slot code args.size h).0),
  refl,
  set-SlotsOk mgr args.slot _ lt v (
      stored-SlotOk args code _ ((validate_lem code args.size args.kind).0 (valid refl))
        (upload_status args.slot args.size code h lt).0),
)

load_copied-MgrOk :
    (args : LoadShader) (kmalloc : Bool) (user : Option (List ℕ)) (mgr : ShaderMgr) (h : Trace)
    → args.slot < 16
    → SlotsOk mgr
    → MgrOk (load_copied args kmalloc user mgr h).0.1
unfolding load_copied
load_copied-MgrOk args false user mgr h lt v = (mgr, refl, v)
load_copied-MgrOk args true none mgr h lt v = (mgr, refl, v)
load_copied-MgrOk args true (some code) mgr h lt v = load_code-MgrOk args code mgr _ h lt v (λ e. e)

-- Whatever the arguments, the allocation and the copy from the user, `mgpu_load_shader` keeps sixteen
-- slots, each of which, where it says it is loaded, holds code of an aligned size of at least 8
-- bytes and a known kind that ends inside the instruction memory.
pub load_shader-SlotsOk :
    (args : LoadShader) (kmalloc : Bool) (user : Option (List ℕ)) (mgr : ShaderMgr) (h : Trace)
    → SlotsOk mgr
    → MgrOk (load_shader args kmalloc user (some mgr) h).0.1
unfolding load_shader
load_shader-SlotsOk args kmalloc user mgr h v = elim (Bool-cases (leb 16 args.slot)) [
  | inl high ↦ rw high (mgr, refl, v)
  | inr low ↦ elim (Bool-cases (args.size == 0 || ltb reg_instr_mem_size args.size)) [
    | inl bad ↦ rw (low, bad) (mgr, refl, v)
    | inr good ↦ rw (low, good) (load_copied-MgrOk args kmalloc user mgr h (ground arith) v)
  ]
]
