-- ===== src/Shader/Slots.antt =====
-- The shader slots: what a load needs, leaves and promises to a bind.
use package.amdhardware_kernel.Common.{
  ℕ, zero, suc, ◌+◌, ◌*◌, ◌/◌, ◌%◌, ◌≤◌, ◌<◌, ◌≡◌, refl, ap, ◌∙◌, ◌≢◌, ◌↔◌, Bool, true, false,
  Option, none, some, List, arith, length, get_or, set, replicate, get_or-set_ne, bit_and_mask,
}
use package.amdhardware_kernel.Bus.{Trace, Status, ok, err}
use package.amdhardware_kernel.Shader.{
  ShaderSlot, empty_slot, ShaderMgr, LoadShader, shader_compute, shader_init, shader_validate,
  shader_write_to_hw, stored_slot, load_code, load_copied, load_shader,
}
use package.amdhardware_kernel.Shader.Upload.{instr_mem, shader_write_to_hw_cases}

-- A loaded slot holds code of an aligned size and a known kind that ends inside the instruction memory.
pub record SlotOk (i : ℕ) (s : ShaderSlot) : Type 0 where
  pub fits : s.loaded ≡ true → i * 1024 + s.size ≤ 4096
  pub large : s.loaded ≡ true → 8 ≤ s.size
  pub aligned : s.loaded ≡ true → s.size % 4 ≡ 0
  pub known : s.loaded ≡ true → s.kind ≤ shader_compute
  pub held : s.code ≡ none → s.loaded ≡ false

pub record SlotsOk (mgr : ShaderMgr) : Type 0 where
  pub count : length mgr ≡ 16
  pub each : (i : ℕ) → SlotOk i (get_or mgr i empty_slot)

empty-SlotOk : (i : ℕ) → SlotOk i empty_slot
empty-SlotOk i = ground arith

get_or-replicate {ℓ} : {A : Type ℓ} (n i : ℕ) (a : A) → get_or (replicate n a) i a ≡ a
get_or-replicate zero i a = refl
get_or-replicate (suc n) zero a = refl
get_or-replicate (suc n) (suc i) a = get_or-replicate n i a

pub shader_init-SlotsOk :
    (kzalloc : Bool) (mgr : ShaderMgr) → (shader_init kzalloc).1 ≡ some mgr → SlotsOk mgr
unfolding shader_init
shader_init-SlotsOk false mgr e = absurd (cc e)
shader_init-SlotsOk true mgr e =
    let p : replicate 16 empty_slot ≡ mgr = cc in
    rw (← p)
      (record { count = refl; each = λ i. rw (get_or-replicate 16 i empty_slot) (empty-SlotOk i) })

-- The arguments that the hardware has room for and the driver accepts.
pub record Loadable (args : LoadShader) : Type 0 where
  pub slot_in : args.slot < 16
  pub room : args.slot * 1024 + args.size ≤ 4096
  pub large : 8 ≤ args.size
  pub aligned : args.size % 4 ≡ 0
  pub known : args.kind ≤ shader_compute

pub validate_lem :
    (code : List ℕ) (size kind : ℕ)
    → (shader_validate code size kind ≡ ok)
      ↔ ((8 ≤ size) × (size ≤ 4096) × (size % 4 ≡ 0) × (kind ≤ shader_compute))
unfolding shader_validate
validate_lem code size kind =
    ((λ e. ground (arith, bit_and_mask 2 size)), λ e. ground (arith, bit_and_mask 2 size))

pub upload_status :
    (slot size : ℕ) (code : List ℕ) (h : Trace)
    → slot < 16
    → ((shader_write_to_hw slot code size h).0 ≡ ok) ↔ (slot * 1024 + size ≤ 4096)
unfolding shader_write_to_hw
upload_status slot size code h lt = ((λ e. ground arith), λ e. ground arith)

load_code_ok :
    (args : LoadShader) (code : List ℕ) (mgr : ShaderMgr) (s : Status) (h : Trace)
    → ((load_code args code mgr s h).0.0 ≡ ok)
      ↔ ((s ≡ ok) × ((shader_write_to_hw args.slot code args.size h).0 ≡ ok))
unfolding load_code
load_code_ok args code mgr ok h = ((λ e. (refl, e)), λ p. p.1)
load_code_ok args code mgr (err x) h = ((λ e. cc), λ p. absurd (cc p.0))

reaches :
    (args : LoadShader) (code : List ℕ) (mgr : ShaderMgr) (h : Trace)
    → args.slot < 16
    → args.size ≢ 0
    → args.size ≤ 4096
    → load_shader args true (some code) (some mgr) h
      ≡ load_code args code mgr (shader_validate code args.size args.kind) h
unfolding load_shader load_copied
reaches args code mgr h a b c = ground arith

reached :
    (args : LoadShader) (code : List ℕ) (mgr : ShaderMgr) (h : Trace)
    → (load_shader args true (some code) (some mgr) h).0.0 ≡ ok
    → (args.slot < 16) × (args.size ≢ 0) × (args.size ≤ 4096)
unfolding load_shader load_copied
reached args code mgr h e = ground arith

-- With the memory to copy to and readable code, `mgpu_load_shader` returns 0 exactly for a size of at
-- least 8 bytes in whole dwords, a known kind, and a slot from whose start the code ends inside the
-- 4 KB of instruction memory.
pub load_shader-ok :
    (args : LoadShader) (code : List ℕ) (mgr : ShaderMgr) (h : Trace)
    → ((load_shader args true (some code) (some mgr) h).0.0 ≡ ok) ↔ Loadable args
load_shader-ok args code mgr h = (
  (λ e. needs e (reached args code mgr h e)),
  λ l. rw (reaches args code mgr h l.slot_in (omega arith) (omega arith)) (
      (load_code_ok args code mgr _ h).1 (
        (validate_lem code args.size args.kind).1 (l.large, omega arith, l.aligned, l.known),
        (upload_status args.slot args.size code h l.slot_in).1 l.room,
      )),
)
  where
    needs :
        (load_shader args true (some code) (some mgr) h).0.0 ≡ ok
        → (args.slot < 16) × (args.size ≢ 0) × (args.size ≤ 4096)
        → Loadable args
    needs e (lt, pos, le) =
        let (valid, uploaded) =
          (load_code_ok args code mgr _ h).0 (rw (reaches args code mgr h lt pos le) at e) in
        let (large, small, aligned, known) = (validate_lem code args.size args.kind).0 valid in
        record {
          slot_in = lt;
          room = (upload_status args.slot args.size code h lt).0 uploaded;
          large = large;
          aligned = aligned;
          known = known;
        }

-- What a load that the driver accepts leaves: the status 0, the slot with the code, and the bus as the
-- upload leaves it.
pub load_shader_result :
    (args : LoadShader) (code : List ℕ) (mgr : ShaderMgr) (h : Trace)
    → Loadable args
    → load_shader args true (some code) (some mgr) h ≡ (
      (ok, some (set mgr args.slot (stored_slot args code ok))),
      (shader_write_to_hw args.slot code args.size h).1,
    )
unfolding load_code
load_shader_result args code mgr h l =
    reaches args code mgr h l.slot_in (omega arith) (omega arith)
    ∙ rw ((validate_lem code args.size args.kind).1 (l.large, omega arith, l.aligned, l.known))
        (ground (arith, (upload_status args.slot args.size code h l.slot_in).1 l.room))

-- A load of more than 1 KB into a slot overwrites the start of the next slot's instructions, and
-- leaves that slot's entry as it was, also where it says that a shader is loaded there.
pub load_shader_overlaps :
    (args : LoadShader) (code : List ℕ) (mgr : ShaderMgr) (h : Trace)
    → Loadable args
    → args.size / 4 ≤ length code
    → 1024 < args.size
    → let out = load_shader args true (some code) (some mgr) h in
      (mgr' : ShaderMgr) × (out.0 ≡ (ok, some mgr'))
      × (get_or mgr' (args.slot + 1) empty_slot ≡ get_or mgr (args.slot + 1) empty_slot)
      × (instr_mem out.1 ((args.slot + 1) * 256) ≡ get_or code 256 0)
load_shader_overlaps args code mgr h l enough big = (
  set mgr args.slot (stored_slot args code ok),
  ap (λ (o : (Status × Option ShaderMgr) × Trace). o.0) (load_shader_result args code mgr h l),
  get_or-set_ne mgr args.slot (args.slot + 1) _ empty_slot (omega arith),
  ap (λ (o : (Status × Option ShaderMgr) × Trace). instr_mem o.1 ((args.slot + 1) * 256))
        (load_shader_result args code mgr h l)
      ∙ ap (instr_mem (shader_write_to_hw args.slot code args.size h).1) {x = (args.slot + 1) * 256}
          {y = args.slot * 256 + 256} (omega arith)
      ∙ ((shader_write_to_hw_cases args.slot args.size code h l.slot_in enough).0 l.room).1 256
          (omega arith),
)
