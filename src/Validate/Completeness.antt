-- ===== src/Validate/Completeness.antt =====
-- The loop of `mgpu_validate_commands` on the buffers of the grammar.
use package.amdhardware_kernel.Common.{
  ℕ, zero, suc, ◌/◌, ◌≤◌, ◌≡◌, refl, ap, ◌≢◌, ◌↔◌, List, ◌∷◌, ◌++◌, arith, length, take, drop,
  length-append, bit_and_mask, length-take-le, take-append, drop-append,
}
use package.amdhardware_kernel.Bus.{Trace, Hw, Status, ok}
use package.amdhardware_kernel.Bus.Regs.{reg_vertex_base}
use package.amdhardware_kernel.Validate.{
  hdr_opcode, hdr_size, Check, no_check, draw_check, dma_check, fence_check, Validator, dword,
  run_check, validate_draw_cmd, validate_dma_cmd, validate_fence_cmd, good, size_fits, look_up,
  Validated, after_check, on_found, validate_from, validate_commands,
}
use package.amdhardware_kernel.Validate.Grammar.{Meets, Allowed, Commands, done, next, listed_facts}
use package.amdhardware_kernel.Validate.Soundness.{Meets-take, validate_from_sound}

-- A vertex buffer is configured, whenever the driver looks.
abbrev pub VertexBase : Hw → Type 0
VertexBase hw = (h : Trace) → hw h reg_vertex_base ≢ 0

run_check_passes :
    (hw : Hw) (c : Check) (cmd : List ℕ) (h : Trace)
    → VertexBase hw
    → Meets c cmd
    → (run_check hw c cmd h).0 ≡ ok
unfolding run_check validate_draw_cmd validate_dma_cmd validate_fence_cmd
run_check_passes hw no_check cmd h base m = refl
run_check_passes hw draw_check cmd h base m = ground (arith, base h)
run_check_passes hw dma_check cmd h base m = ground (
  arith,
  bit_and_mask 2 (dword cmd 1),
  bit_and_mask 2 (dword cmd 2),
  bit_and_mask 2 (dword cmd 3),
)
run_check_passes hw fence_check cmd h base m = ground (arith, bit_and_mask 2 (dword cmd 1))

module _ (header : ℕ) (args rest : List ℕ) (size : hdr_size header ≡ suc (length args))
    (a : Allowed header args) where
  look_up-allowed : look_up (header ∷ (args ++ rest)) ≡ good a.rule
  unfolding look_up size_fits
  look_up-allowed = rw a.listed (ground (arith, a.at_least, a.at_most, length-append args rest))

  limits_whole : Meets a.rule.validate (header ∷ (args ++ rest))
  limits_whole =
      (Meets-take a.rule.validate (length args) header (args ++ rest) enough).1
        (rw (take-append args rest) a.limits)
    where
      enough :
          (a.rule.validate ≡ draw_check → 4 ≤ length args)
          × (a.rule.validate ≡ dma_check → 3 ≤ length args)
          × (a.rule.validate ≡ fence_check → 2 ≤ length args)
      enough =
          let facts = listed_facts (hdr_opcode header) a.rule a.listed in
          let least = a.at_least in
          (
            (λ e. let b = facts.2 e in omega arith),
            (λ e. let b = facts.3 e in omega arith),
            λ e. let b = facts.4 e in omega arith,
          )

  rest_after : drop (hdr_size header) (header ∷ (args ++ rest)) ≡ rest
  rest_after = rw size (drop-append args rest)

passes_on :
    (hw : Hw) (x : ℕ) (xs : List ℕ) (v : Validator) (rest : Trace → Validated) (h : Trace)
    → look_up (x ∷ xs) ≡ good v
    → (run_check hw v.validate (x ∷ xs) h).0 ≡ ok
    → ((h' : Trace) → (rest h').0.0 ≡ ok)
    → (on_found hw x xs rest (look_up (x ∷ xs)) h).0.0 ≡ ok
unfolding on_found after_check
passes_on hw x xs v rest h found checked later =
    rw (found, on_found) (rw (checked, after_check) (later _))

-- A sequence of allowed commands passes when there are at least as many rounds as dwords.
pub validate_from_complete :
    (hw : Hw) (fuel : ℕ) (ptr : List ℕ) (h : Trace)
    → VertexBase hw
    → Commands Allowed ptr
    → length ptr ≤ fuel
    → (validate_from hw fuel ptr h).0.0 ≡ ok
unfolding validate_from
validate_from_complete hw fuel ptr h base done le = refl
validate_from_complete hw zero ptr h base (next header args rest size a cs e) le =
    absurd (let l = ap length e in omega arith)
validate_from_complete hw (suc fuel) ptr h base (next header args rest size a cs e) le = rw e (
    passes_on hw header (args ++ rest) a.rule _ h (look_up-allowed header args rest size a)
      (run_check_passes hw a.rule.validate (header ∷ (args ++ rest)) h base
        (limits_whole header args rest size a))
      (λ h'.
        rw (rest_after header args rest size a)
          (validate_from_complete hw fuel rest h' base cs fewer)))
  where
    fewer : length rest ≤ fuel
    fewer = let l = ap length e in omega (arith, length-append {0} args rest)

-- With a vertex buffer configured, `mgpu_validate_commands` returns 0 exactly when the first
-- `size_bytes / 4` dwords are a sequence of allowed commands: the loop's rounds are always enough.
pub validate_commands-ok :
    (hw : Hw) (cmds : List ℕ) (size_bytes : ℕ) (h : Trace)
    → VertexBase hw
    → ((validate_commands hw cmds size_bytes h).0.0 ≡ ok)
      ↔ Commands Allowed (take (size_bytes / 4) cmds)
unfolding validate_commands
validate_commands-ok hw cmds size_bytes h base = (
  (λ e.
      (validate_from_sound hw (size_bytes / 4) (take (size_bytes / 4) cmds) h
        (validate_from hw (size_bytes / 4) (take (size_bytes / 4) cmds) h).0.1 (status_first e)).0),
  λ cs.
      validate_from_complete hw (size_bytes / 4) (take (size_bytes / 4) cmds) h base cs
        (length-take-le (size_bytes / 4) cmds),
)
  where
    status_first : {out : Status × List ℕ} → out.0 ≡ ok → out ≡ (ok, out.1)
    status_first {out} e = λ i. (e i, out.1)
