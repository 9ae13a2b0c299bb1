-- ===== src/Shader/Upload.antt =====
-- What `mgpu_shader_write_to_hw` does to the instruction memory. The memory is described from the
-- bus alone: a write to the data register stores at the address last written to the address register.
use package.amdhardware_kernel.Common.{
  inr, ◌-◌, ◌&&◌, if◌then◌else◌, Bool-cases, ltb, leb, ℕ, zero, suc, ◌+◌, ◌*◌, ◌/◌, ◌^◌, ◌≤◌, ◌<◌,
  bit_and, bit_or, ◌≡◌, refl, ap, ◌∙◌, ◌⊎◌, inl, List, [], ◌∷◌, arith, ◌==◌, length, get_or, take,
  u32, length-take_all, get_or-take,
}
use package.amdhardware_kernel.Bus.{wr, Trace, enospc, Status, ok, err}
use package.amdhardware_kernel.Bus.Regs.{reg_shader_addr, reg_shader_data, reg_shader_ctrl}
use package.amdhardware_kernel.Shader.{write_instrs, shader_write_to_hw}

unfoldable pub instr_addr : Trace → ℕ
instr_addr [] = 0
instr_addr (wr r v ∷ h) = let rest = instr_addr h in if r == reg_shader_addr then v else rest
instr_addr (_ ∷ h) = instr_addr h

unfoldable pub instr_mem : Trace → ℕ → ℕ
instr_mem [] a = 0
instr_mem (wr r v ∷ h) a =
    let rest = instr_mem h a in if (r == reg_shader_data) && (instr_addr h == a) then v else rest
instr_mem (_ ∷ h) a = instr_mem h a

stored_one :
    (x offset a : ℕ) (h : Trace)
    → instr_mem (wr reg_shader_data x ∷ wr reg_shader_addr offset ∷ h) a
      ≡ (if offset == a then x else instr_mem h a)
unfolding instr_mem instr_addr
stored_one x offset a h = ground arith

pub write_instrs_outside :
    (xs : List ℕ) (offset a : ℕ) (h : Trace)
    → (a < offset) ⊎ (offset + length xs ≤ a)
    → instr_mem (write_instrs offset xs h).1 a ≡ instr_mem h a
unfolding write_instrs
write_instrs_outside [] offset a h out = refl
write_instrs_outside (x ∷ xs) offset a h out =
    write_instrs_outside xs (offset + 1) a _ (shift out) ∙ ground (arith, stored_one x offset a h)
  where
    shift :
        (a < offset) ⊎ (offset + suc (length xs) ≤ a)
        → (a < offset + 1) ⊎ (offset + 1 + length xs ≤ a)
    shift o = omega arith

pub write_instrs_inside :
    (xs : List ℕ) (offset i : ℕ) (h : Trace)
    → i < length xs
    → instr_mem (write_instrs offset xs h).1 (offset + i) ≡ get_or xs i 0
unfolding write_instrs
write_instrs_inside [] offset i h lt = elim lt [ ]
write_instrs_inside (x ∷ xs) offset zero h lt =
    ap (instr_mem (write_instrs offset (x ∷ xs) h).1) (omega arith)
    ∙ write_instrs_outside xs (offset + 1) offset _ (inl (omega arith))
    ∙ ground (arith, stored_one x offset offset h)
write_instrs_inside (x ∷ xs) offset (suc i) h lt =
    ap (instr_mem (write_instrs offset (x ∷ xs) h).1) {x = offset + suc i} {y = offset + 1 + i}
      (omega arith)
    ∙ write_instrs_inside xs (offset + 1) i _ (omega arith)

abbrev ctrl_value : ℕ → ℕ → ℕ
ctrl_value slot size = bit_or (u32 (slot * 2 ^ 16)) (bit_and (size / 4) 0xFFFF)

uploads :
    (slot size : ℕ) (code : List ℕ) (h : Trace)
    → slot < 16
    → slot * 1024 + size ≤ 4096
    → shader_write_to_hw slot code size h ≡ (
      ok,
      wr reg_shader_ctrl (ctrl_value slot size)
          ∷ (write_instrs (slot * 256) (take (size / 4) code) h).1,
    )
unfolding shader_write_to_hw
uploads slot size code h lt fits =
    let e : u32 (slot * 256) ≡ slot * 256 = omega arith in ground (arith, e)

ctrl_keeps : (v a : ℕ) (h : Trace) → instr_mem (wr reg_shader_ctrl v ∷ h) a ≡ instr_mem h a
unfolding instr_mem
ctrl_keeps v a h = refl

pub shader_write_to_hw_cases :
    (slot size : ℕ) (code : List ℕ) (h : Trace)
    → slot < 16
    → size / 4 ≤ length code
    → let out = shader_write_to_hw slot code size h in
      (slot * 1024 + size ≤ 4096
        → (out.0 ≡ ok)
          × ((i : ℕ) → i < size / 4 → instr_mem out.1 (slot * 256 + i) ≡ get_or code i 0)
          × ((a : ℕ)
              → (a < slot * 256) ⊎ (slot * 256 + size / 4 ≤ a)
              → instr_mem out.1 a ≡ instr_mem h a))
      × (4096 < slot * 1024 + size → out ≡ (err enospc, h))
unfolding shader_write_to_hw
shader_write_to_hw_cases slot size code h lt enough = (
  (λ fits.
      let e = uploads slot size code h lt fits in
      (
        ap (λ (o : Status × Trace). o.0) e,
        (λ i il.
            ap (λ (o : Status × Trace). instr_mem o.1 (slot * 256 + i)) e
            ∙ ctrl_keeps (ctrl_value slot size) (slot * 256 + i) _
            ∙ write_instrs_inside (take (size / 4) code) (slot * 256) i h (rw all il)
            ∙ get_or-take (size / 4) i code 0 il),
        λ a out.
            ap (λ (o : Status × Trace). instr_mem o.1 a) e
            ∙ ctrl_keeps (ctrl_value slot size) a _
            ∙ write_instrs_outside (take (size / 4) code) (slot * 256) a h (rw all out),
      )),
  λ big. ground arith,
)
  where
    all : length (take (size / 4) code) ≡ size / 4
    all = length-take_all (size / 4) code enough

-- A memory that is known inside a range and outside it is known at every address.
placed :
    (start n a : ℕ) (h t : Trace) (code : List ℕ)
    → ((i : ℕ) → i < n → instr_mem t (start + i) ≡ get_or code i 0)
    → ((a : ℕ) → (a < start) ⊎ (start + n ≤ a) → instr_mem t a ≡ instr_mem h a)
    → instr_mem t a
      ≡ (if leb start a && ltb a (start + n) then get_or code (a - start) 0 else instr_mem h a)
placed start n a h t code inside outside = elim (Bool-cases (leb start a)) [
  | inl up ↦ elim (Bool-cases (ltb a (start + n))) [
    | inl under ↦
        let at : start + (a - start) ≡ a = ground arith in
        let found = inside (a - start) (ground arith) in rw (up, under) (rw at at found)
    | inr above ↦ rw (up, above) (outside a (inr (ground arith)))
  ]
  | inr down ↦ rw down (outside a (inl (ground arith)))
]

-- A shader of `size` bytes for a slot below 16 is uploaded exactly when it ends inside the 4 KB
-- of instruction memory, counted from the slot's start at 1 KB steps: then the status is 0 and the
-- dwords of the code are at the addresses from `slot * 256` on, in order. All other addresses, and
-- every address when the status is -ENOSPC, are as they were.
pub shader_write_to_hw_lem :
    (slot size : ℕ) (code : List ℕ) (h : Trace) (a : ℕ)
    → slot < 16
    → size / 4 ≤ length code
    → let out = shader_write_to_hw slot code size h in
      let fits = leb (slot * 1024 + size) 4096 in
      (out.0 ≡ (if fits then ok else err enospc))
      × (instr_mem out.1 a ≡ (
          if fits && (leb (slot * 256) a && ltb a (slot * 256 + size / 4))
          then get_or code (a - slot * 256) 0
          else instr_mem h a))
shader_write_to_hw_lem slot size code h a lt enough =
    let (small, large) = shader_write_to_hw_cases slot size code h lt enough in
    elim (Bool-cases (leb (slot * 1024 + size) 4096)) [
      | inl fit ↦
          let (done, inside, outside) = small (ground arith) in
          (
            ground (arith, done),
            ground (
              arith,
              placed (slot * 256) (size / 4) a h (shader_write_to_hw slot code size h).1 code inside
                  outside,
            ),
          )
      | inr big ↦
          let refused = large (ground arith) in (ground (arith, refused), ground (arith, refused))
    ]
