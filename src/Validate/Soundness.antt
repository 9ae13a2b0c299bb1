-- ===== src/Validate/Soundness.antt =====
-- The loop of `mgpu_validate_commands` on the buffers that it accepts.
use package.amdhardware_kernel.Common.{
  ℕ, zero, suc, ◌-◌, ◌≤◌, ◌<◌, ◌≡◌, refl, sym, ap, ◌∙◌, ◌↔◌, ◌⊎◌, inl, inr, true, false, Option,
  none, some, List, [], ◌∷◌, ◌++◌, arith, length, take, drop, length-append, bit_and_mask,
  get_or-take, length-take_all, take-append-drop, length-drop-add,
}
use package.amdhardware_kernel.Bus.{Trace, Hw, Status, ok, err}
use package.amdhardware_kernel.Bus.Regs.{cmd_nop, cmd_reg_write}
use package.amdhardware_kernel.Validate.{
  hdr_opcode, hdr_size, with_nop, Check, no_check, draw_check, dma_check, fence_check, Validator,
  find_validator, dword, run_check, validate_draw_cmd, validate_dma_cmd, validate_fence_cmd, Found,
  bad, good, fitting, size_fits, look_up, checked_header, Validated, after_check, on_found,
  validate_from,
}
use package.amdhardware_kernel.Validate.Grammar.{
  Meets, Allowed, Harmless, Commands, done, next, listed_facts,
}

-- The check of a command passes only within the limits.
pub run_check-Meets :
    (hw : Hw) (c : Check) (cmd : List ℕ) (h : Trace) → (run_check hw c cmd h).0 ≡ ok → Meets c cmd
unfolding run_check validate_draw_cmd validate_dma_cmd validate_fence_cmd
run_check-Meets hw no_check cmd h e = tt
run_check-Meets hw draw_check cmd h e = ground arith
run_check-Meets hw dma_check cmd h e = ground (
  arith,
  bit_and_mask 2 (dword cmd 1),
  bit_and_mask 2 (dword cmd 2),
  bit_and_mask 2 (dword cmd 3),
)
run_check-Meets hw fence_check cmd h e = ground (arith, bit_and_mask 2 (dword cmd 1))

-- The limits look only at the dwords that a listed command of the kind has.
pub Meets-take :
    (c : Check) (m x : ℕ) (xs : List ℕ)
    → (c ≡ draw_check → 4 ≤ m) × (c ≡ dma_check → 3 ≤ m) × (c ≡ fence_check → 2 ≤ m)
    → Meets c (x ∷ xs) ↔ Meets c (x ∷ take m xs)
Meets-take no_check m x xs enough = ((λ l. l), λ l. l)
Meets-take draw_check m x xs enough =
    let b = enough.0 refl in
    rw (get_or-take m 0 xs 0 (omega arith), get_or-take m 1 xs 0 (omega arith)) ((λ l. l), λ l. l)
Meets-take dma_check m x xs enough =
    let b = enough.1 refl in
    rw
      (
        get_or-take m 0 xs 0 (omega arith),
        get_or-take m 1 xs 0 (omega arith),
        get_or-take m 2 xs 0 (omega arith),
      )
      ((λ l. l), λ l. l)
Meets-take fence_check m x xs enough =
    let b = enough.2 refl in rw (get_or-take m 0 xs 0 (omega arith)) ((λ l. l), λ l. l)

-- What the look-up of a round has found.
pub record Fits (x : ℕ) (xs : List ℕ) (v : Validator) : Type 0 where
  pub listed : find_validator (hdr_opcode x) ≡ some v
  pub at_least : v.min_size ≤ hdr_size x
  pub at_most : hdr_size x ≤ v.max_size
  pub inside : hdr_size x ≤ suc (length xs)

fitting-Fits :
    (x : ℕ) (xs : List ℕ) (o : Option Validator) (v : Validator)
    → find_validator (hdr_opcode x) ≡ o
    → fitting (x ∷ xs) o ≡ good v
    → Fits x xs v
unfolding size_fits
fitting-Fits x xs none v e f = absurd (cc f)
fitting-Fits x xs (some w) v e f = ground arith

pub look_up-Fits : (x : ℕ) (xs : List ℕ) (v : Validator) → look_up (x ∷ xs) ≡ good v → Fits x xs v
unfolding look_up
look_up-Fits x xs v e = fitting-Fits x xs (find_validator (hdr_opcode x)) v refl e

drop_header : (n x : ℕ) (xs : List ℕ) → 0 < n → drop n (x ∷ xs) ≡ drop (n - 1) xs
drop_header zero x xs h = elim h [ ]
drop_header (suc n) x xs h = ap (λ m. drop m xs) (omega arith)

with_nop_facts :
    (x : ℕ) → (hdr_opcode (with_nop x) ≡ cmd_nop) × (hdr_size (with_nop x) ≡ hdr_size x)
with_nop_facts x = omega arith

-- A round's command, allowed, with its header after the privilege check harmless.
abbrev args_of : ℕ → List ℕ → List ℕ
args_of x xs = take (hdr_size x - 1) xs

round-Allowed :
    (x : ℕ) (xs : List ℕ) (v : Validator)
    → Fits x xs v
    → Meets v.validate (x ∷ xs)
    → Allowed x (args_of x xs)
round-Allowed x xs v f m = record {
  rule = v;
  listed = f.listed;
  at_least = f.at_least;
  at_most = f.at_most;
  limits = (Meets-take v.validate (hdr_size x - 1) x xs enough).0 m;
}
  where
    enough :
        (v.validate ≡ draw_check → 4 ≤ hdr_size x - 1)
        × (v.validate ≡ dma_check → 3 ≤ hdr_size x - 1)
        × (v.validate ≡ fence_check → 2 ≤ hdr_size x - 1)
    enough =
        let facts = listed_facts (hdr_opcode x) v f.listed in
        (
          (λ e. let b = facts.2 e in omega arith),
          (λ e. let b = facts.3 e in omega arith),
          λ e. let b = facts.4 e in omega arith,
        )

round-Harmless :
    (x : ℕ) (xs : List ℕ) (v : Validator)
    → Fits x xs v
    → Meets v.validate (x ∷ xs)
    → Harmless (checked_header v x) (args_of x xs) × (hdr_size (checked_header v x) ≡ hdr_size x)
round-Harmless x xs v f m = by_rank (listed_facts (hdr_opcode x) v f.listed).1
  where
    by_rank :
        (v.privileged ≡ true) ⊎ ((v.privileged ≡ false) × (hdr_opcode x < cmd_reg_write))
        → Harmless (checked_header v x) (args_of x xs)
          × (hdr_size (checked_header v x) ≡ hdr_size x)
    by_rank (inl p) = rw p (inl (with_nop_facts x).0, (with_nop_facts x).1)
    by_rank (inr (p, low)) = rw p (inr (low, round-Allowed x xs v f m), refl)

abbrev Sound : List ℕ → List ℕ → Type 0
Sound ptr out = Commands Allowed ptr × Commands Harmless out × (length out ≡ length ptr)

round-Sound :
    (x : ℕ) (xs : List ℕ) (v : Validator) (out : List ℕ)
    → Fits x xs v
    → Meets v.validate (x ∷ xs)
    → Sound (drop (hdr_size x) (x ∷ xs)) out
    → Sound (x ∷ xs) (checked_header v x ∷ (args_of x xs ++ out))
round-Sound x xs v out f m (allowed, harmless, same) = (
  next x (args_of x xs) (drop (hdr_size x - 1) xs) whole (round-Allowed x xs v f m)
      (rw (drop_header (hdr_size x) x xs pos) at allowed)
      (ap (λ l. x ∷ l) (sym (take-append-drop (hdr_size x - 1) xs))),
  next (checked_header v x) (args_of x xs) out ((round-Harmless x xs v f m).1 ∙ whole)
      (round-Harmless x xs v f m).0 harmless refl,
  omega (
    arith,
    length-append {0} (args_of x xs) out,
    long,
    length-drop-add (hdr_size x) (x ∷ xs) f.inside,
    pos,
  ),
)
  where
    pos : 0 < hdr_size x
    pos = let b = (listed_facts (hdr_opcode x) v f.listed).0 in let l = f.at_least in omega arith

    long : length (args_of x xs) ≡ hdr_size x - 1
    long = let i = f.inside in length-take_all (hdr_size x - 1) xs (omega arith)

    whole : hdr_size x ≡ suc (length (args_of x xs))
    whole = omega (arith, long, pos)

after_check-Sound :
    (x : ℕ) (xs : List ℕ) (v : Validator) (rest : Trace → Validated) (s : Status) (h : Trace)
    (out : List ℕ)
    → Fits x xs v
    → (s ≡ ok → Meets v.validate (x ∷ xs))
    → ((h' : Trace) (out' : List ℕ)
        → (rest h').0 ≡ (ok, out')
        → Sound (drop (hdr_size x) (x ∷ xs)) out')
    → (after_check v x xs rest s h).0 ≡ (ok, out)
    → Sound (x ∷ xs) out
unfolding after_check
after_check-Sound x xs v rest (err e) h out f m ih r =
    absurd (cc (ap (λ (o : Status × List ℕ). o.0) r))
after_check-Sound x xs v rest ok h out f m ih r =
    let later = ih h (rest h).0.1 (ground arith) in
    let e : checked_header v x ∷ (args_of x xs ++ (rest h).0.1) ≡ out =
      ap (λ (o : Status × List ℕ). o.1) r in
    rw (← e) (round-Sound x xs v (rest h).0.1 f (m refl) later)

on_found-Sound :
    (hw : Hw) (x : ℕ) (xs : List ℕ) (rest : Trace → Validated) (found : Found) (h : Trace)
    (out : List ℕ)
    → look_up (x ∷ xs) ≡ found
    → ((h' : Trace) (out' : List ℕ)
        → (rest h').0 ≡ (ok, out')
        → Sound (drop (hdr_size x) (x ∷ xs)) out')
    → (on_found hw x xs rest found h).0 ≡ (ok, out)
    → Sound (x ∷ xs) out
unfolding on_found
on_found-Sound hw x xs rest bad h out l ih r = absurd (cc (ap (λ (o : Status × List ℕ). o.0) r))
on_found-Sound hw x xs rest (good v) h out l ih r =
    after_check-Sound x xs v rest (run_check hw v.validate (x ∷ xs) h).0
      (run_check hw v.validate (x ∷ xs) h).1 out (look_up-Fits x xs v l)
      (run_check-Meets hw v.validate (x ∷ xs) h) ih r

-- Whatever the device shows and however many rounds are given, a buffer for which the loop of
-- `mgpu_validate_commands` returns 0 is a sequence of commands of the listed opcodes, sizes and
-- argument limits that ends at the buffer's end; and the buffer that it leaves is as long, and a
-- sequence of NOPs and of allowed commands below the register commands: no privileged command is left.
pub validate_from_sound :
    (hw : Hw) (fuel : ℕ) (ptr : List ℕ) (h : Trace) (out : List ℕ)
    → (validate_from hw fuel ptr h).0 ≡ (ok, out)
    → Commands Allowed ptr × Commands Harmless out × (length out ≡ length ptr)
unfolding validate_from
validate_from_sound hw fuel [] h out r =
    let e : [] ≡ out = ap (λ (o : Status × List ℕ). o.1) r in rw (← e) (done, done, refl)
validate_from_sound hw zero (x ∷ xs) h out r = absurd (cc (ap (λ (o : Status × List ℕ). o.0) r))
validate_from_sound hw (suc fuel) (x ∷ xs) h out r =
    on_found-Sound hw x xs _ (look_up (x ∷ xs)) h out refl
      (λ h' out'. validate_from_sound hw fuel (drop (hdr_size x) (x ∷ xs)) h' out') r
