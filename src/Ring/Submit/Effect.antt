-- ===== src/Ring/Submit/Effect.antt =====
-- What `mgpu_submit_commands` has done to the ring when it returns.
use package.amdhardware_kernel.Ring.Window.{IsRing}
use package.amdhardware_kernel.Common.{
  if◌then◌else◌, ℕ, ◌/◌, ◌<◌, ◌≡◌, refl, ◌≢◌, inl, inr, Bool, true, false, Option, some, List,
  arith, Bool-cases, take, flag, length-take-le,
}
use package.amdhardware_kernel.Bus.{Trace, Hw, Io, Errno, Status, ok, err}
use package.amdhardware_kernel.Bus.Regs.{max_queues}
use package.amdhardware_kernel.Ring.{Ring, ring_space_dwords, ring_wait_space, ring_write}
use package.amdhardware_kernel.Ring.Submit.{
  Submit, Kernel, fence_cmd, submit_flags_fence, submit_kick, submit_fence, submit_fence_granted,
  submit_dwords, submit_granted, submit_copied, submit_commands,
}
use package.amdhardware_kernel.Ring.Submit.Invariant.{
  HeadsIn, Appends, kicked, write_granted, queue_id-ring_write, ring-submit_kick,
}

-- The ring after the commands, and after the fence command where one is requested.
abbrev pub with_commands : Submit → List ℕ → Ring → Ring
with_commands args cmds r = ring_write r (take (args.cmd_size / 4) cmds)

abbrev pub with_fence : Submit → Ring → Ring
with_fence args r = if flag args.flags submit_flags_fence then ring_write r (fence_cmd args) else r

module _ (hw : Hw) (space : Ring → Io ℕ) (args : Submit) where
  fence_granted_ok :
      (s : Status) (r : Ring) (h : Trace)
      → (submit_fence_granted hw space args r s h).0.0 ≡ ok
      → (s ≡ ok)
        × ((submit_fence_granted hw space args r s h).0.1
            ≡ some (kicked (ring_write r (fence_cmd args))))
  unfolding submit_fence_granted
  fence_granted_ok ok r h e = (refl, ring-submit_kick hw args _ h)
  fence_granted_ok (err x) r h e = cc

  fence_ok :
      (r : Ring) (h : Trace)
      → (submit_fence hw space args r h).0.0 ≡ ok
      → (flag args.flags submit_flags_fence ≡ true → (ring_wait_space space r 3 h).0 ≡ ok)
        × ((submit_fence hw space args r h).0.1 ≡ some (kicked (with_fence args r)))
  unfolding submit_fence
  fence_ok r h e = elim (Bool-cases (flag args.flags submit_flags_fence)) [
    | inl on ↦
        ground (
          arith,
          fence_granted_ok (ring_wait_space space r 3 h).0 r (ring_wait_space space r 3 h).1,
        )
    | inr off ↦ ground (arith, ring-submit_kick hw args r h)
  ]

  dwords_ok :
      (s : Status) (dwords : List ℕ) (r : Ring) (h : Trace)
      → (submit_granted hw space args dwords r s h).0.0 ≡ ok
      → (s ≡ ok)
        × (flag args.flags submit_flags_fence ≡ true
            → (ring_wait_space space (ring_write r dwords) 3 h).0 ≡ ok)
        × ((submit_granted hw space args dwords r s h).0.1
            ≡ some (kicked (with_fence args (ring_write r dwords))))
  unfolding submit_granted
  dwords_ok ok dwords r h e =
      let (waited, ring) = fence_ok (ring_write r dwords) h e in (refl, waited, ring)
  dwords_ok (err x) dwords r h e = cc

  copied_ok :
      (kmalloc : Bool) (cmds : List ℕ) (r : Ring) (h : Trace)
      → (submit_copied hw space args kmalloc (some cmds) r h).0.0 ≡ ok
      → (submit_dwords hw space args cmds r h).0.0 ≡ ok
  unfolding submit_copied
  copied_ok false cmds r h e = cc
  copied_ok true cmds r h e = e

-- The queue that a submit names does not matter where a ring exists: with any two queue numbers
-- below 16, `mgpu_submit_commands` does the same, on the ring that was made first.
pub submit_commands_any_queue :
    (hw : Hw) (space : Ring → Io ℕ) (kern : Kernel) (args : Submit) (r : Ring) (h : Trace) (q : ℕ)
    → args.queue_id < max_queues
    → q < max_queues
    → submit_commands hw space kern (record args { queue_id = q }) (some r) h
      ≡ submit_commands hw space kern args (some r) h
unfolding submit_commands submit_copied submit_dwords submit_granted submit_fence
    submit_fence_granted submit_kick
submit_commands_any_queue hw space kern args r h q lt lt' = ground arith

submit_reaches :
    (hw : Hw) (space : Ring → Io ℕ) (kern : Kernel) (args : Submit) (cmds : List ℕ) (r : Ring)
    (h : Trace)
    → kern.user ≡ some cmds
    → (submit_commands hw space kern args (some r) h).0.0 ≡ ok
    → let first = ring_wait_space space r (args.cmd_size / 4) h in
      submit_commands hw space kern args (some r) h
      ≡ submit_granted hw space args (take (args.cmd_size / 4) cmds) r first.0 first.1
unfolding submit_commands submit_copied submit_dwords
submit_reaches hw space kern args cmds r h user e = ground arith

-- The fence command went in after a wait of its own, from `h` on, where one is requested.
abbrev pub Fenced : Hw → ℕ → Submit → Ring → Trace → Type 0
Fenced hw k args r h = elim (flag args.flags submit_flags_fence) [
  | true ↦ Appends hw k 3 (fence_cmd args) r h (ring_write r (fence_cmd args))
  | false ↦ Unit {0}
]

fence-Fenced :
    (hw : Hw) (k : ℕ) (args : Submit) (r : Ring) (h : Trace)
    → (flag args.flags submit_flags_fence ≡ true
        → Appends hw k 3 (fence_cmd args) r h (ring_write r (fence_cmd args)))
    → Fenced hw k args r h
fence-Fenced hw k args r h on = elim (Bool-cases (flag args.flags submit_flags_fence)) [
  | inl set ↦ rw (Fenced, set) (on set)
  | inr clear ↦ rw (Fenced, clear) tt
]

-- With the space in dwords, a GPU that reports its head inside the ring and a well-formed ring: when
-- `mgpu_submit_commands` returns 0, the wait for space ended with a look at a head from which the
-- command buffer fits beside all that the GPU has not read, and the ring holds that and then the dwords
-- of the buffer. If a fence was requested, the same holds of the wait after it and the fence
-- command. Beyond that only the count of submissions has changed.
pub submit_commands-Appends :
    (hw : Hw) (k : ℕ) (kern : Kernel) (args : Submit) (cmds : List ℕ) (r : Ring) (h : Trace)
    → IsRing k r
    → HeadsIn hw k r.queue_id
    → kern.user ≡ some cmds
    → (submit_commands hw (ring_space_dwords hw) kern args (some r) h).0.0 ≡ ok
    → let mid = with_commands args cmds r in
      let needed = args.cmd_size / 4 in
      let first = ring_wait_space (ring_space_dwords hw) r needed h in
      Appends hw k needed (take needed cmds) r h mid
      × Fenced hw k args mid first.1
      × ((submit_commands hw (ring_space_dwords hw) kern args (some r) h).0.1
          ≡ some (kicked (with_fence args mid)))
submit_commands-Appends hw k kern args cmds r h v heads user e =
    rw reached (put (dwords_ok hw space args first.0 (take n cmds) r first.1 (rw reached at e)))
  where
    n : ℕ
    n = args.cmd_size / 4

    mid : Ring
    mid = with_commands args cmds r

    space : Ring → Io ℕ
    space = ring_space_dwords hw

    first : Status × Trace
    first = ring_wait_space space r n h

    reached :
        submit_commands hw space kern args (some r) h
        ≡ submit_granted hw space args (take n cmds) r first.0 first.1
    reached = submit_reaches hw space kern args cmds r h user e

    put :
        {o : Option Ring}
        → (first.0 ≡ ok)
          × (flag args.flags submit_flags_fence ≡ true
              → (ring_wait_space space mid 3 first.1).0 ≡ ok)
          × (o ≡ some (kicked (with_fence args mid)))
        → Appends hw k n (take n cmds) r h mid
          × Fenced hw k args mid first.1
          × (o ≡ some (kicked (with_fence args mid)))
    put (waited, fenced, ring) =
        let (valid, appended) =
          write_granted hw k r n (take n cmds) h v heads (length-take-le n cmds) waited in
        (
          appended,
          fence-Fenced hw k args mid first.1 λ on.
              (write_granted hw k mid 3 (fence_cmd args) first.1 valid
                (rw (queue_id-ring_write r (take n cmds)) heads) (omega arith) (fenced on)).1,
          ring,
        )

-- When the commands went into the ring and the wait for the fence's space then fails,
-- `mgpu_submit_commands` returns that error and leaves the commands in the ring: the next submission
-- publishes them.
pub submit_commands_fence_fails :
    (hw : Hw) (space : Ring → Io ℕ) (kern : Kernel) (args : Submit) (cmds : List ℕ) (r : Ring)
    (h : Trace) (x : Errno)
    → args.commands ≢ 0
    → args.cmd_size ≢ 0
    → args.queue_id < max_queues
    → kern.kmalloc ≡ true
    → kern.user ≡ some cmds
    → flag args.flags submit_flags_fence ≡ true
    → (ring_wait_space space r (args.cmd_size / 4) h).0 ≡ ok
    → (ring_wait_space space
        (with_commands args cmds r)
        3
        (ring_wait_space space r (args.cmd_size / 4) h).1).0
      ≡ err x
    → (submit_commands hw space kern args (some r) h).0 ≡ (err x, some (with_commands args cmds r))
unfolding submit_commands submit_copied submit_dwords submit_granted submit_fence
    submit_fence_granted
submit_commands_fence_fails hw space kern args cmds r h x c s q m u f w₁ w₂ = ground arith
