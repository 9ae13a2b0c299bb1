-- ===== src/Ring/Submit/Invariant.antt =====
-- The ring that the paths of `mgpu_submit_commands` leave, with the space in dwords.
use package.amdhardware_kernel.Common.{
  length-take-le, ℕ, ◌+◌, ◌/◌, ◌^◌, ◌≤◌, ◌<◌, ◌≡◌, refl, ◌∙◌, inl, inr, Bool, true, false, ◌||◌,
  Option, none, some, List, ◌++◌, arith, leb, ◌==◌, Bool-cases, length, take, u64, flag,
}
use package.amdhardware_kernel.Bus.{Trace, Hw, Io, Status, ok, err}
use package.amdhardware_kernel.Bus.Regs.{reg_cmd_head, max_queues}
use package.amdhardware_kernel.Ring.{
  Ring, queue_reg, ring_space_dwords, ring_wait_space, ring_write, ring_kick,
}
use package.amdhardware_kernel.Ring.Window.{IsRing, pending, contents, ring_write-contents}
use package.amdhardware_kernel.Ring.Space.{
  Granted, granted, tried, head_at, ring_space_dwords-add-pending,
}
use package.amdhardware_kernel.Ring.Submit.{
  Submit, submit_kick, submit_fence, submit_fence_granted, submit_dwords, submit_granted,
  submit_copied, submit_commands, fence_cmd, submit_flags_fence, Kernel,
}

-- The GPU reports the head of queue `q` inside a ring of 2^k dwords, whenever it is asked.
abbrev pub HeadsIn : Hw → ℕ → ℕ → Type 0
HeadsIn hw k q = (h : Trace) → hw h (queue_reg reg_cmd_head q) < 2 ^ k

-- The head that the GPU reports to the look after `j` others of a wait that begins at `h`.
abbrev pub seen_head : Hw → Ring → Trace → ℕ → ℕ
seen_head hw r h j = head_at hw r (tried (ring_space_dwords hw) r j h)

-- The wait for `needed` dwords on the ring `r` that begins at `h` ended with the look after `j` others;
-- from the head that this look read, `needed` dwords fit beside those that the GPU has not read, and
-- `r'` holds those and `dwords` after them.
abbrev pub Appends : Hw → ℕ → ℕ → List ℕ → Ring → Trace → Ring → Type 0
Appends hw k needed dwords r h r' =
    (j : ℕ) × (j ≤ 1000)
    × ((ring_wait_space (ring_space_dwords hw) r needed h).1
        ≡ (ring_space_dwords hw r (tried (ring_space_dwords hw) r j h)).1)
    × (pending k (seen_head hw r h j) r + needed < 2 ^ k)
    × (contents k (seen_head hw r h j) r' ≡ contents k (seen_head hw r h j) r ++ dwords)

abbrev pub kicked : Ring → Ring
kicked r = record r { submitted_cmds = u64 (r.submitted_cmds + 1) }

-- A granted wait has ended with a look at a head from which on the dwords fit.
pub room_of_wait :
    (hw : Hw) (k : ℕ) (r : Ring) (needed : ℕ) (h : Trace)
    → IsRing k r
    → HeadsIn hw k r.queue_id
    → (ring_wait_space (ring_space_dwords hw) r needed h).0 ≡ ok
    → (j : ℕ) × (j ≤ 1000)
      × ((ring_wait_space (ring_space_dwords hw) r needed h).1
          ≡ (ring_space_dwords hw r (tried (ring_space_dwords hw) r j h)).1)
      × (pending k (seen_head hw r h j) r + needed < 2 ^ k)
unfolding ring_wait_space
room_of_wait hw k r needed h v heads e = put (granted (ring_space_dwords hw) r 1000 needed h e)
  where
    put :
        {h' : Trace}
        → Granted (ring_space_dwords hw) r 1000 needed h h'
        → (j : ℕ) × (j ≤ 1000)
          × (h' ≡ (ring_space_dwords hw r (tried (ring_space_dwords hw) r j h)).1)
          × (pending k (seen_head hw r h j) r + needed < 2 ^ k)
    put (j, le, room, t) =
        let now = tried (ring_space_dwords hw) r j h in
        (j, le, t, ground (arith, ring_space_dwords-add-pending hw k r now v (heads now)))

-- Once room was granted, the write appends and keeps the ring well formed.
pub write_granted :
    (hw : Hw) (k : ℕ) (r : Ring) (needed : ℕ) (dwords : List ℕ) (h : Trace)
    → IsRing k r
    → HeadsIn hw k r.queue_id
    → length dwords ≤ needed
    → (ring_wait_space (ring_space_dwords hw) r needed h).0 ≡ ok
    → IsRing k (ring_write r dwords) × Appends hw k needed dwords r h (ring_write r dwords)
write_granted hw k r needed dwords h v heads few e =
    let (j, le, last, room) = room_of_wait hw k r needed h v heads e in
    let (appended, valid, more) =
      ring_write-contents k (seen_head hw r h j) r dwords v
        (heads (tried (ring_space_dwords hw) r j h)) (omega (arith, room, few)) in
    (valid, (j, le, last, room, appended))

pub queue_id-ring_write : (r : Ring) (dwords : List ℕ) → (ring_write r dwords).queue_id ≡ r.queue_id
unfolding ring_write
queue_id-ring_write r dwords = refl

-- The part after the last write changes the ring only in its count of submissions.
pub ring-submit_kick :
    (hw : Hw) (args : Submit) (r : Ring) (h : Trace)
    → (submit_kick hw args r h).0.1 ≡ some (kicked r)
unfolding submit_kick ring_kick
ring-submit_kick hw args r h = ground arith

-- A well-formed ring of the queue.
abbrev pub Kept : ℕ → ℕ → Option Ring → Type 0
Kept k q cmd_ring = (r : Ring) × (cmd_ring ≡ some r) × IsRing k r × (r.queue_id ≡ q)

module _ (hw : Hw) (k q : ℕ) (heads : HeadsIn hw k q) (args : Submit) where
  abbrev space : Ring → Io ℕ
  space = ring_space_dwords hw

  kicked-Kept :
      (r : Ring) (h : Trace) → IsRing k r → r.queue_id ≡ q → Kept k q (submit_kick hw args r h).0.1
  kicked-Kept r h v same = (
    kicked r,
    ring-submit_kick hw args r h,
    record { bytes = v.bytes; small = v.small; memory = v.memory; tail_in = v.tail_in },
    same,
  )

  written :
      (r : Ring) (needed : ℕ) (dwords : List ℕ) (h : Trace)
      → IsRing k r
      → r.queue_id ≡ q
      → length dwords ≤ needed
      → (ring_wait_space space r needed h).0 ≡ ok
      → IsRing k (ring_write r dwords)
  written r needed dwords h v same few e =
      (write_granted hw k r needed dwords h v (rw same heads) few e).0

  fence_granted-Kept :
      (s : Status) (r : Ring) (h : Trace)
      → IsRing k r
      → r.queue_id ≡ q
      → (s ≡ ok → IsRing k (ring_write r (fence_cmd args)))
      → Kept k q (submit_fence_granted hw space args r s h).0.1
  unfolding submit_fence_granted
  fence_granted-Kept ok r h v same w =
      kicked-Kept (ring_write r (fence_cmd args)) h (w refl)
        (queue_id-ring_write r (fence_cmd args) ∙ same)
  fence_granted-Kept (err e) r h v same w = (r, refl, v, same)

  fence-Kept :
      (r : Ring) (h : Trace)
      → IsRing k r
      → r.queue_id ≡ q
      → Kept k q (submit_fence hw space args r h).0.1
  unfolding submit_fence
  fence-Kept r h v same = elim (Bool-cases (flag args.flags submit_flags_fence)) [
    | inl on ↦ rw on (
        fence_granted-Kept (ring_wait_space space r 3 h).0 r (ring_wait_space space r 3 h).1 v same
          (written r 3 (fence_cmd args) h v same (omega arith)))
    | inr off ↦ rw off (kicked-Kept r h v same)
  ]

  granted-Kept :
      (s : Status) (dwords : List ℕ) (r : Ring) (h : Trace)
      → IsRing k r
      → r.queue_id ≡ q
      → (s ≡ ok → IsRing k (ring_write r dwords))
      → Kept k q (submit_granted hw space args dwords r s h).0.1
  unfolding submit_granted
  granted-Kept ok dwords r h v same w =
      fence-Kept (ring_write r dwords) h (w refl) (queue_id-ring_write r dwords ∙ same)
  granted-Kept (err e) dwords r h v same w = (r, refl, v, same)

  dwords-Kept :
      (cmds : List ℕ) (r : Ring) (h : Trace)
      → IsRing k r
      → r.queue_id ≡ q
      → Kept k q (submit_dwords hw space args cmds r h).0.1
  unfolding submit_dwords
  dwords-Kept cmds r h v same =
      let n = args.cmd_size / 4 in
      granted-Kept (ring_wait_space space r n h).0 (take n cmds) r (ring_wait_space space r n h).1 v
        same (written r n (take n cmds) h v same (length-take-le n cmds))

  copied-Kept :
      (kmalloc : Bool) (user : Option (List ℕ)) (r : Ring) (h : Trace)
      → IsRing k r
      → r.queue_id ≡ q
      → Kept k q (submit_copied hw space args kmalloc user r h).0.1
  unfolding submit_copied
  copied-Kept false user r h v same = (r, refl, v, same)
  copied-Kept true none r h v same = (r, refl, v, same)
  copied-Kept true (some cmds) r h v same = dwords-Kept cmds r h v same

-- With the space in dwords and a GPU that reports its head inside the ring, `mgpu_submit_commands` on
-- a device with a well-formed ring of 2^k dwords leaves a well-formed ring of that size and queue,
-- whatever the arguments, and on every error path.
pub submit_commands-IsRing :
    (hw : Hw) (k : ℕ) (kern : Kernel) (args : Submit) (r : Ring) (h : Trace)
    → IsRing k r
    → HeadsIn hw k r.queue_id
    → Kept k r.queue_id (submit_commands hw (ring_space_dwords hw) kern args (some r) h).0.1
unfolding submit_commands
submit_commands-IsRing hw k kern args r h v heads =
    elim (Bool-cases (args.commands == 0 || args.cmd_size == 0)) [
      | inl empty ↦ rw empty (r, refl, v, refl)
      | inr given ↦ elim (Bool-cases (leb max_queues args.queue_id)) [
        | inl high ↦ rw (given, high) (r, refl, v, refl)
        | inr low ↦
            rw (given, low)
              (copied-Kept hw k r.queue_id heads args kern.kmalloc kern.user r h v refl)
      ]
    ]
