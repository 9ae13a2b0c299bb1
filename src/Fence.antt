-- ===== src/Fence.antt =====
-- kernel/drivers/gpu/mgpu/mgpu_fence.c: fence values in a page shared with the GPU, and the waits
-- for them. The page is a list of its dwords, and `none` for the context is a null pointer.
pub mod Signal
pub mod Pending
mod Tests
use package.amdhardware_kernel.Common.{
  page_size, ℕ, ◌+◌, ◌-◌, ◌/◌, Bool, true, false, ◌||◌, Option, none, some, List, [], ◌∷◌, ◌++◌,
  ltb, leb, ◌==◌, if◌then◌else◌, get_or, replicate, u32, u64,
}
use package.amdhardware_kernel.Bus.{
  fence_queue, wake, Hw, Io, ◌>>=◌, ◌>>◌, pure, read, emit, write, enomem, enodev, einval,
  etimedout, erestartsys, Status, ok, err, unit_done,
}
use package.amdhardware_kernel.Bus.Regs.{reg_fence_addr, reg_fence_value}

-- `struct mgpu_fence_wait`; the address of the entry on the waiter's stack is `id`.
pub record FenceWait : Type 0 where
  pub id : ℕ
  pub value : ℕ
  pub signaled : Bool

-- `struct mgpu_fence_context`
pub record FenceContext : Type 0 where
  pub cpu_addr : List ℕ
  pub dma_addr : ℕ
  pub seqno : ℕ
  pub wait_list : List FenceWait

-- The two allocations of `mgpu_fence_init`: `kzalloc` succeeds or not, and the bus address of the
-- page, if there is one.
fence_setup : Bool → Option ℕ → Io (Status × Option FenceContext)
fence_setup false dma = pure (err enomem, none)
fence_setup true none = pure (err enomem, none)
fence_setup true (some dma_addr) = do
  write reg_fence_addr (u32 dma_addr)
  pure (
    ok,
    some (record {
      cpu_addr = replicate (page_size / 4) 0;
      dma_addr = dma_addr;
      seqno = 0;
      wait_list = [];
    }),
  )

pub fence_init : Bool → Option ℕ → Io (Status × Option FenceContext)
unfolding fence_setup
fence_init kzalloc dma = fence_setup kzalloc dma

pub fence_fini : Option FenceContext → Io (Option FenceContext)
fence_fini none = pure none
fence_fini (some ctx) = do write reg_fence_addr 0; emit (wake fence_queue); pure none

-- `atomic_inc_return` on an `atomic_t`, read as the `u32` that is returned.
pub fence_next : Option FenceContext → ℕ × Option FenceContext
fence_next none = (0, none)
fence_next (some ctx) =
    let seqno = u32 (ctx.seqno + 1) in (seqno, some (record ctx { seqno = seqno }))

-- `fence_addr < ctx->dma_addr || fence_addr >= ctx->dma_addr + PAGE_SIZE`
abbrev pub outside : FenceContext → ℕ → Bool
outside ctx fence_addr =
    ltb fence_addr ctx.dma_addr || leb (u64 (ctx.dma_addr + page_size)) fence_addr

pub fence_signaled : Option FenceContext → ℕ → ℕ → Bool
fence_signaled none fence_addr fence_value = true
fence_signaled (some ctx) fence_addr fence_value =
    if outside ctx fence_addr
    then true
    else leb fence_value (get_or ctx.cpu_addr ((fence_addr - ctx.dma_addr) / 4) 0)

-- The loop of `mgpu_fence_process`, which reads the hardware's fence value once for each entry that
-- is not signaled yet: the entries after it, and whether one was signaled.
pub mark_signaled : Hw → List FenceWait → Io (List FenceWait × Bool)
mark_signaled hw [] h = (([], false), h)
mark_signaled hw (w ∷ ws) h = elim w.signaled [
  | true ↦ let (rest, h') = mark_signaled hw ws h in ((w ∷ rest.0, rest.1), h')
  | false ↦
      let (hw_value, h₁) = read hw reg_fence_value h in
      let (rest, h') = mark_signaled hw ws h₁ in
      if leb w.value hw_value
      then ((record w { signaled = true } ∷ rest.0, true), h')
      else ((w ∷ rest.0, rest.1), h')
]

pub fence_process : Hw → Option FenceContext → Io (Option FenceContext)
unfolding mark_signaled
fence_process hw none = pure none
fence_process hw (some ctx) = do
  marked ← mark_signaled hw ctx.wait_list
  if marked.1 then emit (wake fence_queue) else unit_done
  pure (some (record ctx { wait_list = marked.0 }))

-- How `wait_event_interruptible_timeout` ends: the time left, 0 for a timeout, or a signal.
pub data WaitEnd : Type 0 where
  time_left : ℕ → WaitEnd
  interrupted : WaitEnd

-- `list_del` of the entry
pub remove_wait : ℕ → List FenceWait → List FenceWait
remove_wait id [] = []
remove_wait id (w ∷ ws) = let rest = remove_wait id ws in if w.id == id then rest else w ∷ rest

abbrev pub wait_status : WaitEnd → Status
wait_status (time_left t) = if t == 0 then err etimedout else ok
wait_status interrupted = err erestartsys

-- `mgpu_wait_fence`. While it sleeps the context changes by what others do, `meanwhile`; the kernel's
-- wait returns with `ended`.
pub wait_fence :
    (FenceContext → FenceContext)
    → WaitEnd
    → ℕ
    → ℕ
    → ℕ
    → Option FenceContext
    → Status × Option FenceContext
wait_fence meanwhile ended id fence_addr fence_value none = (err enodev, none)
wait_fence meanwhile ended id fence_addr fence_value (some ctx) =
    if fence_signaled (some ctx) fence_addr fence_value
    then (ok, some ctx)
    else (let entry : FenceWait = record { id = id; value = fence_value; signaled = false } in
        let woken = meanwhile (record ctx { wait_list = ctx.wait_list ++ (entry ∷ []) }) in
        (wait_status ended, some (record woken { wait_list = remove_wait id woken.wait_list })))

pub fence_emit : ℕ → Option FenceContext → Status
fence_emit fence_addr none = err enodev
fence_emit fence_addr (some ctx) = if outside ctx fence_addr then err einval else ok
