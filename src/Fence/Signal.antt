-- ===== src/Fence/Signal.antt =====
-- The fence page: which slot an address means, and how numbers come and are reached.
use package.amdhardware_kernel.Common.{
  page_size, ℕ, zero, suc, ◌+◌, ◌-◌, ◌/◌, ◌%◌, ◌^◌, ◌≤◌, ◌<◌, ◌≡◌, refl, ◌↔◌, Bool, true, false,
  Option, none, some, List, arith, length, get_or, replicate, length-replicate, u32,
}
use package.amdhardware_kernel.Bus.{Trace, ok}
use package.amdhardware_kernel.Fence.{
  FenceContext, fence_init, fence_next, fence_signaled, fence_emit,
}

-- The context's page: 1024 dwords, at a bus address that the page does not wrap.
pub record IsContext (ctx : FenceContext) : Type 0 where
  pub page : length ctx.cpu_addr ≡ 1024
  pub place : ctx.dma_addr + page_size < 2 ^ 64
  pub number : ctx.seqno < 2 ^ 32

-- The dword that an address in the page stands for.
abbrev pub slot : FenceContext → ℕ → ℕ
slot ctx fence_addr = (fence_addr - ctx.dma_addr) / 4

-- Where the bus address of the page leaves room for it below 2^64: a context that `mgpu_fence_init`
-- makes comes with the status 0 and only if both allocations succeed, is well-formed, stands at the
-- address allocated, and has every fence slot and its number at 0.
pub fence_init_lem :
    (kzalloc : Bool) (dma : Option ℕ) (h : Trace) (ctx : FenceContext)
    → ((a : ℕ) → dma ≡ some a → a + page_size < 2 ^ 64)
    → (fence_init kzalloc dma h).0.1 ≡ some ctx
    → IsContext ctx
      × (ctx.cpu_addr ≡ replicate 1024 0)
      × (ctx.seqno ≡ 0)
      × (dma ≡ some ctx.dma_addr)
      × (kzalloc ≡ true)
      × ((fence_init kzalloc dma h).0.0 ≡ ok)
unfolding fence_init
fence_init_lem false dma h ctx place e = absurd (cc e)
fence_init_lem true none h ctx place e = absurd (cc e)
fence_init_lem true (some a) h ctx place e =
    ground (arith, length-replicate 1024 zero, place a refl)

-- With a whole fence page below 2^64, an address for which `mgpu_fence_emit` returns 0 means a dword
-- inside the page, and its fence is signaled exactly when that dword has reached the value.
pub fence_emit_lem :
    (ctx : FenceContext) (fence_addr fence_value : ℕ)
    → IsContext ctx
    → fence_emit fence_addr (some ctx) ≡ ok
    → (slot ctx fence_addr < length ctx.cpu_addr)
      × ((fence_signaled (some ctx) fence_addr fence_value ≡ true)
          ↔ (fence_value ≤ get_or ctx.cpu_addr (slot ctx fence_addr) 0))
unfolding fence_emit fence_signaled
fence_emit_lem ctx fence_addr fence_value v e =
    (ground arith, ((λ s. ground arith), λ s. ground arith))

-- A fence that is signaled stays so while the GPU only moves the page's dwords up.
pub fence_signaled_mono :
    (ctx : FenceContext) (page : List ℕ) (fence_addr fence_value : ℕ)
    → ((i : ℕ) → get_or ctx.cpu_addr i 0 ≤ get_or page i 0)
    → fence_signaled (some ctx) fence_addr fence_value ≡ true
    → fence_signaled (some (record ctx { cpu_addr = page })) fence_addr fence_value ≡ true
unfolding fence_signaled
fence_signaled_mono ctx page fence_addr fence_value up e = ground (arith, up (slot ctx fence_addr))

-- The context after `n` more fence numbers.
pub numbered : ℕ → Option FenceContext → Option FenceContext
numbered zero ctx = ctx
numbered (suc n) ctx = numbered n (fence_next ctx).1

-- After `n` fence numbers the next is `seqno + n + 1` modulo 2^32, which can be 0, and the value 0
-- counts as signaled at every address.
pub fence_next-numbered :
    (n : ℕ) (ctx : FenceContext) (fence_addr : ℕ)
    → ctx.seqno < 2 ^ 32
    → ((fence_next (numbered n (some ctx))).0 ≡ (ctx.seqno + n + 1) % 2 ^ 32)
      × (fence_signaled (some ctx) fence_addr 0 ≡ true)
unfolding fence_next numbered fence_signaled
fence_next-numbered zero ctx fence_addr lt = (omega arith, ground arith)
fence_next-numbered (suc n) ctx fence_addr lt =
    let rest =
      fence_next-numbered n (record ctx { seqno = u32 (ctx.seqno + 1) }) fence_addr (omega arith) in
    (omega (arith, rest.0), ground arith)
