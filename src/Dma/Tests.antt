-- ===== src/Dma/Tests.antt =====
-- The DMA interface on concrete answers.
use package.amdhardware_kernel.Common.{◌≡◌, refl, some, [], ◌∷◌}
use package.amdhardware_kernel.Bus.{eio, ok, err}
use package.amdhardware_kernel.Gem.{alloc_attrs, free_attrs, sync_for_cpu, sync_for_device}
use package.amdhardware_kernel.Dma.{
  dma_init, dma_alloc, dma_free, dma_sync_for_cpu, dma_sync_for_device,
}

narrow : dma_init (err eio) ok ≡ ok
unfolding dma_init
narrow = refl

used_once :
    dma_free 64 9
      (dma_sync_for_device 5 64 (dma_sync_for_cpu 5 64 (dma_alloc 64 (some (9, 5)) []).1))
    ≡ alloc_attrs 64 ∷ sync_for_cpu 5 64 ∷ sync_for_device 5 64 ∷ free_attrs 64 9 ∷ []
unfolding dma_free dma_sync_for_cpu dma_sync_for_device dma_alloc
used_once = refl

unused : dma_free 64 0 [] ≡ []
unfolding dma_free
unused = refl
