-- ===== src/Coredump/Layout.antt =====
-- A dump of a device that has a command ring.
use package.amdhardware_kernel.Common.{◌≡◌, refl, Option, none, some}
use package.amdhardware_kernel.Bus.{Trace, Hw}
use package.amdhardware_kernel.Ring.{Ring}
use package.amdhardware_kernel.Shader.{ShaderMgr}
use package.amdhardware_kernel.Coredump.Capture.{capture_cmdring}
use package.amdhardware_kernel.Coredump.{DumpEnv, dump_sized, coredump_create}

module _ (hw : Hw) (env : DumpEnv) where
  -- mgpu_coredump_create of a device that has a command ring never ends well: it asks for the size of
  -- the ring's dump with a NULL buffer, which the function writes to.
  coredump_create-faults :
      (mgr : Option ShaderMgr) (ring : Ring) (h : Trace)
      → (coredump_create hw env mgr (some ring) h).0 ≡ none
  unfolding coredump_create dump_sized capture_cmdring
  coredump_create-faults mgr ring h = refl
