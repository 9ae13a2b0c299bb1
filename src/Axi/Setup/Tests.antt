-- ===== src/Axi/Setup/Tests.antt =====
-- A controller that starts, stops and sleeps.
use package.amdhardware_kernel.Common.{◌≡◌, refl, true, false, [], none, some}
use package.amdhardware_kernel.Bus.{Hw, einval, eio, ok, err}
use package.amdhardware_kernel.Core.{core_test_alive}
use package.amdhardware_kernel.Axi.Setup.{
  initial_ctrl, axi_set_qos, axi_init, axi_fini, axi_resume, axi_suspend, axi_get_stats, axi_test,
}

abbrev silent : Hw
silent h r = 0

bad_priority : axi_set_qos (some initial_ctrl) 16 ≡ err einval
unfolding axi_set_qos
bad_priority = refl

no_memory_of_it : axi_fini (some initial_ctrl) ≡ some none
unfolding axi_fini
no_memory_of_it = refl

no_device : (axi_init silent true none []).0 ≡ (err eio, none)
unfolding axi_init axi_test core_test_alive
no_device = refl

resumes_nothing : (axi_resume silent none []).0 ≡ (ok, none)
unfolding axi_resume
resumes_nothing = refl

suspends_idle : (axi_suspend silent false [] initial_ctrl []).0 ≡ some (ok, initial_ctrl)
unfolding axi_suspend
suspends_idle = refl

no_transactions : (axi_get_stats initial_ctrl).read_transactions ≡ 0
unfolding axi_get_stats
no_transactions = refl
