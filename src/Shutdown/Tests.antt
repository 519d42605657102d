-- ===== src/Shutdown/Tests.antt =====
-- The coordinator with two callers, over a channel that is a Boolean.
use cncnet_server.Base.{◌≡◌, refl, Bool, false}
use cncnet_server.Shutdown.{
  Watch, ShutdownCoordinator, coordinator_new, call_shutdown, shutdown_step, called, firing,
  recv_returns, call, step, here, next,
}
use cncnet_server.Shutdown.Once.{FiresOnce, Reach-FiresOnce}

abbrev pub cell : Watch
cell = record {
  Channel = Bool;
  channel = λ b. b;
  send_replace = λ c b. b;
  borrow = λ c. c;
  borrow-channel = λ b. refl;
  borrow-send_replace = λ c b. refl;
}

-- Both have called; the one with number 1 makes its swap first.
abbrev both : ShutdownCoordinator cell
both = call_shutdown cell (call_shutdown cell (coordinator_new cell))

abbrev swapped_first : ShutdownCoordinator cell
swapped_first = shutdown_step cell both 1 called

abbrev swapped_second : ShutdownCoordinator cell
swapped_second = shutdown_step cell swapped_first 0 called

abbrev sent : ShutdownCoordinator cell
sent = shutdown_step cell swapped_second 1 firing

not_yet : recv_returns cell swapped_second ≡ false
unfolding coordinator_new call_shutdown shutdown_step recv_returns
not_yet = refl

sent_once : sent.sends ≡ 1
unfolding coordinator_new call_shutdown shutdown_step recv_returns
sent_once = refl

Reach-FiresOnce_example : FiresOnce cell sent
unfolding coordinator_new call_shutdown shutdown_step
Reach-FiresOnce_example =
    Reach-FiresOnce cell sent
      (next (next (next (next (next here call) call) (step 1)) (step 0)) (step 1))
