-- ===== src/Shutdown.antt =====
-- src/shutdown.rs: the coordinator that `main` shuts the services down with, called by any number of
-- tasks at once. An atomic operation is a step. Of tokio's watch channel the code uses that a receiver
-- that waits for a value sees the last one sent, whenever it subscribed, and is woken when every sender
-- is gone.
pub mod Once
pub mod Tests
use cncnet_server.Base.{
  ℕ, zero, suc, ◌+◌, ◌-◌, ◌≡◌, Bool, true, false, ◌||◌, List, [], ◌∷◌, ◌==◌, if◌then◌else◌, get_or,
  set,
}

pub record Watch : Type 1 where
  pub Channel : Type 0
  pub channel : Bool → Channel
  pub send_replace : Channel → Bool → Channel
  pub borrow : Channel → Bool
  pub borrow-channel : (b : Bool) → borrow (channel b) ≡ b
  pub borrow-send_replace : (c : Channel) (b : Bool) → borrow (send_replace c b) ≡ b

-- Where a call of `shutdown` stands: before its swap, before its send, or at its end.
pub data Call : Type 0 where
  called firing finished : Call

module _ (w : Watch) where
  open w use {Channel, channel, send_replace, borrow}

  -- The clones of a coordinator share the channel and the flag. Beside them stand the number of clones,
  -- the calls of `shutdown`, and how often a value was sent.
  pub record ShutdownCoordinator : Type 0 where
    pub sender : Channel
    pub is_shutting_down : Bool
    pub clones : ℕ
    pub calls : List Call
    pub sends : ℕ

  unfoldable pub coordinator_new : ShutdownCoordinator
  coordinator_new = record {
    sender = channel false;
    is_shutting_down = false;
    clones = 1;
    calls = [];
    sends = 0;
  }

  -- `clone` of a coordinator, and the end of one.
  unfoldable pub clone_coordinator : ShutdownCoordinator → ShutdownCoordinator
  clone_coordinator c = record c { clones = c.clones + 1 }

  unfoldable pub drop_coordinator : ShutdownCoordinator → ShutdownCoordinator
  drop_coordinator c = record c { clones = c.clones - 1 }

  -- A task calls `shutdown`.
  unfoldable pub call_shutdown : ShutdownCoordinator → ShutdownCoordinator
  call_shutdown c = record c { calls = called ∷ c.calls }

  -- The next step of a call: `swap` of the flag, and `send_replace` if it was not set.
  unfoldable pub shutdown_step : ShutdownCoordinator → ℕ → Call → ShutdownCoordinator
  shutdown_step c i called = record c {
    is_shutting_down = true;
    calls = set c.calls i (if c.is_shutting_down then finished else firing);
  }
  shutdown_step c i firing = record c {
    sender = send_replace c.sender true;
    calls = set c.calls i finished;
    sends = c.sends + 1;
  }
  shutdown_step c i finished = c

  -- Whether `recv` of a receiver returns, at whatever time it subscribed.
  unfoldable pub recv_returns : ShutdownCoordinator → Bool
  recv_returns c = borrow c.sender || c.clones == 0

  pub data Step (c : ShutdownCoordinator) : ShutdownCoordinator → Type 0 where
    clone : Step c (clone_coordinator c)
    dropped : Step c (drop_coordinator c)
    call : Step c (call_shutdown c)
    step : (i : ℕ) → Step c (shutdown_step c i (get_or c.calls i finished))

  pub data Reach : ShutdownCoordinator → Type 0 where
    here : Reach coordinator_new
    next : {c c' : ShutdownCoordinator} → Reach c → Step c c' → Reach c'
