-- ===== src/Protocol/Withdraw/Safety.antt =====
-- When a side of the withdraw protocol writes to the store.
use indrav.StateChannel.{StateChannel}
