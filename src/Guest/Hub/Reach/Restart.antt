-- ===== src/Guest/Hub/Reach/Restart.antt =====
-- What a restart of the gateway finds.
use lanrunner.Guest.Hub.Reach.Ordered.{Ordered}
