-- ===== src/Relay/Proxy/Isolation.antt =====
-- A request that gets no answer: the proxy tells the lease manager that it failed, whatever the observer
-- makes of it.
use cachepilot.Prelude.{Bool, true, false}
use cachepilot.Python.{Python}
use cachepilot.Relay.Proxy.Forward.{Reply, answered}

abbrev pub is_answered : Reply → Bool
is_answered (answered status headers body) = true
is_answered _ = false
