-- ===== src/ServiceManager/Proxy/Complete.antt =====
-- The loop of `ListServices` against the service ends with all names.
use mathlib.Core.Option.{Option}
use mathlib.Core.Option as Option
use binderd.Status.{Status}
