-- ===== src/Server/Startup.antt =====
-- `Server::begin` of src/PulseCoAPServer.cpp; the first argument is what `transport_.begin`
-- returned.
use pulse_co_ap.Common.{Bool, true, false, some, []}
use pulse_co_ap.Server.{Server}
use pulse_co_ap.Server.Resources.{add_resource}
use pulse_co_ap.Uri.{well_known_core}
use pulse_co_ap.Server.Handle.{well_known_handler}

unfoldable pub begin : Bool → Server → Server × Bool
begin false s = (s, false)
begin true s = (
  (add_resource (some well_known_core) 1 well_known_handler 0 false
      (record s { link_format = [] })).0,
  true,
)
