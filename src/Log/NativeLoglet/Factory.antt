-- ===== src/Log/NativeLoglet/Factory.antt =====
-- A virtual log over native loglets: what `NativeLogletFactory` makes is what the virtual log asks
-- of a factory.
use relos.Prelude.{◌<◌, ◌≡◌}
use relos.Prelude.Bytes.{Text}
use relos.Core.{ok}
use relos.Log.NativeLoglet.Operations.{NativeLoglet, NativeLogletFactory, create}
use relos.Log.NativeLoglet.Laws.{native_loglet-laws}
use relos.Log.VirtualLog.Consistency.{IsNew}

pub create-IsNew :
    (factory : NativeLogletFactory)
    → 0 < factory.num_servers
    → (id : Text)
    → (l : NativeLoglet) × (create factory id ≡ ok l)
      × IsNew native_loglet-laws.0 (create factory) l
unfolding create
create-IsNew factory some_server id =
    let (l, made, (valid, empty, opened, untrimmed)) =
      native_loglet-laws.1 factory.num_servers some_server in
    (l, made, record { valid = valid; empty = empty; opened = opened; untrimmed = untrimmed })
