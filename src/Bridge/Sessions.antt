-- ===== src/Bridge/Sessions.antt =====
-- `serveDevice`, `serveCluster` and `Shutdown` of pkg/bridge/bridge.go: how sessions enter and leave
-- the tables. Each serve loop is two steps, before it blocks and when its session has ended.
pub mod Tables
use agentry.Base.{
  ℕ, Bool, Option, none, some, List, [], ◌∷◌, ◌++◌, ◌==◌, if◌then◌else◌, Text, Map, lookup, insert,
  delete,
}
use agentry.Bridge.State.{DeviceConn, ClusterConn, Broker}

-- `b.devices[id]`, which is nil for a device that is not connected.
unfoldable pub sessions_of : Text → Map (List DeviceConn) → List DeviceConn
sessions_of id m = elim (lookup id m) [ none ↦ [] | some l ↦ l ]

unfoldable pub attach_device : Broker → DeviceConn → Broker
attach_device b dc = record b {
  devices = insert dc.id (sessions_of dc.id b.devices ++ dc ∷ []) b.devices;
}

-- The loop that cuts one session out of the slice, at its first place.
unfoldable pub without : ℕ → List DeviceConn → List DeviceConn
without sess [] = []
without sess (cur ∷ l) = let rest = without sess l in if cur.sess == sess then l else cur ∷ rest

unfoldable pub store_remaining :
    Text → List DeviceConn → Map (List DeviceConn) → Map (List DeviceConn)
store_remaining id [] m = delete id m
store_remaining id (dc ∷ l) m = insert id (dc ∷ l) m

unfoldable pub detach_device : Broker → DeviceConn → Broker
detach_device b dc = record b {
  devices = store_remaining dc.id (without dc.sess (sessions_of dc.id b.devices)) b.devices;
}

-- A session that was registered under the name is closed.
unfoldable pub replaced : Option ClusterConn → List ℕ → List ℕ
replaced none closed = closed
replaced (some old) closed = old.sess ∷ closed

unfoldable pub attach_cluster : Broker → ClusterConn → Broker
attach_cluster b cc = record b {
  clusters = insert cc.id cc b.clusters;
  closed = replaced (lookup cc.id b.clusters) b.closed;
}

-- `if cur, ok := b.clusters[id]; ok && cur == cc { delete(b.clusters, id) }`
unfoldable pub drop_current : Option ClusterConn → ClusterConn → Map ClusterConn → Map ClusterConn
drop_current none cc m = m
drop_current (some cur) cc m = if cur.sess == cc.sess then delete cc.id m else m

unfoldable pub detach_cluster : Broker → ClusterConn → Broker
detach_cluster b cc = record b { clusters = drop_current (lookup cc.id b.clusters) cc b.clusters }

unfoldable pub device_sessions : Map (List DeviceConn) → List ℕ
device_sessions [] = []
device_sessions ((id, []) ∷ m) = device_sessions m
device_sessions ((id, dc ∷ l) ∷ m) = dc.sess ∷ device_sessions ((id, l) ∷ m)

unfoldable pub cluster_sessions : Map ClusterConn → List ℕ
cluster_sessions [] = []
cluster_sessions ((id, cc) ∷ m) = cc.sess ∷ cluster_sessions m

unfoldable pub shutdown : Broker → Broker
shutdown b = record b {
  devices = [];
  clusters = [];
  closed = device_sessions b.devices ++ cluster_sessions b.clusters ++ b.closed;
}
