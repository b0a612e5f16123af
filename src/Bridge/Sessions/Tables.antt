-- ===== src/Bridge/Sessions/Tables.antt =====
-- How a session's end leaves the sessions of its siblings and of its successor.
use agentry.Base.{
  ℕ, ◌≡◌, ◌≢◌, true, some, List, [], ◌∷◌, ◌++◌, arith, if◌then◌else◌, Text, Map, lookup, insert,
  lookup-insert, lookup-delete, str_eq, str_eq_refl,
}
use agentry.Bridge.State.{DeviceConn, ClusterConn, Broker}
use agentry.Bridge.Sessions.{
  sessions_of, attach_device, detach_device, without, store_remaining, attach_cluster,
  detach_cluster, replaced, drop_current,
}

abbrev pub NotAmong : ℕ → List DeviceConn → Type 0
NotAmong sess [] = Unit
NotAmong sess (dc ∷ l) = (dc.sess ≢ sess) × NotAmong sess l

without-middle :
    (front back : List DeviceConn) (dc : DeviceConn)
    → NotAmong dc.sess front
    → without dc.sess (front ++ dc ∷ back) ≡ front ++ back
unfolding without
without-middle [] back dc h = ground arith
without-middle (cur ∷ front) back dc h = ground (arith, without-middle front back dc h.1)

sessions_of-store :
    (id j : Text) (l : List DeviceConn) (m : Map (List DeviceConn))
    → sessions_of j (store_remaining id l m) ≡ (if str_eq id j then l else sessions_of j m)
unfolding sessions_of store_remaining
sessions_of-store id j [] m = ground (arith, lookup-delete id j m)
sessions_of-store id j (dc ∷ l) m = ground (arith, lookup-insert id j (dc ∷ l) m)

sessions_of-insert :
    (id j : Text) (l : List DeviceConn) (m : Map (List DeviceConn))
    → sessions_of j (insert id l m) ≡ (if str_eq id j then l else sessions_of j m)
unfolding sessions_of
sessions_of-insert id j l m = ground (arith, lookup-insert id j l m)

-- A device session that connects stands last among the sessions of its device, and no list of
-- another device changes.
pub sessions_of-attach_device :
    (b : Broker) (dc : DeviceConn) (j : Text)
    → sessions_of j (attach_device b dc).devices
      ≡ (if str_eq dc.id j then sessions_of dc.id b.devices ++ dc ∷ [] else sessions_of j b.devices)
unfolding attach_device
sessions_of-attach_device b dc j =
    sessions_of-insert dc.id j (sessions_of dc.id b.devices ++ dc ∷ []) b.devices

-- The end of one session cuts it out of the list of its device and leaves its siblings in place and
-- in order, and no list of another device changes.
pub sessions_of-detach_device :
    (b : Broker) (front back : List DeviceConn) (dc : DeviceConn) (j : Text)
    → sessions_of dc.id b.devices ≡ front ++ dc ∷ back
    → NotAmong dc.sess front
    → sessions_of j (detach_device b dc).devices
      ≡ (if str_eq dc.id j then front ++ back else sessions_of j b.devices)
unfolding detach_device
sessions_of-detach_device b front back dc j e h =
    rw (e, without-middle front back dc h) (sessions_of-store dc.id j (front ++ back) b.devices)

-- When a cluster connects again, its older session is closed, and the end of the older session
-- leaves the newer one registered, whatever else is registered.
pub takeover :
    (b : Broker) (old new : ClusterConn)
    → lookup new.id b.clusters ≡ some old
    → old.id ≡ new.id
    → old.sess ≢ new.sess
    → (detach_cluster (attach_cluster b new) old ≡ attach_cluster b new)
      × (lookup new.id (attach_cluster b new).clusters ≡ some new)
      × ((attach_cluster b new).closed ≡ old.sess ∷ b.closed)
unfolding attach_cluster detach_cluster replaced drop_current
takeover b old new e same ne =
    let same_key : str_eq new.id new.id ≡ true = str_eq_refl new.id in
    (
      ground (arith, lookup-insert new.id new.id new b.clusters, same_key),
      ground (arith, lookup-insert new.id new.id new b.clusters, same_key),
      ground arith,
    )
