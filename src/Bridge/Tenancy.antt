-- ===== src/Bridge/Tenancy.antt =====
-- pkg/bridge/bridge.go: which organisation's clusters a requester reaches, in every state that the
-- bridge can come to outside of development.
use agentry.Base.{
  ℕ, ◌≡◌, ◌≢◌, refl, ◌∙◌, Bool, true, false, Option, none, some, List, [], ◌++◌, arith, Text, codes,
  Map, lookup, AllEntries, AllEntries-insert, AllEntries-delete, if_both, ◌==◌, Option-cases, inl,
  inr,
}
use agentry.Bridge.Identity.{Request, peer_cn_equals}
use agentry.Bridge.State.{DeviceConn, ClusterConn, Broker, new_with_config, attach_deploy}
use agentry.Bridge.Routes.{DeployRoute, DeployRegistry}
use agentry.Bridge.Deploy.{handle_deploy_routes_put, put_routes}
use agentry.Bridge.Handshake.{serve_device, serve_cluster, handle_tunnel}
use agentry.Bridge.Handshake.Admission.{OwnedBy, peer-OwnedBy, cluster_admission}
use agentry.Bridge.Sessions.{
  attach_device, detach_device, attach_cluster, detach_cluster, drop_current, shutdown,
}
use agentry.Bridge.Revocation.{handle_revoked_cns_put}

abbrev pub device_conn : (id org : Text) (admin : Bool) (sess now : ℕ) → DeviceConn
device_conn id org admin sess now = record {
  id = id;
  org_id = org;
  admin = admin;
  sess = sess;
  connected = now;
}

abbrev pub cluster_conn : (id org : Text) (sess now : ℕ) → ClusterConn
cluster_conn id org sess now = record { id = id; org_id = org; sess = sess; connected = now }

-- What changes a broker: a handshake that is accepted, the end of a session, an administrator's push
-- of the denylist or of the route table, the attachment of the registry of routes that cmd/bridge does
-- at its start, and the shutdown. A session's end is any call of the deferred function of its serve
-- loop.
pub data Step (b : Broker) : Broker → Type 0 where
  device_up :
      (r : Request) (accepted : Option ℕ) (id org : Text) (admin : Bool) (sess now : ℕ)
      → handle_tunnel b.dev_mode r accepted ≡ serve_device id org admin sess
      → Step b (attach_device b (device_conn id org admin sess now))
  device_down : (dc : DeviceConn) → Step b (detach_device b dc)
  cluster_up :
      (r : Request) (accepted : Option ℕ) (id org : Text) (sess now : ℕ)
      → handle_tunnel b.dev_mode r accepted ≡ serve_cluster id org sess
      → Step b (attach_cluster b (cluster_conn id org sess now))
  cluster_down : (cc : ClusterConn) → Step b (detach_cluster b cc)
  push : (r : Request) (body : Option (List Text)) → Step b (handle_revoked_cns_put b r body).0
  attach : (reg : DeployRegistry) → Step b (attach_deploy b reg)
  routes :
      (r : Request) (body : Option (List DeployRoute))
      → Step b (handle_deploy_routes_put b r body).0
  stop : Step b (shutdown b)

pub data Reach (a : Broker) : Broker → Type 0 where
  here : Reach a a
  next : {b c : Broker} → Reach a b → Step b c → Reach a c

-- The cluster registered under `name` was admitted by a certificate that carries its name and
-- names its organisation.
pub record Certified (name : Text) (c : ClusterConn) : Type 0 where
  pub request : Request
  pub owner : OwnedBy request c.org_id
  pub cn : peer_cn_equals request (codes "cluster-" ++ name) ≡ true
  pub org_ne : c.org_id ≢ []
  pub same_id : c.id ≡ name

pub record IsGuarded (b : Broker) : Type 0 where
  pub production : b.dev_mode ≡ false
  pub certified : AllEntries Certified b.clusters

cluster_up-Certified :
    (r : Request) (accepted : Option ℕ) (id org : Text) (sess now : ℕ)
    → handle_tunnel false r accepted ≡ serve_cluster id org sess
    → Certified id (cluster_conn id org sess now)
cluster_up-Certified r accepted id org sess now h =
    let (id_ne, org_ne, cn, who, got) = cluster_admission r accepted h in
    record {
      request = r;
      owner = peer-OwnedBy r who org_ne;
      cn = cn;
      org_ne = org_ne;
      same_id = refl;
    }

drop_current-Certified :
    (cur : Option ClusterConn) (cc : ClusterConn) (m : Map ClusterConn)
    → AllEntries Certified m
    → AllEntries Certified (drop_current cur cc m)
unfolding drop_current
drop_current-Certified none cc m h = h
drop_current-Certified (some cur) cc m h =
    if_both (AllEntries Certified) (cur.sess == cc.sess) (AllEntries-delete Certified cc.id m h) h

put-dev_mode :
    (b : Broker) (r : Request) (body : Option (List Text))
    → (handle_revoked_cns_put b r body).0.dev_mode ≡ b.dev_mode
unfolding handle_revoked_cns_put
put-dev_mode b r none = ground arith
put-dev_mode b r (some cns) = ground arith

put-clusters :
    (b : Broker) (r : Request) (body : Option (List Text))
    → (handle_revoked_cns_put b r body).0.clusters ≡ b.clusters
unfolding handle_revoked_cns_put
put-clusters b r none = ground arith
put-clusters b r (some cns) = ground arith

routes_put-kept :
    (b : Broker) (r : Request) (body : Option (List DeployRoute))
    → ((handle_deploy_routes_put b r body).0.dev_mode ≡ b.dev_mode)
      × ((handle_deploy_routes_put b r body).0.clusters ≡ b.clusters)
unfolding handle_deploy_routes_put put_routes
routes_put-kept b r none = elim (Option-cases b.deploy) [
  | inl off ↦ (ground (arith, off), ground (arith, off))
  | inr (reg, on) ↦ (ground (arith, on), ground (arith, on))
]
routes_put-kept b r (some table) = elim (Option-cases b.deploy) [
  | inl off ↦ (ground (arith, off), ground (arith, off))
  | inr (reg, on) ↦ (ground (arith, on), ground (arith, on))
]

pub Step-IsGuarded : {b c : Broker} → Step b c → IsGuarded b → IsGuarded c
unfolding attach_device detach_device attach_cluster detach_cluster shutdown
Step-IsGuarded (device_up r a id org admin sess now e) g = record {
  production = g.production;
  certified = g.certified;
}
Step-IsGuarded (device_down dc) g = record { production = g.production; certified = g.certified }
Step-IsGuarded {b} (cluster_up r a id org sess now e) g = record {
  production = g.production;
  certified =
      AllEntries-insert Certified id (cluster_conn id org sess now) b.clusters
        (cluster_up-Certified r a id org sess now (rw g.production at e)) g.certified;
}
Step-IsGuarded {b} (cluster_down cc) g = record {
  production = g.production;
  certified = drop_current-Certified (lookup cc.id b.clusters) cc b.clusters g.certified;
}
Step-IsGuarded {b} (push r body) g = record {
  production = put-dev_mode b r body ∙ g.production;
  certified = rw (put-clusters b r body) g.certified;
}
Step-IsGuarded (attach reg) g =
    unfold attach_deploy in record { production = g.production; certified = g.certified }
Step-IsGuarded {b} (routes r body) g =
    let (mode, table) = routes_put-kept b r body in
    record { production = mode ∙ g.production; certified = rw table g.certified }
Step-IsGuarded stop g = record { production = g.production; certified = tt }

pub Reach-IsGuarded : {b : Broker} → Reach (new_with_config false) b → IsGuarded b
unfolding new_with_config
Reach-IsGuarded here = record { production = refl; certified = tt }
Reach-IsGuarded (next r s) = Step-IsGuarded s (Reach-IsGuarded r)
