-- ===== src/Bridge/State.antt =====
-- pkg/bridge/bridge.go: the tables of connected devices and clusters.
use agentry.Base.{ℕ, Bool, List, [], Text, Map, Option, none, some}
use agentry.Bridge.Routes.{DeployRegistry}

-- `sess` stands for the yamux session. Each record is made once, for one session, so it also
-- stands for the pointer that the source compares.
pub record DeviceConn : Type 0 where
  pub id : Text
  pub org_id : Text
  pub admin : Bool
  pub sess : ℕ
  pub connected : ℕ

pub record ClusterConn : Type 0 where
  pub id : Text
  pub org_id : Text
  pub sess : ℕ
  pub connected : ℕ

-- `closed` lists the sessions that the bridge itself has closed, latest first.
pub record Broker : Type 0 where
  pub dev_mode : Bool
  pub devices : Map (List DeviceConn)
  pub clusters : Map ClusterConn
  pub deploy : Option DeployRegistry
  pub revoked : Option (List Text)
  pub closed : List ℕ

unfoldable pub new_with_config : Bool → Broker
new_with_config dev_mode = record {
  dev_mode = dev_mode;
  devices = [];
  clusters = [];
  deploy = none;
  revoked = some [];
  closed = [];
}

unfoldable pub attach_deploy : Broker → DeployRegistry → Broker
attach_deploy b reg = record b { deploy = some reg }
