-- ===== src/Topology.antt =====
-- The dicts in which the scenarios keep switches, ports, routers and sandboxes, and the arguments
-- of a task that say how many to make.
use ovn_scale_test.Prelude.{Option, String}
use ovn_scale_test.Env.{IpNetwork}

-- `{"name", "mac", "ip", "gw", "ext-gw"}`
pub record Lport : Type 0 where
  pub name : String
  pub mac : String
  pub ip : String
  pub gw : String
  pub ext_gw : Option String

-- `{"name"}`, and `"cidr"` once the code has set it.
pub record Lswitch : Type 0 where
  pub name : String
  pub cidr : Option IpNetwork

-- `{"name"}` of a router.
pub record Lrouter : Type 0 where
  pub name : String

-- `{"name", "tag", "farm", "host_container"}`
pub record Sandbox : Type 0 where
  pub name : String
  pub tag : String
  pub farm : String
  pub host_container : Option String
