-- ===== src/Tests/Deployments.antt =====
-- The theorems on the deployment of a controller and of a farm, at concrete inputs.
use ovn_scale_test.Prelude.{ℕ, [], ◌∷◌, ◌++◌, map, none, some, String, refl}
use ovn_scale_test.Deploy.Engines.{
  ServerConfig, credential, controller, sandboxes, Resource, fine, failed, broken, Site,
  EngineConfig,
}
use ovn_scale_test.Deploy.Engines.Nodes.{
  deploy_farm, deploy_controller, before_slash, cleanup_farm, cleanup_controller,
}
use ovn_scale_test.Deploy.Engines.Records.{
  ovs_server, deploy_farm-Recorded, deploy_controller-Recorded,
}
use ovn_scale_test.Deploy.Engines.Steps.{Recorded}
use ovn_scale_test.Deploy.Engines.Cleanup.{
  Deletes, cleanup_farm-Deletes, cleanup_controller-Deletes,
}

abbrev plain_config : EngineConfig
plain_config = record {
  ovs_repo = none;
  ovs_branch = none;
  ovs_repo_action = none;
  ovn_repo = none;
  ovn_branch = none;
  ovn_repo_action = none;
  ovs_user = none;
  http_proxy = none;
  https_proxy = none;
  install_method = none;
  host_container = none;
  deployment_name = none;
  controller_cidr = some "192.168.10.10/16";
  net_dev = some "eth1";
}

abbrev root_login : ServerConfig
root_login = record {
  host = "192.168.20.10";
  user = "root";
  key = none;
  password = none;
  port = none;
}

abbrev quiet_site : Site
quiet_site = record { outcome = λ t a. fine; trace = [] }

-- Every command fails, over a connection that holds.
abbrev failing_site : Site
failing_site = record { outcome = λ t a. failed; trace = [] }

abbrev broken_site : Site
broken_site = record { outcome = λ t a. broken; trace = [] }

-- The resources that the deployment of a farm has left.
abbrev left : ovn_scale_test.Prelude.List Resource
left =
    record { id = 3; info = credential (ovs_server plain_config root_login) }
    ∷ record { id = 4; info = sandboxes "farm-0" none }
    ∷ []

deploy_farm-Recorded_example :
    Recorded
      (credential (ovs_server plain_config root_login) ∷ sandboxes "farm-0" none ∷ [])
      quiet_site
      (deploy_farm plain_config "farm-0" (root_login ∷ []) quiet_site)
deploy_farm-Recorded_example = deploy_farm-Recorded plain_config "farm-0" root_login [] quiet_site

deploy_controller-Recorded_example :
    Recorded
      (credential (ovs_server plain_config root_login)
        ∷ controller (before_slash "192.168.10.10/16") (some "ctl") none
        ∷ [])
      quiet_site
      (deploy_controller plain_config "ctl" (root_login ∷ []) quiet_site)
deploy_controller-Recorded_example =
    deploy_controller-Recorded plain_config "ctl" "192.168.10.10/16" root_login [] quiet_site refl
      refl

cleanup_farm-Deletes_example : Deletes (cleanup_farm plain_config left) broken_site (3 ∷ 4 ∷ [])
cleanup_farm-Deletes_example = cleanup_farm-Deletes plain_config left broken_site

cleanup_controller-Deletes_example :
    Deletes (cleanup_controller plain_config left) failing_site (3 ∷ 4 ∷ [])
cleanup_controller-Deletes_example =
    cleanup_controller-Deletes plain_config left failing_site (λ t a e. cc)
