-- ===== src/Controller/Crd.antt =====
-- internal/controller/crd_check.go, which SetupWithManager of the agents' reconciler calls once.
use agentrax.Prelude.{String, Bool, true, false}

-- What the read of the CRD comes to.
pub data CrdReply : Type 0 where
  crd_found crd_missing : CrdReply
  crd_broken : String → CrdReply

pub data CrdCheck : Type 0 where
  present : Bool → CrdCheck
  check_failed : String → CrdCheck

unfoldable pub service_monitor_crd_exists : CrdReply → CrdCheck
service_monitor_crd_exists crd_found = present true
service_monitor_crd_exists crd_missing = present false
service_monitor_crd_exists (crd_broken e) = check_failed e
