-- ===== src/Telecom/Examples.antt =====
-- The identities of a simulated UE.
use g_core_rest_sba.Base.{◌≡◌, arith}
use g_core_rest_sba.Base.Stop.{ok}
use g_core_rest_sba.Telecom.Identity.{teid_of_ue, teid_of_ue_lem}

teid_of_ue_example : teid_of_ue 42 ≡ ok 42
teid_of_ue_example = teid_of_ue_lem 42 (omega arith)
