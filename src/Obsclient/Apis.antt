-- ===== src/Obsclient/Apis.antt =====
-- internal/obsclient/dashboard.go, metering.go and `WhoAmI` of auth.go: one authenticated call to
-- each path of the management API.
pub mod Paths
use prometheus_obs_exporter.Prelude.{
  ℕ, ◌+◌, ◌-◌, ◌/◌, ◌%◌, String, Bytes, utf8, ◌≡◌, refl, Bool, Option, List, [], ◌∷◌, ◌++◌, leb,
  ltb, ◌==◌, ◌&&◌, ◌||◌, if◌then◌else◌,
}
use prometheus_obs_exporter.Obsclient.Net.{Net}
use prometheus_obs_exporter.Obsclient.Client.{M, pure, wrap, ◌>>=◌}
use prometheus_obs_exporter.Obsclient.Auth.{get_authenticated_json}
use prometheus_obs_exporter.Obsclient.Types.{
  WhoAmI, LocalZone, ReplicationGroup, Node, NamespaceRef, NamespaceQuota, NamespaceBillingInfo,
  Decoders,
}

unfoldable pub quota_path : Net → String → Bytes
quota_path net namespace =
    utf8 "/object/namespaces/namespace/" ++ (net.path_escape (utf8 namespace) ++ utf8 "/quota")

unfoldable pub billing_path : Net → String → Bytes
billing_path net namespace =
    utf8 "/object/billing/namespace/"
    ++ (net.path_escape (utf8 namespace) ++ utf8 "/info?sizeunit=KB")

module _ {W : Type 0} (net : Net) (dec : Decoders W) where
  unfoldable pub who_am_i : M WhoAmI
  who_am_i =
      wrap "obsclient: whoami" (get_authenticated_json net dec.who_am_i (utf8 "/user/whoami"))

  unfoldable pub get_local_zone : M LocalZone
  get_local_zone =
      wrap "obsclient: get local zone"
        (get_authenticated_json net dec.local_zone (utf8 "/dashboard/zones/localzone"))

  unfoldable pub get_replication_groups : M (List ReplicationGroup)
  get_replication_groups = do
    resp ← wrap "obsclient: get replication groups" (
        get_authenticated_json net dec.replication_groups
          (utf8 "/dashboard/zones/localzone/replicationgroups"))
    pure resp.replicationgroup

  unfoldable pub get_nodes : M (List Node)
  get_nodes = do
    resp ← wrap "obsclient: get nodes" (get_authenticated_json net dec.nodes (utf8 "/vdc/nodes"))
    pure resp.node

  unfoldable pub list_namespaces : M (List NamespaceRef)
  list_namespaces = do
    resp ←
        wrap "obsclient: list namespaces"
          (get_authenticated_json net dec.namespaces (utf8 "/object/namespaces"))
    pure resp.namespace

  unfoldable pub get_namespace_quota : String → M NamespaceQuota
  get_namespace_quota namespace =
      wrap "obsclient: get namespace quota"
        (get_authenticated_json net dec.namespace_quota (quota_path net namespace))

  unfoldable pub get_namespace_billing : String → M NamespaceBillingInfo
  get_namespace_billing namespace =
      wrap "obsclient: get namespace billing info"
        (get_authenticated_json net dec.namespace_billing (billing_path net namespace))
