-- ===== src/Obsclient/Types.antt =====
-- internal/obsclient/types.go: the answers of the target. Decoding by encoding/json and
-- encoding/xml is the record `Decoders`; a number in JSON is the text that `FlexNumber` keeps.
use prometheus_obs_exporter.Prelude.{String, Bytes, Option, none, List, [], ◌∷◌}
use prometheus_obs_exporter.Obsclient.FlexNumber.{Float64, valid, float64}

abbrev pub FlexText : Type 0
FlexText = Bytes

pub record WhoAmI : Type 0 where
  pub common_name : String
  pub roles : List String

pub record CountSample : Type 0 where
  pub count : FlexText

pub record SpaceSample : Type 0 where
  pub space : FlexText

module _ {W : Type 0} (f : Float64 W) where
  -- The current sample is the first; none for an empty series or a count that is no number.
  unfoldable pub first_count : List CountSample → Option W
  first_count [] = none
  first_count (sample ∷ _) = valid (float64 f sample.count)

  unfoldable pub first_space : List SpaceSample → Option W
  first_space [] = none
  first_space (sample ∷ _) = valid (float64 f sample.space)

pub record LocalZone : Type 0 where
  pub name : String
  pub num_bad_disks : FlexText
  pub num_bad_nodes : FlexText
  pub num_good_nodes : FlexText
  pub num_good_disks : FlexText
  pub alerts_num_unack_critical : List CountSample
  pub alerts_num_unack_error : List CountSample
  pub alerts_num_unack_info : List CountSample
  pub alerts_num_unack_warning : List CountSample
  pub disk_space_free_current : List SpaceSample
  pub disk_space_total_current : List SpaceSample
  pub disk_space_allocated_current : List SpaceSample

pub record ReplicationGroup : Type 0 where
  pub name : String
  pub replication_ingress_traffic : FlexText
  pub replication_egress_traffic : FlexText
  pub chunks_repo_pending_replication_total_size : FlexText
  pub chunks_journal_pending_replication_total_size : FlexText
  pub chunks_pending_xor_total_size : FlexText
  pub replication_rpo_timestamp : FlexText

pub record ReplicationGroupsResponse : Type 0 where
  pub replicationgroup : List ReplicationGroup

pub record Node : Type 0 where
  pub id : String
  pub name : String
  pub data_ip : String
  pub mgmt_ip : String
  pub version : String

pub record NodesResponse : Type 0 where
  pub node : List Node

pub record NamespaceRef : Type 0 where
  pub name : String
  pub id : String

pub record NamespacesResponse : Type 0 where
  pub namespace : List NamespaceRef

pub record NamespaceQuota : Type 0 where
  pub namespace : String
  pub block_size : FlexText
  pub notification_size : FlexText

pub record NamespaceBillingInfo : Type 0 where
  pub namespace : String
  pub total_objects : FlexText
  pub total_size : FlexText

pub record DtInitStat (W : Type 0) : Type 0 where
  pub total_dt_num : W
  pub unready_dt_num : W
  pub unknown_dt_num : W

pub record PingResponse (W : Type 0) : Type 0 where
  pub xmlns : String
  pub name : List String
  pub value : W
  pub status : List String
  pub text : List String

pub record FluxQueryRequest : Type 0 where
  pub query : Bytes

pub record FluxSeries : Type 0 where
  pub datatypes : List String
  pub columns : List String
  pub values : List (List String)

pub record FluxQueryResponse : Type 0 where
  pub series : List FluxSeries

-- `json.Unmarshal` and `xml.Unmarshal` at the types that the client reads, `none` for an error,
-- and `json.Marshal` at the one that it writes.
pub record Decoders (W : Type 0) : Type 0 where
  pub who_am_i : Bytes → Option WhoAmI
  pub local_zone : Bytes → Option LocalZone
  pub replication_groups : Bytes → Option ReplicationGroupsResponse
  pub nodes : Bytes → Option NodesResponse
  pub namespaces : Bytes → Option NamespacesResponse
  pub namespace_quota : Bytes → Option NamespaceQuota
  pub namespace_billing : Bytes → Option NamespaceBillingInfo
  pub dt_init_stat : Bytes → Option (DtInitStat W)
  pub ping : Bytes → Option (PingResponse W)
  pub flux_query_response : Bytes → Option FluxQueryResponse
  pub encode_flux_query : FluxQueryRequest → Option Bytes
