-- ===== src/Collector/Probe/Tables.antt =====
-- The descriptors of each collector (internal/collector).
use prometheus_obs_exporter.Prelude.{
  ◌≡◌, refl, ◌⊎◌, String, Bytes, utf8, Bool, true, false, not, ◌&&◌, ◌||◌, ◌==◌, leb, str_eq, List,
  [], ◌∷◌, All, ℕ, if◌then◌else◌,
}
use prometheus_obs_exporter.Collector.Metrics.{Desc}
use prometheus_obs_exporter.Collector.Cluster.{
  nodes_desc, disks_desc, capacity_total_desc, capacity_free_desc, alerts_desc, info_desc,
}
use prometheus_obs_exporter.Collector.Replication.{
  ingress_desc, egress_desc, pending_repo_desc, pending_journal_desc, pending_xor_desc, rpo_desc,
}
use prometheus_obs_exporter.Collector.Node.{
  tables_desc, tables_unready_desc, tables_unknown_desc, connections_desc,
}
use prometheus_obs_exporter.Collector.Metering.{quota_desc, used_desc, objects_desc}
use prometheus_obs_exporter.Collector.Perf.{
  read_latency_desc, write_latency_desc, read_bytes_desc, write_bytes_desc, read_tps_desc,
  write_tps_desc, errors_desc,
}
use prometheus_obs_exporter.Collector.Probe.{scrape_success_desc, scrape_duration_desc}

-- The five collectors, and `Probe` itself.
pub data Source : Type 0 where
  cluster replication node metering perf scrape : Source

abbrev pub table : Source → List Desc
table cluster =
    nodes_desc ∷ disks_desc ∷ capacity_total_desc ∷ capacity_free_desc ∷ alerts_desc ∷ info_desc
    ∷ []
table replication =
    ingress_desc ∷ egress_desc ∷ pending_repo_desc ∷ pending_journal_desc ∷ pending_xor_desc
    ∷ rpo_desc ∷ []
table node = tables_desc ∷ tables_unready_desc ∷ tables_unknown_desc ∷ connections_desc ∷ []
table metering = quota_desc ∷ used_desc ∷ objects_desc ∷ []
table perf =
    read_latency_desc ∷ write_latency_desc ∷ read_bytes_desc ∷ write_bytes_desc ∷ read_tps_desc
    ∷ write_tps_desc ∷ errors_desc ∷ []
table scrape = scrape_success_desc ∷ scrape_duration_desc ∷ []

abbrev has_name : String → List Desc → Bool
has_name name [] = false
has_name name (d ∷ ds) = str_eq name d.name || has_name name ds

-- The source of a descriptor, by its name.
abbrev pub owner : String → Source
owner name =
    if has_name name (table cluster)
    then cluster
    else if has_name name (table replication)
    then replication
    else if has_name name (table node)
    then node
    else if has_name name (table metering)
    then metering
    else if has_name name (table perf)
    then perf
    else scrape

-- No name stands in two of the tables.
pub owner-table : (w : Source) → All (λ d. owner d.name ≡ w) (table w)
owner-table cluster = (refl, (refl, (refl, (refl, (refl, (refl, tt))))))
owner-table replication = (refl, (refl, (refl, (refl, (refl, (refl, tt))))))
owner-table node = (refl, (refl, (refl, (refl, tt))))
owner-table metering = (refl, (refl, (refl, tt)))
owner-table perf = (refl, (refl, (refl, (refl, (refl, (refl, (refl, tt)))))))
owner-table scrape = (refl, (refl, tt))

abbrev is_letter : ℕ → Bool
is_letter c = (leb 97 c && leb c 122) || (leb 65 c && leb c 90) || (c == 95)

abbrev all_word : Bytes → Bool
all_word [] = true
all_word (c ∷ s) = (is_letter c || (leb 48 c && leb c 57)) && all_word s

abbrev is_word : Bytes → Bool
is_word [] = false
is_word (c ∷ s) = is_letter c && all_word s

abbrev words : List String → Bool
words [] = true
words (name ∷ names) = is_word (utf8 name) && words names

abbrev other_than : String → List String → Bool
other_than name [] = true
other_than name (n ∷ names) = not (str_eq name n) && other_than name names

abbrev distinct : List String → Bool
distinct [] = true
distinct (name ∷ names) = other_than name names && distinct names

abbrev is_valid : Desc → Bool
is_valid d = is_word (utf8 d.name) && (words d.labels && distinct d.labels)

-- Descriptors of different names, each of a name and labels that Prometheus allows.
abbrev pub valid_table : List Desc → Bool
valid_table [] = true
valid_table (d ∷ ds) = is_valid d && (not (has_name d.name ds) && valid_table ds)

pub table-valid : (w : Source) → valid_table (table w) ≡ true
table-valid cluster = refl
table-valid replication = refl
table-valid node = refl
table-valid metering = refl
table-valid perf = refl
table-valid scrape = refl

abbrev pub Among : List Desc → Desc → Type 0
Among [] d = ⊥
Among (e ∷ es) d = (d ≡ e) ⊎ Among es d
