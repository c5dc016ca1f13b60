-- ===== src/Obsclient/DtStats.antt =====
-- internal/obsclient/dtstats.go: the directory tables and the connections of each node, asked for
-- without authentication.
pub mod Slots
pub mod Tasks
use prometheus_obs_exporter.Prelude.{
  ℕ, String, Bytes, utf8, ◌≡◌, refl, Bool, Option, none, some, List, [], ◌∷◌, ◌++◌, ◌==◌, get_elem?,
  set, if◌then◌else◌,
}
use prometheus_obs_exporter.Prelude.Int.{decimal_int}
use prometheus_obs_exporter.Obsclient.Net.{Net, get, Error, bad_status, decoding}
use prometheus_obs_exporter.Obsclient.Client.{
  Session, Outcome, ok, err, M, pure, fail, wrap, ◌>>=◌, new_request, http_do, read_all,
}
use prometheus_obs_exporter.Obsclient.FlexNumber.{Float64}
use prometheus_obs_exporter.Obsclient.Types.{DtInitStat, PingResponse, Decoders}

pub record NodeDtStats (W : Type 0) : Type 0 where
  pub node : String
  pub total_dt : W
  pub unready_dt : W
  pub unknown_dt : W
  pub active_connections : W
  pub error : Option Error

module _ (net : Net) where
  unfoldable pub get_raw_xml : Bytes → M Bytes
  get_raw_xml url = wrap "building request to" (new_request net get url none) >>= λ req.
      wrap "requesting" (http_do net req) >>= λ resp.
      wrap "reading response from" (read_all net resp) >>= λ body.
      if resp.status == 200 then pure body else fail (bad_status resp.status)

  module _ {W : Type 0} (f : Float64 W) (dec : Decoders W) where
    decoded : {A : Type 0} → Option A → M A
    decoded none = wrap "decoding XML from" (fail decoding)
    decoded (some a) = pure a

    unfoldable pub get_dt_init_stat : String → M (DtInitStat W)
    unfolding decoded
    get_dt_init_stat node = do
      body ← get_raw_xml (utf8 "http://" ++ (utf8 node ++ utf8 ":9101/stats/dt/DTInitStat"))
      decoded (dec.dt_init_stat body)

    unfoldable pub get_ping : String → M (PingResponse W)
    unfolding decoded
    get_ping node s =
        (get_raw_xml (
              utf8 "https://"
              ++ (utf8 node ++ (b':' ∷ (decimal_int s.client.cfg.obj_port ++ utf8 "/?ping"))))
            >>= λ body. decoded (dec.ping body))
          s

    abbrev pub blank : String → NodeDtStats W
    blank node = record {
      node = node;
      total_dt = f.of_nat 0;
      unready_dt = f.of_nat 0;
      unknown_dt = f.of_nat 0;
      active_connections = f.of_nat 0;
      error = none;
    }

    -- The result of a node with the session after it: an error is a field of the result.
    abbrev pub pinged : NodeDtStats W → Outcome (PingResponse W) → NodeDtStats W × Session
    pinged r (ok p s) = (record r { active_connections = p.value }, s)
    pinged r (err e s) = (record r { error = some e }, s)

    abbrev pub with_tables : NodeDtStats W → DtInitStat W → NodeDtStats W
    with_tables r d = record r {
      total_dt = d.total_dt_num;
      unready_dt = d.unready_dt_num;
      unknown_dt = d.unknown_dt_num;
    }

    abbrev pub counted : String → Outcome (DtInitStat W) → NodeDtStats W × Session
    counted node (err e s) = (record (blank node) { error = some e }, s)
    counted node (ok d s) =
        pinged (with_tables (blank node) d) (wrap "obsclient: ping for node" (get_ping node) s)

    unfoldable pub get_node_dt_stats : String → Session → NodeDtStats W × Session
    get_node_dt_stats node s =
        counted node (wrap "obsclient: dt stats for node" (get_dt_init_stat node) s)

    -- One goroutine for each node writes its own slot of the result; `order` is the order in which
    -- the goroutines run, each in one piece.
    fill_slots :
        List String → List ℕ → List (NodeDtStats W) → Session → List (NodeDtStats W) × Session
    fill_slots nodes [] results s = (results, s)
    fill_slots nodes (i ∷ order) results s = elim (get_elem? nodes i) [
      | none ↦ fill_slots nodes order results s
      | some node ↦
          let (r, s') = get_node_dt_stats node s in fill_slots nodes order (set results i r) s'
    ]

    -- `make([]NodeDTStats, len(nodes))`
    unfoldable pub zeroed : List String → List (NodeDtStats W)
    zeroed [] = []
    zeroed (_ ∷ nodes) = blank "" ∷ zeroed nodes

    unfoldable pub get_all_node_dt_stats :
        List ℕ → List String → Session → List (NodeDtStats W) × Session
    unfolding fill_slots zeroed
    get_all_node_dt_stats order nodes s = fill_slots nodes order (zeroed nodes) s
