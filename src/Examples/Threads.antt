-- ===== src/Examples/Threads.antt =====
-- Two scrapes that share a client.
use prometheus_obs_exporter.Prelude.{◌+◌, ◌≤◌, refl, arith}
use prometheus_obs_exporter.Obsclient.Auth.Threads.{
  System, idle, ensured, entered, Reach, begin, next, enter, Reach-issues, issues, total, spent,
}
use prometheus_obs_exporter.Examples.Target.{target_net, session_with}

abbrev start : System
start = record { session = session_with ""; pc = λ _. idle }

abbrev one_in : System
one_in = ensured target_net start 0 entered

abbrev both_in : System
both_in = ensured target_net one_in 1 entered

both_enter : Reach target_net 2 (session_with "") both_in
both_enter = next (next begin (enter 0 (omega arith) refl)) (enter 1 (omega arith) refl)

Reach-issues_example :
    (issues target_net both_in.session.sent ≤ 1 + total spent 2 both_in.pc)
    × (issues target_net both_in.session.sent ≤ 2 + 1)
Reach-issues_example = Reach-issues target_net 2 (session_with "") both_in refl both_enter
