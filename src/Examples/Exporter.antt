-- ===== src/Examples/Exporter.antt =====
-- The clients of cmd/obs-exporter/main.go and its handler.
use prometheus_obs_exporter.Prelude.{zero, suc, refl, [], ◌∷◌, inr}
use prometheus_obs_exporter.Exporter.Clients.{Clients}
use prometheus_obs_exporter.Exporter.Clients.Released.{Answers, HasNoStrayTokens}
use prometheus_obs_exporter.Exporter.Handler.{probe_handler}
use prometheus_obs_exporter.Exporter.Handler.Kept.{probe_handler-HasNoStrayTokens}
use prometheus_obs_exporter.Examples.Target.{target_net, session_with}
use prometheus_obs_exporter.Examples.World.{files, exporter_config, env}

abbrev no_clients : Clients
no_clients = record { cached = []; objects = [] }

-- Another request has stored a client of the target while this one logged in.
abbrev one_client : Clients
one_client = record { cached = ("ecs1", 0) ∷ []; objects = session_with "t1" ∷ [] }

abbrev others : Clients → Clients
others _ = one_client

answers : Answers target_net
answers = record { built = λ _. refl; answered = λ _ _. refl }

none_stray : HasNoStrayTokens no_clients
none_stray i = tt

one_stray : HasNoStrayTokens one_client
one_stray zero = inr refl
one_stray (suc i) = tt

probe_handler-HasNoStrayTokens_example :
    HasNoStrayTokens
      (probe_handler env files exporter_config others "ecs1" "cluster,node" no_clients).1
probe_handler-HasNoStrayTokens_example =
    probe_handler-HasNoStrayTokens env "ecs1" files exporter_config others "cluster,node" no_clients
      answers none_stray one_stray
