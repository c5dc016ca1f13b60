-- ===== src/Examples/Program.antt =====
-- Two requests for one target that race for its client, and the end of the process after them.
use prometheus_obs_exporter.Prelude.{
  ℕ, ◌≡◌, ◌≢◌, refl, String, some, true, [], ◌∷◌, All, inl, inr, zero, suc, arith,
}
use prometheus_obs_exporter.Prelude.Dict.{find, put}
use prometheus_obs_exporter.Obsclient.Client.{Session, Client, created, after}
use prometheus_obs_exporter.Obsclient.Client
use prometheus_obs_exporter.Obsclient.Auth.{login, logout}
use prometheus_obs_exporter.Exporter.Clients.{Clients, client_config, with_object, logout_all}
use prometheus_obs_exporter.Exporter.Clients.Shutdown.{HasNoToken}
use prometheus_obs_exporter.Exporter.Clients.Released.{Answers}
use prometheus_obs_exporter.Exporter.Program.{
  Pc, idle, arrived, missed, storing, losing, probing, ended, made, load, make, store, release,
  answer, Phase, serving, released, IsRunning, update, Program, IsQuiet, Reach, start, next, arrive,
  request, signal, drain, release_all,
}
use prometheus_obs_exporter.Exporter.Program.Shared.{one_client}
use prometheus_obs_exporter.Exporter.Program.Stopping.{released-All}
use prometheus_obs_exporter.Examples.Target.{target_net, session_with}
use prometheus_obs_exporter.Examples.World.{files, exporter_config}

abbrev target : ℕ → String
target _ = "ecs1"

-- `ListenAndServe` returns as soon as `Shutdown` is called.
abbrev IsClosed : Phase → Type 0
IsClosed phase = phase ≢ serving

abbrev no_clients : Clients
no_clients = record { cached = []; objects = [] }

-- The session of a client of the target that has just logged in.
abbrev own : Session
own =
    elim (made target_net (Client.new files "ecs1" (client_config exporter_config)) no_clients).1 [
      | storing s ↦ s
      | _ ↦ session_with ""
    ]

abbrev first_in : Clients
first_in = record { cached = put "ecs1" 0 []; objects = own ∷ [] }

abbrev both_in : Clients
both_in = with_object (after (logout target_net own)) first_in

abbrev to : Program → ℕ → Clients → Pc → Program
to p i st c = record p { clients = st; pc = update p.pc i c }

abbrev opened : Program
opened = record { phase = serving; clients = no_clients; pc = λ _. idle }

-- Both requests miss, and both log in.
abbrev both_made : Program
both_made =
    to
      (to
        (to (to (to (to opened 0 no_clients arrived) 1 no_clients arrived) 0 no_clients missed) 1
          no_clients missed)
        0 no_clients (storing own))
      1 no_clients (storing own)

abbrev both_probing : Program
both_probing =
    to (to (to both_made 0 first_in (probing 0)) 1 first_in (losing own 0)) 1 both_in (probing 0)

on : IsRunning serving
on = tt

abbrev Run : Program → Type 0
Run = Reach target_net files exporter_config target IsClosed

abbrev both_missed : Program
both_missed = to (to opened 0 no_clients arrived) 1 no_clients arrived

both_arrive : Run both_missed
both_arrive = next (next start (arrive 0 refl refl)) (arrive 1 refl refl)

both_miss : Run (to (to both_missed 0 no_clients missed) 1 no_clients missed)
unfolding find
both_miss = next (next both_arrive (request 0 _ _ on load)) (request 1 _ _ on load)

both_make : Run both_made
unfolding find Client.new client_config login
both_make = next (next both_miss (request 0 _ _ on make)) (request 1 _ _ on make)

both_probe : Run both_probing
unfolding find put login Client.new client_config
both_probe =
    next (next (next both_make (request 0 _ _ on (store own))) (request 1 _ _ on (store own)))
      (request 1 _ _ on (release own 0))

abbrev position : ℕ
position = 0

one_client_example : (position ≡ position) × (find "ecs1" both_in.cached ≡ some position)
one_client_example =
    one_client target_net files exporter_config target IsClosed both_probing 0 1 position position
      both_probe refl refl refl

-- Both requests are answered, and the signal comes.
abbrev both_ended : Program
both_ended = to (to both_probing 0 both_in ended) 1 both_in ended

abbrev stopped : Program
stopped = record both_ended { phase = released true; clients = logout_all target_net both_in }

quiet : IsQuiet both_ended.pc
quiet zero = inr refl
quiet (suc zero) = inr refl
quiet (suc (suc i)) = inl (ground arith)

both_end : Run both_ended
both_end = next (next both_probe (request 0 _ _ on (answer 0))) (request 1 _ _ on (answer 0))

stops : Run stopped
stops = next (next (next both_end (signal refl)) (drain refl quiet)) (release_all true refl)

answers : Answers target_net
answers = record { built = λ _. refl; answered = λ _ _. refl }

released-All_example : All HasNoToken stopped.clients.objects
released-All_example =
    released-All target_net files exporter_config target IsClosed stopped stops answers refl
