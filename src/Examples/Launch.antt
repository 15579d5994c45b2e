-- ===== src/Examples/Launch.antt =====
-- The start of a server, and two requests to it.
use dpsa4fl.Base.{◌≡◌, refl, [], ◌∷◌, none, some, Outcome, ok, Text}
use dpsa4fl.External.Sample.{sample, sample-IsDatastore}
use dpsa4fl.Manager.Http.{get_method, Route, status_ok, locations}
use dpsa4fl.Manager.Provisioner.State.{new_provisioner}
use dpsa4fl.Manager.Provisioner.Invariant.{IsValid}
use dpsa4fl.Manager.Server.{serve}
use dpsa4fl.Manager.Server.Steps.{served}
use dpsa4fl.Manager.Launch.{Host, BinaryContext, Server, main}
use dpsa4fl.Manager.Launch.Runs.{main-IsValid}
use dpsa4fl.Examples.Data.{settings, draws, plain_answer}
use dpsa4fl.Examples.Races.{two_arrivals}

-- Addresses are texts that can all be bound, and an environment is a datastore.
abbrev host : Host
host = record {
  CommonConfig = Unit {0};
  CommonBinaryOptions = Unit {0};
  SocketAddr = Text;
  Header = Text;
  bind_ephemeral = λ a. some a;
  Environment = sample.Datastore;
}

abbrev starting : sample.Datastore → Outcome (BinaryContext sample host)
starting d = ok (record {
  config = record {
    common_config = tt;
    listen_address = 9 ∷ [];
    task_provisioner_config = settings;
  };
  datastore = d;
})

abbrev started : Server sample host
started = record { aggregator = new_provisioner sample [] settings; response_headers = [] }

starts : main sample host starting [] ≡ ok (9 ∷ [], started)
unfolding main
starts = refl

main-IsValid_example :
    let s = served sample plain_answer two_arrivals started.aggregator in
    (ctx : BinaryContext sample host) × (starting [] ≡ ok ctx)
    × IsValid sample (record { provisioner = s; pending = [] })
    × (serve sample plain_answer draws get_method (some Route.get_main_locations) none s ≡ (
      ok (record {
        status = status_ok;
        body = locations ctx.config.task_provisioner_config.main_locations;
      }),
      s,
    ))
main-IsValid_example =
    main-IsValid sample sample-IsDatastore host starting [] (9 ∷ []) started starts plain_answer
      two_arrivals draws none
