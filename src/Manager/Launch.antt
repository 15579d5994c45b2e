-- ===== src/Manager/Launch.antt =====
-- The start of the server: options, configuration and `main` of
-- src/janus_manager/interface/network/provider.rs. The user agent and the meter that `main` makes are
-- used by nothing; what it prints after the server has stopped is left out.
pub mod Runs
use dpsa4fl.Base.{Option, none, some, Outcome, ok, err, panic, bind_failed, List, []}
use dpsa4fl.External.{Janus}
use dpsa4fl.Manager.Provisioner.State.{TaskProvisioner, TaskProvisionerConfig, new_provisioner}

-- What the start uses of janus_aggregator::binary_utils, of warp and of the standard library.
pub record Host : Type 1 where
  pub CommonConfig : Type 0
  pub CommonBinaryOptions : Type 0
  pub SocketAddr : Type 0
  pub Header : Type 0
  -- `bind_ephemeral`, which panics where the address cannot be bound: the address that it got
  pub bind_ephemeral : SocketAddr → Option SocketAddr
  -- the command line, the files and the database of a process
  pub Environment : Type 0

module _ (J : Janus) (H : Host) where
  open H use {CommonConfig, CommonBinaryOptions, SocketAddr, Header}

  pub record Options : Type 0 where
    pub common : CommonBinaryOptions

  abbrev pub common_options : Options → CommonBinaryOptions
  common_options o = o.common

  pub record Config : Type 0 where
    pub common_config : CommonConfig
    pub listen_address : SocketAddr
    pub task_provisioner_config : TaskProvisionerConfig J

  -- `common_config_mut`, as the write through the reference that it gives.
  abbrev pub common_config_mut : (CommonConfig → CommonConfig) → Config → Config
  common_config_mut f c = record c { common_config = f c.common_config }

  -- The context that `janus_main` hands to the closure of `main`.
  pub record BinaryContext : Type 0 where
    pub config : Config
    pub datastore : J.Datastore

  -- A server: the provisioner that its endpoints share, and the headers of its replies.
  pub record Server : Type 0 where
    pub aggregator : TaskProvisioner J
    pub response_headers : List Header

  -- The state behind the endpoints of `janus_manager_filter`; the endpoints are in `Server`.
  unfoldable pub janus_manager_filter :
      J.Datastore → TaskProvisionerConfig J → Outcome (TaskProvisioner J)
  unfolding new_provisioner
  janus_manager_filter datastore config = ok (new_provisioner J datastore config)

  unfoldable pub janus_manager_server :
      J.Datastore
      → TaskProvisionerConfig J
      → SocketAddr
      → List Header
      → Outcome (SocketAddr × Server)
  unfolding janus_manager_filter
  janus_manager_server datastore config listen_address response_headers =
      elim (janus_manager_filter datastore config) [
        | err e ↦ err e
        | panic p ↦ panic p
        | ok aggregator ↦ elim (H.bind_ephemeral listen_address) [
          | none ↦ panic bind_failed
          | some bound ↦
              ok (bound, record { aggregator = aggregator; response_headers = response_headers })
        ]
      ]

  -- `main`, up to the server that it waits for. `janus_main` makes the context from the options, the
  -- configuration file and the database, and fails where it cannot.
  unfoldable pub main :
      (H.Environment → Outcome BinaryContext) → H.Environment → Outcome (SocketAddr × Server)
  unfolding janus_manager_server
  main janus_main env = elim (janus_main env) [
    | err e ↦ err e
    | panic p ↦ panic p
    | ok ctx ↦
        janus_manager_server ctx.datastore ctx.config.task_provisioner_config
          ctx.config.listen_address []
  ]
