-- ===== src/Lib.antt =====
-- dpsa4fl: differentially private secure aggregation for federated learning
--
-- The program joins three kinds of parties. On each of two aggregators, leader and helper, a janus
-- manager runs beside the janus aggregator: an HTTP server that keeps training sessions and writes
-- aggregation tasks into the datastore of the aggregator. A controller creates a session on both
-- managers, starts rounds in it, which provisions a task with one id on both, collects the
-- aggregate of a round and ends the session. Clients learn a task's id, ask both managers for the
-- parameters of the task, and submit gradients to the aggregators.
--
-- Files and the code that they are about:
--   Base               shared types, hash maps, results that are a value, an error or a panic
--   External           the libraries (url, base64, prio, janus) as parameters: a record `Janus` of
--                      types and functions. External/Laws: what theorems assume of them.
--                      External/Sample: an instance that computes and has all these laws
--   External/Numbers   num_traits and fixed, as parameters; their laws and an instance are
--                      Core/Fixed/Laws and Core/Fixed/Sample
--   Core               src/core/types.rs, src/core/helpers.rs, and in Core/Tag and Core/Fixed
--                      src/core/fixed.rs. Core/Fixed/Binary: binary fractions, on which
--                      Order, Rounding, Signs, Range and Exact describe the conversion
--   Manager/Messages, Manager/Keyring    src/janus_manager/interface/types.rs
--   Manager/Provisioner/Provision        provision_task of src/janus_manager/implementation/mod.rs
--   Manager/Provisioner/State, Handlers  TaskProvisioner and its handlers, same file
--   Manager/Provisioner/Provisioned, Start, Create, Query, StartedQuery, Sessions, Gains
--                      laws of requests that run one after the other
--   Manager/Provisioner/Machine, Invariant, Race    requests that run at the same time
--   Manager/Provisioner/Same             provisioners that differ in the order of their maps
--   Manager/Provisioner/Frame, Swap      requests for different sessions in either order
--   Manager/Http, Manager/Server         src/janus_manager/interface/network/provider.rs.
--                      Manager/Server/Steps: the server as a run of Manager/Provisioner/Machine.
--                      Manager/Server/Rely: requests that leave a session alone.
--                      Manager/Server/Gains: requests that give a session a task;
--                      Manager/Server/Only: requests that leave a task to its session.
--                      Manager/Server/Abstract: provisioners up to the order of their maps.
--                      Manager/Launch: the start of the server
--   Manager/Network, Manager/Consumer    src/janus_manager/interface/network/consumer.rs
--   Controller         src/controller/interface/types.rs, src/controller/interface/embedded.rs.
--                      Controller/Session: its calls as moves of a machine;
--                      Controller/Calls: what a call that returns has got;
--                      Controller/Collection: a collection from start to end
--   Client             src/client/interface/*.rs, src/client/implementation/mod.rs.
--                      Client/Settings: being set for a round; Client/Submission: submissions
--   System             a controller's client and two managers, joined by a network: what calls that
--                      return have done (Create, Round, Rounds, InRound, Exclusive, Tasks,
--                      Finish), which calls return (Delivered, Progress, Queries, Addresses,
--                      Setup, Client, Lifecycle) and what goes wrong or gets lost (Collision,
--                      Retries, Exchanges, Attempts)
--   Examples           tests, and inputs on which the conditions of the results hold
--
-- How the code is modelled:
--   * An `async fn` on `&mut` state is an action: a function of the state into an outcome and the
--     new state. What was written before an error or a panic stays written. `?` is the bind.
--   * A text is the list of its UTF-8 bytes. A hash map is an association list, of which the
--     theorems use the laws of a map.
--   * What a call draws at random or reads from the clock is an argument, `Ambient`. A `u16` and a
--     `u8` that are drawn are reduced modulo their size. The subtraction on `u64` in
--     `collect_generic` wraps, as in a release build.
--   * `handle_start_round`, `handle_end_session` and the query hold the lock on the sessions from
--     beginning to end, so each is one step of Manager/Provisioner/Machine; a creation is three
--     steps, since it gives the lock back after the test of the id. A start that waits for the
--     datastore may be cut off by its client, and a creation at either wait.
--   * A JSON document is the value that it was made from; a reader accepts the type that it expects.
--     What warp answers to a request that fits no endpoint is a parameter.
--   * A network is a parameter of the clients. System/World gives one between two provisioners, in
--     which each exchange is delivered, or loses the request, or loses the answer, and the manager
--     that it reaches has served any list of requests of others before it. As the two managers share
--     no state, these lists stand for every interleaving of whole requests. System/Rely names those
--     that leave a session alone.
--   * A floating-point number stands for a binary fraction, an infinity or no number. The code
--     multiplies it by a power of two only, which is assumed exact but for an overflow. An integer is
--     its bit pattern.
--   * No fuel is used: every function is structural recursion or has no loop.
--
-- Not modelled: CORS headers, metrics and tracing of the provider, which are calls of warp and
-- opentelemetry and keep no state of the program; printing; the documentation in src/lib.rs. What
-- janus_main makes of options, configuration file and database, and the binding of the address, are
-- parameters of Manager/Launch. The deadline that handle_start_round computes is used by nothing; that
-- reading the clock may fail is kept.
pub mod Base
pub mod Core
pub mod External
pub mod Manager
pub mod Controller
pub mod Client
pub mod System
pub mod Examples
