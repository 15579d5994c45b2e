-- ===== src/System/Queries.antt =====
-- The queries of a client for a task: that they are delivered, and how a manager that holds the task
-- answers.
use dpsa4fl.Base.{contains, true, ℕ, ℕ_discrete, ◌≡◌, refl, arith, some, ok}
use dpsa4fl.Base.HashMap
use dpsa4fl.External.{Janus}
use dpsa4fl.External.Laws.{IsCodec}
use dpsa4fl.Core.Types.{Locations, VdafParameter, VdafParameter-discrete}
use dpsa4fl.Manager.Messages.{Ambient, GetVdafParameterRequest}
use dpsa4fl.Manager.Provisioner.State.{TrainingSession, TaskProvisioner, session_of}
use dpsa4fl.Manager.Provisioner.Handlers.{handle_get_vdaf_parameter}
use dpsa4fl.Manager.Provisioner.Query.{HeldOnlyBy, handle_get_vdaf_parameter_iff}
use dpsa4fl.Manager.Http.{post_method, Route, status_ok, vdaf_request, vdaf_response}
use dpsa4fl.Manager.Network.{Network}
use dpsa4fl.Manager.Server.{serve}
use dpsa4fl.Manager.Consumer.{get_vdaf_parameter_from_task}
use dpsa4fl.Client.{get_parametrization}
use dpsa4fl.System.World.{
  Party, leader_party, helper_party, World, Deployment, found_at, next, after, delivered, deployed,
  LeadsTo,
}
use dpsa4fl.System.Delivered.{BothDelivered, visited, post_delivered}

module _ (J : Janus) (d : Deployment J) (services : Network J (World J)) where
  abbrev pub asked : J.TaskId → GetVdafParameterRequest
  asked t = record { task_id_encoded = J.encode_base64 (J.get_encoded t) }

  serve_queries :
      (a : Ambient J) (q : GetVdafParameterRequest) (s : TaskProvisioner J) (p : VdafParameter J)
      → handle_get_vdaf_parameter J q s ≡ (ok p, s)
      → serve J d.rejected a post_method (some Route.get_vdaf_parameter) (some (vdaf_request q)) s
        ≡ (
          ok (record { status = status_ok; body = vdaf_response (record { vdaf_parameter = p }) }),
          s,
        )
  unfolding serve
  serve_queries a q s p h = ground arith

  -- A query that is delivered, to a manager that answers it.
  query_delivered :
      (base : J.Url) (p : Party)
      → LeadsTo J d base p
      → (t : J.TaskId) (w : World J) (v : VdafParameter J) → w.fate w.tick ≡ delivered
      → handle_get_vdaf_parameter J (asked t) (found_at J d p w) ≡ (ok v, found_at J d p w)
      → get_vdaf_parameter_from_task J (deployed J d services) base t w
        ≡ (ok v, after J p (found_at J d p w) w)
  unfolding get_vdaf_parameter_from_task
  query_delivered base p l t w v arrives h = ground (
    arith,
    post_delivered J d services base p l Route.get_vdaf_parameter (vdaf_request (asked t)) w
        (record { status = status_ok; body = vdaf_response (record { vdaf_parameter = v }) })
        (found_at J d p w) arrives
        (serve_queries (w.ambient w.tick) (asked t) (found_at J d p w) v h),
  )

  -- Two queries that are delivered, with the same answer.
  pub agreed_delivered :
      (l : Locations J)
      → LeadsTo J d l.manager.external_leader leader_party
      → LeadsTo J d l.manager.external_helper helper_party
      → (t : J.TaskId) (w : World J) (v : VdafParameter J) → BothDelivered J d services w
      → handle_get_vdaf_parameter J (asked t) (found_at J d leader_party w)
        ≡ (ok v, (found_at J d leader_party w))
      → handle_get_vdaf_parameter J (asked t) (found_at J d helper_party (next J w))
        ≡ (ok v, (found_at J d helper_party (next J w)))
      → get_parametrization J (deployed J d services) t l w
        ≡ (ok (record { location = l; vdaf_parameter = v }), visited J d services w)
  unfolding get_parametrization
  agreed_delivered l to_leader to_helper t w v (first, second) lead help =
      let w1 = after J leader_party (found_at J d leader_party w) w in
      elim (VdafParameter-discrete J v v) [
        | no differ ↦ absurd (differ refl)
        | yes same ↦ ground (
          arith,
          query_delivered l.manager.external_leader leader_party to_leader t w v first lead,
          query_delivered l.manager.external_helper helper_party to_helper t w1 v second help,
        )
      ]

  -- The answer of a manager that holds the task in one session.
  pub holder_answers :
      IsCodec J
      → (sid : ℕ) (t : J.TaskId) (s : TaskProvisioner J) (v : TrainingSession J)
      → session_of J sid s ≡ some v
      → contains J.task_id_discrete v.tasks t ≡ true
      → HashMap.NodupKeys ℕ_discrete s.training_sessions
      → HeldOnlyBy J t sid s.training_sessions
      → handle_get_vdaf_parameter J (asked t) s ≡ (ok v.vdaf_parameter, s)
  holder_answers codec sid t s v found has nodup only =
      (handle_get_vdaf_parameter_iff J (asked t) s (J.get_encoded t) t
          (codec.decode-encode (J.get_encoded t)) (codec.decoded-encoded t) nodup
          v.vdaf_parameter).1
        (v, record { sid = sid; found = found; has = has; only = only }, refl)
