-- ===== src/System/InRound.antt =====
-- A session in a round: how the calls of the controller bring both managers there, and that the
-- requests of others which spare it leave it there.
use dpsa4fl.Base.{contains, true, List, ◌∙◌, ℕ, ◌≡◌, some, ok}
use dpsa4fl.External.{Janus}
use dpsa4fl.External.Laws.{IsCodec, IsTransactional}
use dpsa4fl.Manager.Messages.{Ambient}
use dpsa4fl.Manager.Provisioner.State.{TrainingSession, TaskProvisioner, session_of}
use dpsa4fl.Manager.Network.{Network}
use dpsa4fl.Manager.Consumer.{JanusManagerClient, create_session}
use dpsa4fl.System.World.{
  leader_party, helper_party, World, Deployment, found_at, next, deployed, LeadsTo,
}
use dpsa4fl.System.Rounds.{Rounds, recorded_tasks}
use dpsa4fl.System.Rely.{Spared, spared_at}

module _ (J : Janus) (d : Deployment J) (services : Network J (World J)) where
  -- A session that both managers hold with a task among its tasks.
  pub record InRound (c : JanusManagerClient J) (sid : ℕ) (t : J.TaskId) (l h : TaskProvisioner J)
      : Type 0 where
    pub lead : TrainingSession J
    pub help : TrainingSession J
    pub at_leader : session_of J sid l ≡ some lead
    pub at_helper : session_of J sid h ≡ some help
    pub lead_holds : contains J.task_id_discrete lead.tasks t ≡ true
    pub help_holds : contains J.task_id_discrete help.tasks t ≡ true
    pub lead_parameter : lead.vdaf_parameter ≡ c.vdaf_parameter
    pub help_parameter : help.vdaf_parameter ≡ c.vdaf_parameter

  -- A session created by the controller is in every round that was started in it.
  pub Rounds-InRound :
      IsCodec J
      → IsTransactional J
      → (c : JanusManagerClient J) → LeadsTo J d c.location.manager.external_leader leader_party
      → LeadsTo J d c.location.manager.external_helper helper_party
      → (a : Ambient J) (w w1 w2 : World J) (sid : ℕ) (ts : List J.TaskId) (t : J.TaskId)
      → create_session J (deployed J d services) c a w ≡ (ok sid, w1)
      → Rounds J d services c sid w1 ts w2
      → contains J.task_id_discrete ts t ≡ true
      → InRound c sid t w2.leader w2.helper
  Rounds-InRound codec L c to_leader to_helper a w w1 w2 sid ts t made rounds has =
      let (lead, help, same, (lead_at, help_at)) =
        recorded_tasks J d services codec L c to_leader to_helper a w w1 w2 sid ts made rounds in
      record {
        lead = record lead { tasks = ts };
        help = record help { tasks = ts };
        at_leader = lead_at;
        at_helper = help_at;
        lead_holds = has;
        help_holds = has;
        lead_parameter = same.lead_parameter;
        help_parameter = same.help_parameter;
      }

  -- It stays in the round where requests of others spare it.
  pub Spared-InRound :
      (c : JanusManagerClient J) (sid : ℕ) (t : J.TaskId) (w : World J)
      → Spared J d services sid w
      → InRound c sid t w.leader w.helper
      → InRound c sid t (found_at J d leader_party w) (found_at J d helper_party (next J w))
  Spared-InRound c sid t w (spare, spare') r = record {
    lead = r.lead;
    help = r.help;
    at_leader = spared_at J d services leader_party sid w spare ∙ r.at_leader;
    at_helper = spared_at J d services helper_party sid (next J w) spare' ∙ r.at_helper;
    lead_holds = r.lead_holds;
    help_holds = r.help_holds;
    lead_parameter = r.lead_parameter;
    help_parameter = r.help_parameter;
  }
