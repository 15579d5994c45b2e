-- ===== src/System/Attempts.antt =====
-- Starts of rounds in a session, those included that fail, and the tasks that they leave there.
use dpsa4fl.Base.{
  ℕ, push, [], ◌∷◌, ◌++◌, List, append-nil, append_assoc, ◌≡◌, ◌∙◌, sym, subst, inl, inr, arith,
  some, ok, is_ok, false, Outcome-cases,
}
use dpsa4fl.External.{Janus}
use dpsa4fl.External.Laws.{IsCodec, IsTransactional}
use dpsa4fl.Manager.Messages.{Ambient}
use dpsa4fl.Manager.Provisioner.State.{TrainingSession, session_of}
use dpsa4fl.Manager.Http.{Route, start_request}
use dpsa4fl.Manager.Network.{Network}
use dpsa4fl.Manager.Server.Rely.{Sparing}
use dpsa4fl.Manager.Consumer.{
  JanusManagerClient, post, both_ok, create_session, start_round, draw_verify_key,
}
use dpsa4fl.System.World.{
  Party, leader_party, helper_party, World, Deployment, at, found_at, next, deployed, LeadsTo,
}
use dpsa4fl.System.Rely.{Spared, spared_at}
use dpsa4fl.System.Create.{create_session_agrees, SameSession}
use dpsa4fl.System.Round.{asks, start_round-BothStarted, BothStarted}
use dpsa4fl.System.Rounds.{started_pushes}
use dpsa4fl.System.Exchanges.{nil, push_keep, Has, post-Exchanged, exchange_keeps}

module _ (J : Janus) (d : Deployment J) (services : Network J (World J)) where
  -- Starts that the controller makes in a session, one after the other, with the task ids of those
  -- that return one. No request of others that comes before an exchange creates or ends the session
  -- or starts a round in it.
  pub data Attempts (c : JanusManagerClient J) (sid : ℕ)
      : World J → List J.TaskId → World J → Type 0 where
    done : {w : World J} → Attempts c sid w [] w
    returned :
        {w w1 w2 : World J} {t : J.TaskId} {ts : List J.TaskId} (a : Ambient J)
        → Spared J d services sid w
        → start_round J (deployed J d services) c a sid w ≡ (ok t, w1)
        → Attempts c sid w1 ts w2
        → Attempts c sid w (t ∷ ts) w2
    failed :
        {w w2 : World J} {ts : List J.TaskId} (a : Ambient J)
        → Spared J d services sid w
        → is_ok (start_round J (deployed J d services) c a sid w).0 ≡ false
        → Attempts c sid (start_round J (deployed J d services) c a sid w).1 ts w2
        → Attempts c sid w ts w2

  module _ (codec : IsCodec J) (L : IsTransactional J) (sid : ℕ) where
    module _ (c : JanusManagerClient J)
        (to_leader : LeadsTo J d c.location.manager.external_leader leader_party)
        (to_helper : LeadsTo J d c.location.manager.external_helper helper_party) where
      -- Whatever becomes of a start, the tasks that were there stay.
      start_round_keeps :
          (p : Party) (a : Ambient J) (w : World J)
          → Spared J d services sid w
          → (v : TrainingSession J) (ts : List J.TaskId) → Has J d services p sid v ts w
          → Has J d services p sid v ts (start_round J (deployed J d services) c a sid w).1
      unfolding start_round both_ok
      start_round_keeps p a w (spare, spare') v ts h =
          let net = deployed J d services in
          let body = start_request (asks J d services sid a.task_id) in
          let lead = post J net c.location.manager.external_leader Route.start_round body w in
          let help = post J net c.location.manager.external_helper Route.start_round body lead.1 in
          let end = (start_round J net c a sid w).1 in
          let x =
            post-Exchanged J d services leader_party c.location.manager.external_leader to_leader
              sid a.task_id w in
          let y =
            post-Exchanged J d services helper_party c.location.manager.external_helper to_helper
              sid a.task_id lead.1 in
          let first =
            exchange_keeps J d services codec L sid p leader_party a.task_id w lead.1 x spare v ts
              h in
          let spare_then = subst (λ z. Sparing J sid (z.others z.tick)) (sym x.world) spare' in
          let second =
            exchange_keeps J d services codec L sid p helper_party a.task_id lead.1 help.1 y
              spare_then v ts first in
          elim (Outcome-cases lead.0) [
            | inr lost ↦
                let same : lead.1 ≡ end = ground arith in
                subst (Has J d services p sid v ts) same first
            | inl (l, e) ↦
                let same : help.1 ≡ end = ground arith in
                subst (Has J d services p sid v ts) same second
          ]

      -- A start that returned has put its id at the end of the tasks on both managers.
      start_round_adds :
          (a : Ambient J) (w w1 : World J) (t : J.TaskId)
          → Spared J d services sid w
          → start_round J (deployed J d services) c a sid w ≡ (ok t, w1)
          → (p : Party) (v : TrainingSession J) (ts : List J.TaskId) → Has J d services p sid v ts w
          → Has J d services p sid v (push ts t) w1
      start_round_adds a w w1 t (spare, spare') begun p v ts (us, held, h) =
          let (drawn, both) =
            start_round-BothStarted J d services c to_leader to_helper a sid w w1 t begun in
          subst (λ x. Has J d services p sid v (push ts x) w1) drawn (by_party both p held)
        where
          by_party :
              BothStarted J d services a sid w w1
              → (o : Party) → session_of J sid (at J o w) ≡ some (record v { tasks = us })
              → Has J d services o sid v (push ts a.task_id) w1
          by_party both leader_party e = (
            push us a.task_id,
            started_pushes J d services codec L (w.ambient w.tick) sid a.task_id
                (found_at J d leader_party w) w1.leader (record v { tasks = us })
                (spared_at J d services leader_party sid w spare ∙ e) both.leader,
            push_keep a.task_id h,
          )
          by_party both helper_party e = (
            push us a.task_id,
            started_pushes J d services codec L both.draws sid a.task_id
                (found_at J d helper_party (next J w)) w1.helper (record v { tasks = us })
                (spared_at J d services helper_party sid (next J w) spare' ∙ e) both.helper,
            push_keep a.task_id h,
          )

      Attempts-Has :
          (w w' : World J) (ts : List J.TaskId)
          → Attempts c sid w ts w'
          → (p : Party) (v : TrainingSession J) (us : List J.TaskId) → Has J d services p sid v us w
          → Has J d services p sid v (us ++ ts) w'
      Attempts-Has w w' _ done p v us have =
          subst (λ x. Has J d services p sid v x w) (sym (append-nil us)) have
      Attempts-Has w w' _ (returned {w1} {t} {ts} a spare begun rest) p v us have =
          subst (λ x. Has J d services p sid v x w') (append_assoc us (t ∷ []) ts)
            (Attempts-Has w1 w' ts rest p v (push us t)
              (start_round_adds a w w1 t spare begun p v us have))
      Attempts-Has w w' ts (failed a spare lost rest) p v us have =
          Attempts-Has (start_round J (deployed J d services) c a sid w).1 w' ts rest p v us
            (start_round_keeps p a w spare v us have)

      -- Where the addresses of the managers lead to them, base64 and task ids decode to what was
      -- encoded, and transactions commit or roll back: the controller has created the session and has
      -- then called `start_round` in it any number of times, of which some returned an id and the
      -- others failed, be it that the network lost a request or an answer or that a manager refused.
      -- Then both managers still hold the session as it was created but for its tasks, and on each of
      -- them the tasks contain all ids that were returned, in the order of the calls; there may be
      -- others between them, which failed starts have left. Both managers may serve any requests of
      -- others before each exchange, if none creates or ends this session or starts a round in it
      -- after its creation.
      pub returned_kept :
          (a : Ambient J) (w w1 w2 : World J) (ts : List J.TaskId)
          → create_session J (deployed J d services) c a w ≡ (ok sid, w1)
          → Attempts c sid w1 ts w2
          → (lead : TrainingSession J) × (help : TrainingSession J) × SameSession J d services c
              (draw_verify_key J (deployed J d services) c a)
              lead
              help
            × Has J d services leader_party sid lead ts w2
            × Has J d services helper_party sid help ts w2
      returned_kept a w w1 w2 ts made attempts =
          let (lead, help, lead_at, help_at, unused, same) =
            create_session_agrees J d services codec c to_leader to_helper a w w1 sid made in
          (
            lead,
            help,
            same,
            Attempts-Has w1 w2 ts attempts leader_party lead [] (
              [],
              subst (λ x. session_of J sid w1.leader ≡ some (record lead { tasks = x }))
                  same.no_tasks.0 lead_at,
              nil,
            ),
            Attempts-Has w1 w2 ts attempts helper_party help [] (
              [],
              subst (λ x. session_of J sid w1.helper ≡ some (record help { tasks = x }))
                  same.no_tasks.1 help_at,
              nil,
            ),
          )
