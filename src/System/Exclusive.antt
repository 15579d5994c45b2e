-- ===== src/System/Exclusive.antt =====
-- A task that is one session's alone, on both managers.
use dpsa4fl.Base.{refl, ℕ, ◌≡◌, subst, ap, List, ok}
use dpsa4fl.External.{Janus}
use dpsa4fl.External.Laws.{IsTransactional}
use dpsa4fl.Manager.Messages.{Ambient}
use dpsa4fl.Manager.Network.{Network}
use dpsa4fl.Manager.Consumer.{JanusManagerClient, start_round}
use dpsa4fl.Manager.Server.Only.{IsOnly, NotElsewhere, served-IsOnly, start_round-IsOnly}
use dpsa4fl.System.World.{
  Party, leader_party, helper_party, World, Deployment, at, found_at, next, deployed, LeadsTo,
}
use dpsa4fl.System.Delivered.{visited}
use dpsa4fl.System.Round.{asks, start_round-BothStarted}
use dpsa4fl.System.Rounds.{Rounds, done, started_one}

module _ (J : Janus) (d : Deployment J) (services : Network J (World J)) (sid : ℕ) (t : J.TaskId)
    (L : IsTransactional J) where
  -- Neither manager stores an id twice or holds the task in another session, and no request of others
  -- ever starts a round with the task's id in another session.
  pub record Exclusive (w : World J) : Type 0 where
    pub leader : IsOnly J sid t w.leader
    pub helper : IsOnly J sid t w.helper
    pub others : (n : ℕ) → NotElsewhere J sid t (w.others n)

  found-IsOnly :
      (p : Party) (w : World J)
      → ((n : ℕ) → NotElsewhere J sid t (w.others n))
      → IsOnly J sid t (at J p w)
      → IsOnly J sid t (found_at J d p w)
  found-IsOnly p w n h =
      served-IsOnly J sid t L d.rejected (w.others w.tick) (at J p w) (n w.tick) h

  pub leader-IsOnly : (w : World J) → Exclusive w → IsOnly J sid t (found_at J d leader_party w)
  leader-IsOnly w h = found-IsOnly leader_party w h.others h.leader

  pub helper-IsOnly :
      (w : World J) → Exclusive w → IsOnly J sid t (found_at J d helper_party (next J w))
  helper-IsOnly w h = found-IsOnly helper_party (next J w) h.others h.helper

  -- It stays so while both managers are visited, and while the controller starts rounds in the session.
  pub visited-Exclusive : (w : World J) → Exclusive w → Exclusive (visited J d services w)
  visited-Exclusive w h = record {
    leader = leader-IsOnly w h;
    helper = helper-IsOnly w h;
    others = h.others;
  }

  module _ (c : JanusManagerClient J)
      (to_leader : LeadsTo J d c.location.manager.external_leader leader_party)
      (to_helper : LeadsTo J d c.location.manager.external_helper helper_party) where
    start_round-Exclusive :
        (a : Ambient J) (w w' : World J) (u : J.TaskId)
        → start_round J (deployed J d services) c a sid w ≡ (ok u, w')
        → Exclusive w
        → Exclusive w'
    start_round-Exclusive a w w' u begun h =
        let (drawn, both) =
          start_round-BothStarted J d services c to_leader to_helper a sid w w' u begun in
        let q = asks J d services sid a.task_id in
        record {
          leader = subst (IsOnly J sid t) (ap (λ x. x.1) both.leader) (
              start_round-IsOnly J sid t L (w.ambient w.tick) q (found_at J d leader_party w) refl
                (leader-IsOnly w h));
          helper = subst (IsOnly J sid t) (ap (λ x. x.1) both.helper) (
              start_round-IsOnly J sid t L both.draws q (found_at J d helper_party (next J w)) refl
                (helper-IsOnly w h));
          others = λ n. rw (both.others) (h.others n);
        }

    pub Rounds-Exclusive :
        (w w' : World J) (ts : List J.TaskId)
        → Rounds J d services c sid w ts w'
        → Exclusive w
        → Exclusive w'
    Rounds-Exclusive w w' _ done h = h
    Rounds-Exclusive w w' _ (started_one {w1} {t} {ts} a spare begun rest) h =
        Rounds-Exclusive w1 w' ts rest (start_round-Exclusive a w w1 t begun h)
