-- ===== src/System/Exchanges.antt =====
-- One exchange of a start with a manager, whatever becomes of it, and the tasks that it leaves there.
use dpsa4fl.Base.{
  ℕ, push, [], ◌∷◌, List, ◌≡◌, ◌∙◌, ◌⊎◌, refl, sym, ap, subst, inl, inr, arith, some, ok,
}
use dpsa4fl.External.{Janus}
use dpsa4fl.External.Laws.{IsCodec, IsTransactional}
use dpsa4fl.Manager.Messages.{Ambient}
use dpsa4fl.Manager.Provisioner.State.{TrainingSession, TaskProvisioner, session_of}
use dpsa4fl.Manager.Provisioner.Handlers.{handle_start_round}
use dpsa4fl.Manager.Provisioner.Start.{handle_start_round-Starts}
use dpsa4fl.Manager.Http.{post_method, Route, start_request}
use dpsa4fl.Manager.Network.{Network}
use dpsa4fl.Manager.Server.{serve}
use dpsa4fl.Manager.Server.Rely.{Sparing}
use dpsa4fl.Manager.Consumer.{post}
use dpsa4fl.System.World.{
  Party, leader_party, helper_party, Fate, delivered, request_lost, answer_lost, World, Deployment,
  at, found_at, after, deliver, deployed, LeadsTo,
}
use dpsa4fl.System.Rely.{spared_at}
use dpsa4fl.System.Delivery.{post-deliver}
use dpsa4fl.System.Round.{asks}
use dpsa4fl.System.Rounds.{started_pushes}

-- The first list is what is left of the second one when some elements are taken away.
pub data Subsequence {A : Type 0} : List A → List A → Type 0 where
  nil : Subsequence [] []
  skip : {xs ys : List A} {y : A} → Subsequence xs ys → Subsequence xs (y ∷ ys)
  keep : {xs ys : List A} {x : A} → Subsequence xs ys → Subsequence (x ∷ xs) (x ∷ ys)

pub push_skip :
    {A : Type 0} {xs ys : List A} (a : A) → Subsequence xs ys → Subsequence xs (push ys a)
push_skip a nil = skip nil
push_skip a (skip h) = skip (push_skip a h)
push_skip a (keep h) = keep (push_skip a h)

pub push_keep :
    {A : Type 0} {xs ys : List A} (a : A) → Subsequence xs ys → Subsequence (push xs a) (push ys a)
push_keep a nil = keep nil
push_keep a (skip h) = skip (push_keep a h)
push_keep a (keep h) = keep (push_keep a h)

module _ (J : Janus) (d : Deployment J) (services : Network J (World J)) where
  -- A manager has the session with tasks of which these are some, in this order.
  abbrev pub Has : Party → ℕ → TrainingSession J → List J.TaskId → World J → Type 0
  Has p sid v ts w =
      (us : List J.TaskId) × (session_of J sid (at J p w) ≡ some (record v { tasks = us }))
      × Subsequence ts us

  -- What one exchange of a start leaves of the world.
  pub record Exchanged (q : Party) (sid : ℕ) (t : J.TaskId) (w w' : World J) : Type 0 where
    pub state : TaskProvisioner J
    pub world : w' ≡ after J q state w
    pub ran :
        (state ≡ found_at J d q w)
        ⊎ (state
            ≡ (handle_start_round J
                (w.ambient w.tick)
                (asks J d services sid t)
                (found_at J d q w)).1)

  deliver-Exchanged :
      (q : Party) (sid : ℕ) (t : J.TaskId) (w : World J)
      → Exchanged q sid t w
          (deliver J d q Route.start_round post_method
            (some (start_request (asks J d services sid t)))
            w).1
  unfolding deliver serve
  deliver-Exchanged q sid t w = by_fate (w.fate w.tick) refl
    where
      handled : TaskProvisioner J
      handled =
          (handle_start_round J (w.ambient w.tick) (asks J d services sid t) (found_at J d q w)).1

      by_fate :
          (f : Fate)
          → w.fate w.tick ≡ f
          → Exchanged q sid t w
              (deliver J d q Route.start_round post_method
                (some (start_request (asks J d services sid t)))
                w).1
      by_fate delivered e = record { state = handled; world = ground arith; ran = inr refl }
      by_fate request_lost e = record {
        state = found_at J d q w;
        world = ground arith;
        ran = inl refl;
      }
      by_fate answer_lost e = record { state = handled; world = ground arith; ran = inr refl }

  -- An exchange that a client makes.
  pub post-Exchanged :
      (q : Party) (base : J.Url)
      → LeadsTo J d base q
      → (sid : ℕ) (t : J.TaskId) (w : World J)
      → Exchanged q sid t w
          (post J
            (deployed J d services)
            base
            Route.start_round
            (start_request (asks J d services sid t))
            w).1
  post-Exchanged q base l sid t w =
      let body = start_request (asks J d services sid t) in
      let same : (deliver J d q Route.start_round post_method (some body) w).1
          ≡ (post J (deployed J d services) base Route.start_round body w).1 =
        ground (arith, post-deliver J d services base q l Route.start_round body w) in
      subst (Exchanged q sid t w) same (deliver-Exchanged q sid t w)

  module _ (codec : IsCodec J) (L : IsTransactional J) (sid : ℕ) where
    -- A start leaves the tasks of the session, or adds its own at the end.
    handled_keeps :
        (a : Ambient J) (t : J.TaskId) (s : TaskProvisioner J) (v : TrainingSession J)
        (ts us : List J.TaskId)
        → session_of J sid s ≡ some (record v { tasks = us })
        → Subsequence ts us
        → (us' : List J.TaskId) × (session_of J sid
              (handle_start_round J a (asks J d services sid t) s).1
            ≡ some (record v { tasks = us' }))
          × Subsequence ts us'
    handled_keeps a t s v ts us found h =
        let r = handle_start_round J a (asks J d services sid t) s in
        elim (handle_start_round-Starts J L a (asks J d services sid t) s) [
          | inr (same, refused) ↦ (us, ap (session_of J sid) same ∙ found, h)
          | inl (p, store, e, posted) ↦
              let ran : r ≡ (ok tt, r.1) =
                e ∙ ap (λ (x : TaskProvisioner J). (ok tt, x)) (sym (ap (λ x. x.1) e)) in
              (
                push us t,
                started_pushes J d services codec L a sid t s r.1 (record v { tasks = us }) found
                    ran,
                push_skip t h,
              )
        ]

    -- An exchange that finds the session as it was.
    pub exchange_keeps :
        (p q : Party) (t : J.TaskId) (w w' : World J)
        → Exchanged q sid t w w'
        → Sparing J sid (w.others w.tick)
        → (v : TrainingSession J) (ts : List J.TaskId) → Has p sid v ts w
        → Has p sid v ts w'
    exchange_keeps p q t w w' x spare v ts (us, held, h) =
        subst (Has p sid v ts) (sym x.world) (by_party p q x held)
      where
        asked :
            (o : Party) (y : Exchanged o sid t w w')
            → session_of J sid (at J o w) ≡ some (record v { tasks = us })
            → (us' : List J.TaskId) × (session_of J sid y.state ≡ some (record v { tasks = us' }))
              × Subsequence ts us'
        asked o y at_first =
            let found = spared_at J d services o sid w spare ∙ at_first in
            elim y.ran [
              | inl same ↦ (us, ap (session_of J sid) same ∙ found, h)
              | inr same ↦
                  let (us', now, h') =
                    handled_keeps (w.ambient w.tick) t (found_at J d o w) v ts us found h in
                  (us', ap (session_of J sid) same ∙ now, h')
            ]

        by_party :
            (o r : Party) (y : Exchanged r sid t w w')
            → session_of J sid (at J o w) ≡ some (record v { tasks = us })
            → Has o sid v ts (after J r y.state w)
        by_party leader_party leader_party y e = asked leader_party y e
        by_party helper_party helper_party y e = asked helper_party y e
        by_party leader_party helper_party y e = (us, e, h)
        by_party helper_party leader_party y e = (us, e, h)
