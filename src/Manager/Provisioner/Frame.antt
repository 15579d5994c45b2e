-- ===== src/Manager/Provisioner/Frame.antt =====
-- Calls that leave one session alone: they do the same whether it is stored or not.
use dpsa4fl.Base.{
  Option, ℕ, ℕ_discrete, ◌≡◌, ◌≢◌, refl, sym, ap, arith, none, some, Outcome, ok, err, panic,
  Action, Error, Panic, pure, fail, gets, ok_or, unwrap, modify, ◌>>=◌,
}
use dpsa4fl.Base.HashMap
use dpsa4fl.External.{Janus}
use dpsa4fl.Manager.Keyring.{HpkeConfigRegistry}
use dpsa4fl.Manager.Provisioner.State.{
  on_keyring, on_datastore, TrainingSession, TaskProvisioner, session_of, insert_session,
  remove_session, session_of-insert_session,
}

module _ (J : Janus) (sid : ℕ) where
  pub record Framed {A : Type 0} (m : Action (TaskProvisioner J) A) : Type 0 where
    pub on_rest :
        (s : TaskProvisioner J)
        → m (remove_session J sid s) ≡ ((m s).0, remove_session J sid (m s).1)
    pub keeps : (s : TaskProvisioner J) → session_of J sid (m s).1 ≡ session_of J sid s

  -- A call that leaves the session alone, and one that does so for each of its results.
  pub bind_results-Framed :
      {A B : Type 0} (P : A → Type 0) (m : Action (TaskProvisioner J) A)
      → (f : A → Action (TaskProvisioner J) B) → Framed m
      → ((s t : TaskProvisioner J) (a : A) → m s ≡ (ok a, t) → P a)
      → ((a : A) → P a → Framed (f a))
      → Framed (m >>= f)
  bind_results-Framed {A} {B} P m f h p k = record {
    on_rest = λ s. by_result s (m s).0 (m s).1 refl (h.on_rest s);
    keeps = λ s. by_outcome s (m s).0 (m s).1 refl (h.keeps s);
  }
    where
      by_result :
          (s : TaskProvisioner J) (r : Outcome A) (t : TaskProvisioner J)
          → m s ≡ (r, t)
          → m (remove_session J sid s) ≡ ((m s).0, remove_session J sid (m s).1)
          → (m >>= f) (remove_session J sid s)
            ≡ (((m >>= f) s).0, remove_session J sid ((m >>= f) s).1)
      by_result s (ok a) t e g = ground (arith, (k a (p s t a e)).on_rest t)
      by_result s (err x) t e g = ground arith
      by_result s (panic x) t e g = ground arith

      by_outcome :
          (s : TaskProvisioner J) (r : Outcome A) (t : TaskProvisioner J)
          → m s ≡ (r, t)
          → session_of J sid (m s).1 ≡ session_of J sid s
          → session_of J sid ((m >>= f) s).1 ≡ session_of J sid s
      by_outcome s (ok a) t e g = ground (arith, (k a (p s t a e)).keeps t)
      by_outcome s (err x) t e g = ground arith
      by_outcome s (panic x) t e g = ground arith

  pub bind-Framed :
      {A B : Type 0} (m : Action (TaskProvisioner J) A) (f : A → Action (TaskProvisioner J) B)
      → Framed m
      → ((a : A) → Framed (f a))
      → Framed (m >>= f)
  bind-Framed {A} {B} m f h k = bind_results-Framed (λ a. Unit) m f h (λ s t a e. tt) (λ a u. k a)

  pub pure-Framed : {A : Type 0} (a : A) → Framed (pure a)
  pure-Framed a = record { on_rest = λ s. refl; keeps = λ s. refl }

  pub fail-Framed : {A : Type 0} (e : Error) → Framed (fail {A = A} e)
  fail-Framed e = record { on_rest = λ s. refl; keeps = λ s. refl }

  pub ok_or-Framed : {A : Type 0} (o : Option A) (e : Error) → Framed (ok_or o e)
  ok_or-Framed none e = fail-Framed e
  ok_or-Framed (some a) e = pure-Framed a

  pub unwrap-Framed : {A : Type 0} (o : Option A) (p : Panic) → Framed (unwrap o p)
  unwrap-Framed none p = record { on_rest = λ s. refl; keeps = λ s. refl }
  unwrap-Framed (some a) p = pure-Framed a

  pub gets-Framed :
      {A : Type 0} (f : TaskProvisioner J → A)
      → ((s : TaskProvisioner J) → f (remove_session J sid s) ≡ f s)
      → Framed (gets f)
  gets-Framed f h = record {
    on_rest = λ s. ap (λ a. (ok a, remove_session J sid s)) (h s);
    keeps = λ s. refl;
  }

  pub on_datastore-Framed : {A : Type 0} (m : Action J.Datastore A) → Framed (on_datastore J m)
  on_datastore-Framed m = record { on_rest = λ s. refl; keeps = λ s. refl }

  pub on_keyring-Framed :
      {A : Type 0} (m : Action (HpkeConfigRegistry J) A) → Framed (on_keyring J m)
  on_keyring-Framed m = record { on_rest = λ s. refl; keeps = λ s. refl }

  pub session_of-remove_session :
      (other : ℕ)
      → other ≢ sid
      → (s : TaskProvisioner J) → session_of J other (remove_session J sid s) ≡ session_of J other s
  session_of-remove_session other ne s =
      ground (arith, HashMap.get-remove ℕ_discrete other sid s.training_sessions)

  pub insert_session-Framed :
      (other : ℕ) (v : TrainingSession J) → other ≢ sid → Framed (modify (insert_session J other v))
  insert_session-Framed other v ne = record {
    on_rest = λ s.
        ap (λ m. (ok tt, record s { training_sessions = m }))
          (HashMap.insert-remove_comm ℕ_discrete sid other v s.training_sessions (λ e. ne (sym e)));
    keeps = λ s. ground (arith, session_of-insert_session J sid other v s);
  }
