-- ===== src/System/Create/Sessions.antt =====
-- The sessions of the two aggregators.
use dpsa4fl.Base.{refl, ap, [], List, ℕ, ◌≡◌, Option, some}
use dpsa4fl.External.{Janus}
use dpsa4fl.External.Laws.{IsCodec}
use dpsa4fl.Manager.Messages.{Ambient}
use dpsa4fl.Manager.Provisioner.State.{TaskProvisioner, TrainingSession}
use dpsa4fl.Manager.Provisioner.Create.{Decoded, made_session}
use dpsa4fl.Manager.Network.{Network}
use dpsa4fl.Manager.Consumer.{JanusManagerClient, make_request}
use dpsa4fl.System.World.{World, Deployment, deployed}

module _ (J : Janus) (d : Deployment J) (services : Network J (World J)) where
  -- What the sessions of the two aggregators have in common, and with the controller's client.
  pub record SameSession (c : JanusManagerClient J) (key : List ℕ) (lead help : TrainingSession J)
      : Type 0 where
    pub lead_role : lead.role ≡ J.leader
    pub help_role : help.role ≡ J.helper
    pub lead_key : lead.verify_key ≡ J.new_secret_bytes key
    pub help_key : help.verify_key ≡ J.new_secret_bytes key
    pub leader_token : lead.leader_auth_token ≡ help.leader_auth_token
    pub collector_token : lead.collector_auth_token ≡ help.collector_auth_token
    pub collectors :
        J.new_bearer_token_from_bytes (J.token_bytes c.collector_auth_token)
        ≡ some lead.collector_auth_token
    -- the bytes that the client encodes are taken as they come, not decoded
    pub leaders :
        J.new_bearer_token_from_bytes (J.encode_base64 (J.token_bytes c.leader_auth_token))
        ≡ some lead.leader_auth_token
    pub lead_config : lead.collector_hpke_config ≡ J.config c.hpke_keypair
    pub help_config : help.collector_hpke_config ≡ J.config c.hpke_keypair
    pub lead_parameter : lead.vdaf_parameter ≡ c.vdaf_parameter
    pub help_parameter : help.vdaf_parameter ≡ c.vdaf_parameter
    pub no_tasks : (lead.tasks ≡ []) × (help.tasks ≡ [])

  -- Two sessions that were made from the client's two requests are the same.
  pub made_session-SameSession :
      IsCodec J
      → (c : JanusManagerClient J) (key : List ℕ) (a b : Ambient J) (s t : TaskProvisioner J)
      → (id id' : Option ℕ)
      → let q = make_request J (deployed J d services) c key J.leader id in
        let q' = make_request J (deployed J d services) c key J.helper id' in
        (p : Decoded J a q s) (p' : Decoded J b q' t)
        → SameSession c key (made_session J a q s p) (made_session J b q' t p')
  unfolding make_request
  made_session-SameSession codec c key a b s t id id' p p' =
      let bytes : p.key_bytes ≡ key = cc (codec.decode-encode key, p.key_decoded) in
      let bytes' : p'.key_bytes ≡ key = cc (codec.decode-encode key, p'.key_decoded) in
      let token = codec.decode-encode (J.token_bytes c.collector_auth_token) in
      record {
        lead_role = refl;
        help_role = refl;
        lead_key = ap J.new_secret_bytes bytes;
        help_key = ap J.new_secret_bytes bytes';
        leader_token = cc (p.leader_made, p'.leader_made);
        collector_token =
            cc (p.collector_decoded, p'.collector_decoded, p.collector_made, p'.collector_made);
        collectors = cc (token, p.collector_decoded, p.collector_made);
        leaders = p.leader_made;
        lead_config = refl;
        help_config = refl;
        lead_parameter = refl;
        help_parameter = refl;
        no_tasks = (refl, refl);
      }
