-- ===== src/Core/Helpers.antt =====
-- The text form of task ids (src/core/helpers.rs).
use dpsa4fl.Base.{◌≡◌, arith, ok, Text, Action, ok_or, ◌>>=◌, base64_error, codec_error}
use dpsa4fl.External.{Janus}
use dpsa4fl.External.Laws.{IsCodec}

module _ (J : Janus) where
  open J use {TaskId, encode_base64, decode_base64, get_encoded, get_decoded}

  unfoldable pub task_id_to_string : TaskId → Text
  task_id_to_string t = encode_base64 (get_encoded t)

  unfoldable pub task_id_from_string : {S : Type 0} → Text → Action S TaskId
  task_id_from_string task_id_base64 = do
    task_id_bytes ← ok_or (decode_base64 task_id_base64) base64_error
    ok_or (get_decoded task_id_bytes) codec_error

  -- The text of a task id is read back.
  pub task_id_from_string-task_id_to_string :
      {S : Type 0}
      → IsCodec J
      → (t : TaskId) (s : S) → task_id_from_string (task_id_to_string t) s ≡ (ok t, s)
  unfolding task_id_from_string task_id_to_string
  task_id_from_string-task_id_to_string codec t s =
      ground (arith, codec.decode-encode (get_encoded t), codec.decoded-encoded t)
