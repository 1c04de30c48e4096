-- ===== src/Uploads/Handover.antt =====
-- The probe job of an upload (crates/server/src/upload.rs) as the worker reads it
-- (crates/server/src/worker.rs).
use toot_tok.Common.{ℕ, ◌≡◌, ◌<◌, ◌^◌, refl, true, some, ltb, arith}
use toot_tok.Common.Text.{Text, text_eq}
use toot_tok.Json.{str_field, get, get_field}
use toot_tok.Media.{Container}
use toot_tok.Uploads.{Env, probe_payload}
use toot_tok.Worker.{id_field}

-- What the worker reads of the probe job's payload is what the upload wrote: the clip's id, the
-- path of the stored file and its key, for an id of the database's range.
pub probe_payload_read :
    (e : Env) (key : Text) (container : Container) (clip_id : ℕ)
    → clip_id < 2 ^ 63
    → let payload = probe_payload e key container clip_id in
      (id_field payload "clip_id" ≡ some clip_id)
      × (str_field payload "path" ≡ some (e.path_of key))
      × (str_field payload "key" ≡ some key)
unfolding id_field get get_field text_eq
probe_payload_read e key container clip_id small =
    let narrow : ltb clip_id 9223372036854775808 ≡ true = ground (arith, small) in
    (rw narrow refl, refl, refl)
