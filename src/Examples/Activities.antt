-- ===== src/Examples/Activities.antt =====
-- Inbound activities (crates/federation/src/activity.rs, note.rs) on a small instance: Alice of
-- another server has one clip, and deletes it; Mallory tries to.
use toot_tok.Common.{arith, ℕ, ◌≡◌, ◌≢◌, refl, false, Option, none, some, List, [], ◌∷◌, String}
use toot_tok.Common.Result.{ok}
use toot_tok.Common.Text.{Text, codes, text_eq}
use mathlib.Core.Path.{subst}
use toot_tok.Db.Actors
use toot_tok.Db.Actors.{Actor, fetch_by_ap_id}
use toot_tok.Db.Clips.{Clip, ready, remote, deleted_row, fetch_by_id}
use toot_tok.Db.Ledger.{exists, try_create}
use toot_tok.Common.Map.{lookup}
use toot_tok.Egress.Guard.{Url, domain}
use toot_tok.Inbox.{Content, follow, delete, gone}
use toot_tok.Inbox.Pipeline.{
  Instance, Tables, Delivery, done, failed, receive, receive_all, process, follow_inbound,
}
use toot_tok.Inbox.Pipeline.Captions.{AreInert, captions_stay_inert}
use toot_tok.Inbox.Pipeline.Changes.{Changes}
use toot_tok.Inbox.Pipeline.Deletion.{IsGone, IsDeleted, tombstone_wins, deletion_lasts}
use toot_tok.Inbox.Pipeline.Gate.{failed_is_lost}
use toot_tok.Inbox.Pipeline.Ownership.{HasAuthor, KeepsActors, others_clip_kept}
use toot_tok.Assets.Decimal.{print_u64}
use toot_tok.Notes.{parse_inbound_note, clip_note_json}
use toot_tok.Notes.RoundTrip.{parse-clip_note_json}

abbrev url_of : String → Url
url_of text = record {
  text = text;
  scheme = "https";
  host_str = some "there.test";
  host = some (domain "there.test");
  port = none;
}

abbrev alice : Actor
alice = record {
  id = 7;
  username = codes "alice";
  domain = some (codes "there.test");
  inbox_url = codes "https://there.test/alice/inbox";
  shared_inbox_url = none;
  followers_url = codes "https://there.test/alice/followers";
  is_locked = false;
  deleted_at = none;
  ap_id = codes "https://there.test/alice";
  public_key_pem = [];
  private_key_pem = none;
  outbox_url = [];
  display_name = none;
  summary = none;
  avatar_path = none;
  suspended_at = none;
}

abbrev clip : Clip
clip = record {
  id = 1;
  actor_id = 7;
  ap_id = codes "https://there.test/n/1";
  origin = remote;
  caption_html = some (codes "a cat");
  status = ready;
  sha256_hash = none;
  width = none;
  height = none;
  size_bytes = none;
  remote_media_url = some (codes "https://there.test/1.mp4");
  is_sensitive = false;
  cw_text = none;
  published_at = some 10;
  deleted_at = none;
  created_at = 20;
  sound_id = none;
}

abbrev server : Instance
server = record {
  domain = codes "here.test";
  base_url = codes "https://here.test";
  parse_url = λ _. some (url_of "https://there.test/alice");
  parse_time = λ _. some 10;
  dereference = λ rows _. some (rows, alice);
}

abbrev tables : List Clip → Tables
tables clips = record {
  log = [];
  tombs = (codes "https://there.test/n/0", codes "Note") ∷ [];
  actors = alice ∷ [];
  follows = [];
  clips = clips;
  jobs = [];
  next_clip = 2;
  next_job = 1;
}

abbrev delivery : String → String → Content → Delivery
delivery id sender content = record {
  now = 100;
  uuid = codes "u";
  activity = record { id = url_of id; actor = url_of sender; content = content };
}

abbrev takedown : Delivery
takedown =
    delivery "https://there.test/d/1" "https://there.test/alice"
      (delete (gone (url_of "https://there.test/n/1")))

abbrev attack : Delivery
attack =
    delivery "https://evil.test/d/1" "https://evil.test/mallory"
      (delete (gone (url_of "https://there.test/n/1")))

-- A follow of an actor that is not stored.
abbrev early_follow : Delivery
early_follow =
    delivery "https://there.test/f/1" "https://there.test/alice"
      (follow (url_of "https://here.test/bob"))

others_clip_kept_example :
    fetch_by_id (receive_all server (tables (clip ∷ [])) (attack ∷ attack ∷ [])).clips 1 ≡ some clip
unfolding text_eq Actors.fetch_by_id
others_clip_kept_example =
    others_clip_kept server (tables (clip ∷ [])) (attack ∷ attack ∷ []) 1 clip
      (codes "https://there.test/alice") known ((refl, tt), (omega arith, tt))
      (unfold fetch_by_id in refl) author (refl, (refl, tt))
  where
    known : KeepsActors server
    known rows stored sender a id ap_id e h =
        let same : rows ≡ stored = cc in subst (HasAuthor id ap_id) same h

    author : HasAuthor 7 (codes "https://there.test/alice") (alice ∷ [])
    author = (alice, refl, refl)

deletion_lasts_example :
    IsDeleted 1
      (some (codes "a cat"))
      (receive_all server (tables (deleted_row 50 clip ∷ [])) (takedown ∷ attack ∷ []))
deletion_lasts_example =
    deletion_lasts server (tables (deleted_row 50 clip ∷ [])) (takedown ∷ attack ∷ []) 1
      (some (codes "a cat")) ((refl, tt), (omega arith, tt))
      (unfold fetch_by_id in (deleted_row 50 clip, refl, refl, refl, refl))

tombstone_wins_example :
    IsGone
      (codes "https://there.test/n/0")
      (receive_all server (tables (clip ∷ [])) (takedown ∷ attack ∷ []))
tombstone_wins_example =
    tombstone_wins server (tables (clip ∷ [])) (takedown ∷ attack ∷ [])
      (codes "https://there.test/n/0") (unfold exists lookup text_eq in (refl, refl))

captions_stay_inert_example :
    AreInert (receive_all server (tables (clip ∷ [])) (takedown ∷ attack ∷ []))
captions_stay_inert_example =
    captions_stay_inert server (tables (clip ∷ [])) (takedown ∷ attack ∷ []) (refl, tt)

failed_is_lost_example :
    ((receive server (tables (clip ∷ [])) early_follow).0.follows ≡ [])
    × ((receive server (tables (clip ∷ [])) early_follow).0.clips ≡ clip ∷ [])
    × (let u =
          receive_all server (receive server (tables (clip ∷ [])) early_follow).0 (attack ∷ []) in
        receive server u early_follow ≡ (u, done))
unfolding receive try_create process follow_inbound exists lookup text_eq fetch_by_ap_id
failed_is_lost_example =
    failed_is_lost server (tables (clip ∷ [])) early_follow early_follow (attack ∷ []) failing refl
  where
    failing : (receive server (tables (clip ∷ [])) early_follow).1 ≡ failed
    failing = refl

abbrev read_time : Text → Option ℕ
read_time [] = none
read_time (t ∷ s) = some t

parse-clip_note_json_example :
    parse_inbound_note read_time
      (clip_note_json (λ t. t ∷ []) (codes "https://here.test") clip alice (some (codes "480.mp4")))
    ≡ ok (record {
      id = codes "https://there.test/n/1";
      attributed_to = codes "https://there.test/alice";
      content_html = some (codes "a cat");
      sensitive = false;
      summary = none;
      published = some 10;
      attachment = record {
        media_url = codes "https://here.test/assets/1/480.mp4";
        width = none;
        height = none;
      };
    })
unfolding print_u64
parse-clip_note_json_example =
    parse-clip_note_json read_time (λ t. t ∷ []) (λ _. refl) (codes "https://here.test") clip alice
      (some (codes "480.mp4")) named tt tt
  where
    named : clip.ap_id ≢ []
    named e = cc
