-- ===== src/Examples/Posts.antt =====
-- Uploads (crates/server/src/upload.rs), hashtags (crates/db/src/hashtag.rs) and
-- feeds (crates/db/src/feed.rs) on a few clips.
use toot_tok.Common.{
  ℕ, ◌≡◌, refl, true, false, Option, none, some, List, [], ◌∷◌, All, ◌/◌, ◌%◌, ◌≤◌, length, arith,
}
use toot_tok.Common.Result.{ok}
use toot_tok.Common.Text.{codes, text_eq, eq_ignore_case, to_lower, starts_with}
use toot_tok.Db.Clips
use toot_tok.Db.Hashtags.{extract_hashtags, scan}
use toot_tok.Db.Hashtags.Scan.{AreTags, extract_hashtags-AreTags}
use toot_tok.Media
use toot_tok.Media.{Container, mp4}
use toot_tok.Uploads.{
  Env, World, upload, upload_size_cap_bytes, check_storage_quota, insert_clip, sound_title_of,
}
use toot_tok.Uploads.Accepted.{IsUploaded, upload-IsUploaded}
use toot_tok.Uploads.Fields.{
  Part, read_upload_fields, read_fields, read_part, read_file_chunks, read_chunks,
}
use toot_tok.Worker.{numeric_setting}
use toot_tok.Examples.Members.{caller, actor}
use toot_tok.Db.Follows.{Follow, accepted}
use toot_tok.Feeds.{following_feed, is_followed, is_newer, micros, select_page, cursor_at}
use toot_tok.Feeds.{newest_first, insert_newest}
use toot_tok.Feeds.Continuation.{next_page_continues}
use toot_tok.Feeds.Pages.{IsVisible, AreNewestFirst, following_feed-AreNewestFirst, next_page_older}

abbrev env : Env
env = record {
  now = 10;
  has_pool = true;
  fails = λ _. false;
  save_io = none;
  delete_io = none;
  upload_size_cap_mb = ok none;
  per_user_storage_quota_mb = ok none;
  sha256_hex = λ bytes. bytes;
  key_uuid = codes "u";
  ap_uuid = codes "v";
  path_of = λ key. key;
  meanwhile = λ clips. clips;
}

abbrev world : World
world = record {
  clips = [];
  next_clip = 1;
  assets = [];
  jobs = [];
  next_job = 1;
  sounds = [];
  next_sound = 1;
  tags = record { hashtags = []; next_hashtag = 1; clip_hashtags = [] };
  files = [];
}

abbrev video : List ℕ
video = 0 ∷ 0 ∷ 0 ∷ 8 ∷ codes "ftypmp42"

abbrev form : List (Option Part)
form = some (record { name = some (codes "file"); chunks = some video ∷ [] }) ∷ []

upload-IsUploaded_example : IsUploaded env world caller form (upload env world caller form).0
unfolding upload upload_size_cap_bytes numeric_setting read_upload_fields read_fields read_part
    read_file_chunks read_chunks eq_ignore_case to_lower text_eq Media.sniff_container
    Clips.fetch_by_sha256 check_storage_quota Media.save_bytes Media.is_valid_key Media.contains
    starts_with insert_clip sound_title_of
upload-IsUploaded_example =
    upload-IsUploaded env world (upload env world caller form).0 caller _ form refl

extract_hashtags-AreTags_example :
    (scan 12 [] (codes "#One #one b") ≡ some (extract_hashtags (codes "#One #one b")))
    × AreTags (extract_hashtags (codes "#One #one b"))
extract_hashtags-AreTags_example = extract_hashtags-AreTags (codes "#One #one b")

abbrev clip : Clips.Clip
clip = record {
  id = 4;
  actor_id = 7;
  ap_id = codes "https://here.test/clips/4";
  origin = Clips.local;
  caption_html = none;
  status = Clips.ready;
  sha256_hash = none;
  width = none;
  height = none;
  size_bytes = none;
  remote_media_url = none;
  is_sensitive = false;
  cw_text = none;
  published_at = none;
  deleted_at = none;
  created_at = 5000200;
  sound_id = none;
}

-- A clip of the same second, made before.
abbrev earlier : Clips.Clip
earlier = record clip { id = 3; created_at = 5000100 }

abbrev oldest : Clips.Clip
oldest = record clip { id = 2; created_at = 4000000 }

abbrev follow : Follow
follow = record {
  follower_actor_id = 9;
  target_actor_id = 7;
  state = accepted;
  ap_activity_id = none;
}

following_feed-AreNewestFirst_example :
    (length (following_feed (clip ∷ earlier ∷ []) (actor ∷ []) (follow ∷ []) 9 none 20) ≤ 20)
    × AreNewestFirst (following_feed (clip ∷ earlier ∷ []) (actor ∷ []) (follow ∷ []) 9 none 20)
    × All
        (λ c. IsVisible (actor ∷ []) c × (is_followed (follow ∷ []) 9 c ≡ true))
        (following_feed (clip ∷ earlier ∷ []) (actor ∷ []) (follow ∷ []) 9 none 20)
following_feed-AreNewestFirst_example =
    following_feed-AreNewestFirst (clip ∷ earlier ∷ []) (actor ∷ []) (follow ∷ []) 9 none 20

next_page_older_example :
    All
      (λ c.
        (is_newer clip c ≡ true)
        × (c.created_at / micros ≡ clip.created_at / micros → c.created_at % micros ≡ 0))
      (select_page (λ c. true) (clip ∷ earlier ∷ oldest ∷ []) (some (cursor_at clip)) 1)
next_page_older_example = next_page_older (λ c. true) (clip ∷ earlier ∷ oldest ∷ []) clip 1

next_page_continues_example :
    select_page (λ c. true) (clip ∷ oldest ∷ []) (some (cursor_at clip)) 1 ≡ oldest ∷ []
unfolding newest_first insert_newest
next_page_continues_example =
    next_page_continues (λ c. true) (clip ∷ oldest ∷ []) [] (oldest ∷ []) clip 1 refl
      (λ k. omega (arith, k), tt)
