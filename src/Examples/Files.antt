-- ===== src/Examples/Files.antt =====
-- Asset serving (crates/server/src/assets.rs) on a file of five bytes.
use toot_tok.Common.{ℕ, ◌-◌, min, ◌≡◌, refl, true, some, List, [], ◌∷◌, arith}
use toot_tok.Common.Text.{codes}
use toot_tok.Assets.{range, parse_byte_range}
use toot_tok.Assets.Ranges.{Fits, write_range, parse_byte_range-Fits, parse-write_range}
use toot_tok.Assets.Serving.{World, found, asset}
use toot_tok.Assets.Serving.Bytes.{Carries, asset-Carries}

abbrev bytes : List ℕ
bytes = 10 ∷ 20 ∷ 30 ∷ 40 ∷ 50 ∷ []

abbrev stored_bytes : World
stored_bytes = record {
  has_pool = true;
  query = found (record { mime = codes "video/mp4" });
  stored = some 5;
  file = some bytes;
}

parse_byte_range-Fits_example : Fits 5 (parse_byte_range (codes "bytes=-3") 5)
parse_byte_range-Fits_example = parse_byte_range-Fits (codes "bytes=-3") 5

parse-write_range_example :
    parse_byte_range (write_range 1 300) 5 ≡ some (range 1 (min 300 (5 - 1)))
parse-write_range_example = parse-write_range 1 300 5 (omega arith) (omega arith) (omega arith)

asset-Carries_example :
    Carries bytes (asset stored_bytes (codes "clip.mp4") (some (codes "bytes=1-2")))
asset-Carries_example =
    asset-Carries stored_bytes (codes "clip.mp4") (some (codes "bytes=1-2")) bytes refl refl
