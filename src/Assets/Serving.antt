-- ===== src/Assets/Serving.antt =====
-- The handler of `GET /assets/{clip_id}/{filename}` (crates/server/src/assets.rs): what it answers
-- for every outcome of the database and of the store, and which bytes it streams.
pub mod Bytes
use toot_tok.Common.{
  ℕ, suc, ◌+◌, ◌-◌, Bool, true, false, if◌then◌else◌, Option, none, some, List, [], ◌∷◌, take, drop,
}
use toot_tok.Common.Text.{Text, to_str}
use toot_tok.Assets.{RangeSpec, partial, full, parse_byte_range, mime_for_extension}

pub data Status : Type 0 where
  ok partial_content : Status

pub data Problem : Type 0 where
  service_unavailable not_found internal_error : Problem
  -- With the file's size, for `Content-Range: bytes */size`.
  range_not_satisfiable : ℕ → Problem

-- `Content-Range: bytes start-end/size`.
pub record ContentRange : Type 0 where
  pub start : ℕ
  pub end : ℕ
  pub size : ℕ

pub record Served : Type 0 where
  pub status : Status
  pub content_type : Text
  pub content_length : ℕ
  pub content_range : Option ContentRange
  pub body : List ℕ

pub data Response : Type 0 where
  served : Served → Response
  problem : Problem → Response

-- A row of `media_assets`, as far as the handler reads it.
pub record Asset : Type 0 where
  pub mime : Text

-- What a query answers: an error, no row, or a row.
pub data Query : Type 0 where
  failed : Query
  missing : Query
  found : Asset → Query

-- The outcomes of the handler's calls: whether there is a database, the query, the size that the
-- store reports, and the bytes of the opened file.
pub record World : Type 0 where
  pub has_pool : Bool
  pub query : Query
  pub stored : Option ℕ
  pub file : Option (List ℕ)

-- Seek to `start`, and stream at most `len` bytes.
unfoldable pub ranged_body : List ℕ → ℕ → ℕ → List ℕ
ranged_body file start len = take len (drop start file)

unfoldable pub build_response : Status → Text → ℕ → Option ContentRange → List ℕ → Response
build_response status mime len range body = served (record {
  status = status;
  content_type = mime;
  content_length = len;
  content_range = range;
  body = body;
})

whole : Text → ℕ → List ℕ → Response
unfolding build_response ranged_body
whole mime size file = build_response Status.ok mime size none (ranged_body file 0 size)

part : Text → ℕ → List ℕ → ℕ → ℕ → Response
unfolding build_response ranged_body
part mime size file start end =
    let len = end - start + 1 in
    build_response partial_content mime len
      (some (record { start = start; end = end; size = size })) (ranged_body file start len)

unfoldable pub respond_spec : Text → ℕ → List ℕ → Option RangeSpec → Response
unfolding whole part
respond_spec mime size file none = problem (range_not_satisfiable size)
respond_spec mime size file (some full) = whole mime size file
respond_spec mime size file (some (partial r)) = part mime size file r.start r.end

unfoldable pub respond : Text → ℕ → List ℕ → Option Text → Response
unfolding whole
respond mime size file none = whole mime size file
respond mime size file (some range) = respond_spec mime size file (parse_byte_range range size)

abbrev or_extension : Text → Text → Text
or_extension [] filename = mime_for_extension filename
or_extension (c ∷ mime) filename = c ∷ mime

abbrev header_text : Option Text → Option Text
header_text none = none
header_text (some v) = to_str v

abbrev respond_file : World → Text → Text → Option Text → Option (List ℕ) → ℕ → Response
respond_file w mime filename range none size = problem not_found
respond_file w mime filename range (some file) size =
    respond (or_extension mime filename) size file (header_text range)

abbrev respond_stored : World → Text → Text → Option Text → Option ℕ → Response
respond_stored w mime filename range none = problem not_found
respond_stored w mime filename range (some size) = respond_file w mime filename range w.file size

abbrev respond_query : World → Text → Option Text → Query → Response
respond_query w filename range failed = problem internal_error
respond_query w filename range missing = problem not_found
respond_query w filename range (found a) = respond_stored w a.mime filename range w.stored

unfoldable pub asset : World → Text → Option Text → Response
asset w filename range =
    if w.has_pool then respond_query w filename range w.query else problem service_unavailable
