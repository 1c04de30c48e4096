-- ===== src/Media.antt =====
-- Media (crates/media): the store of files (store.rs), the decision on a probed file (probe.rs) and
-- the ladder (transcode.rs). The runs of ffprobe and ffmpeg, and the errors of the file system, are
-- parameters. A key names one file, and the bytes of a file are numbers.
use toot_tok.Common.{
  ℕ, Bool, true, false, ◌&&◌, ◌||◌, not, leb, ltb, if◌then◌else◌, Option, none, some, List, [], ◌∷◌,
  length, take, drop, String,
}
use toot_tok.Common.Map.{lookup, insert}
use toot_tok.Common.Result.{Result, ok, err, or_err}
use toot_tok.Common.Table.{delete_where}
use toot_tok.Common.Text.{Text, codes, text_eq, starts_with}
use toot_tok.Common.Text.Same.{text_key}
use toot_tok.Json.{ℤ, pos, negsuc}

-- `str::contains` of a text.
unfoldable pub contains : Text → Text → Bool
contains [] t = starts_with [] t
contains (c ∷ s) t = starts_with (c ∷ s) t || contains s t

-- The files, by key.
abbrev pub Files : Type 0
Files = List (Text × List ℕ)

-- The check of `LocalStore::abs`. A relative key joined to the root starts with the root, so that
-- the second check never fails.
unfoldable pub is_valid_key : Text → Bool
is_valid_key key = not (contains key (codes "..") || starts_with key (codes "/"))

abbrev pub invalid_key : String
invalid_key = "invalid storage key"

-- `io` is the error of the file system, if any.
unfoldable pub save_bytes : Option String → Files → Text → List ℕ → Result String Files
save_bytes io files key bytes =
    if is_valid_key key
    then elim io [ some e ↦ err e | none ↦ ok (insert key bytes files) ]
    else err invalid_key

abbrev pub is_key : Text → Text × List ℕ → Bool
is_key key f = text_eq f.0 key

-- A file that is not there is no error.
unfoldable pub delete : Option String → Files → Text → Result String Files
delete io files key =
    if is_valid_key key
    then elim io [ some e ↦ err e | none ↦ ok (delete_where (is_key key) files) ]
    else err invalid_key

abbrev size_of : Option (List ℕ) → Option ℕ
size_of none = none
size_of (some bytes) = some (length bytes)

-- The size of the file that `LocalStore::open` finds.
unfoldable pub open_file : Files → Text → Result String ℕ
open_file files key =
    if is_valid_key key then or_err "not found" (size_of (lookup key files)) else err invalid_key

-- An f64: a finite one is a whole number of units of 2 ^ -1074.
pub data F64 : Type 0 where
  finite : ℤ → F64
  not_finite : F64

abbrev pub is_positive : ℤ → Bool
is_positive (pos n) = ltb 0 n
is_positive (negsuc n) = false

-- Whether the first is greater.
abbrev pub exceeds : ℤ → ℤ → Bool
exceeds (pos m) (pos n) = ltb n m
exceeds (pos m) (negsuc n) = true
exceeds (negsuc m) (pos n) = false
exceeds (negsuc m) (negsuc n) = ltb m n

pub record ProbeInfo : Type 0 where
  pub duration_s : Option F64
  pub width : Option ℤ
  pub height : Option ℤ
  pub has_audio : Bool

pub data ProbeDecision : Type 0 where
  accept : ProbeDecision
  reject : String → ProbeDecision

unfoldable pub decide : ProbeInfo → ℤ → ProbeDecision
decide info cap = elim info.duration_s [
  | none ↦ reject "undecodable: no duration reported by ffprobe"
  | some not_finite ↦ reject "undecodable: invalid duration reported by ffprobe"
  | some (finite d) ↦
      if is_positive d
      then (if exceeds d cap then reject "duration exceeds clip_max_seconds cap" else accept)
      else reject "undecodable: invalid duration reported by ffprobe"
]

pub data Container : Type 0 where
  mp4 mov webm : Container

-- The container by its magic bytes. `none` is an unsupported one.
unfoldable pub sniff_container : List ℕ → Option Container
sniff_container bytes =
    if leb 4 (length bytes) && text_eq (take 4 bytes) (0x1A ∷ 0x45 ∷ 0xDF ∷ 0xA3 ∷ [])
    then some webm
    else if leb 8 (length bytes) && text_eq (take 4 (drop 4 bytes)) (codes "ftyp")
    then some (
        if text_eq (if leb 12 (length bytes) then take 4 (drop 8 bytes) else []) (codes "qt  ")
        then mov
        else mp4)
    else none

abbrev at_least : ℤ → ℕ → Bool
at_least (pos n) m = leb m n
at_least (negsuc n) m = false

unfoldable pub rungs : ℤ → List (Text × ℕ)
rungs height =
    if at_least height 720
    then (codes "720", 720) ∷ (codes "480", 480) ∷ []
    else (codes "480", 480) ∷ []

-- A produced file, with what a later read of it gives.
abbrev pub Produced : Type 0
Produced = Result String (List ℕ)

pub record TranscodeVideo : Type 0 where
  pub rendition : Text
  pub path : Produced

pub record TranscodeOutputs : Type 0 where
  pub videos : List TranscodeVideo
  pub poster_path : Produced

-- The programs: ffprobe on a path, ffmpeg for a rung's height, and ffmpeg for the poster.
pub record Tools : Type 0 where
  pub probe : Text → Result String ProbeInfo
  pub transcode_mp4 : Text → ℕ → Bool → Result String Produced
  pub transcode_poster : Text → Option F64 → Result String Produced

unfoldable pub produce_rungs :
    Tools → Text → Bool → List (Text × ℕ) → Result String (List TranscodeVideo)
produce_rungs tools path audio [] = ok []
produce_rungs tools path audio ((rendition, h) ∷ rs) = elim (tools.transcode_mp4 path h audio) [
  | err e ↦ err e
  | ok out ↦ elim (produce_rungs tools path audio rs) [
    | err e ↦ err e
    | ok vs ↦ ok (record { rendition = rendition; path = out } ∷ vs)
  ]
]

abbrev or_zero : Option ℤ → ℤ
or_zero none = pos 0
or_zero (some z) = z

unfoldable pub transcode : Tools → Text → Result String TranscodeOutputs
transcode tools path = elim (tools.probe path) [
  | err e ↦ err e
  | ok info ↦ elim (produce_rungs tools path info.has_audio (rungs (or_zero info.height))) [
    | err e ↦ err e
    | ok videos ↦ elim (tools.transcode_poster path info.duration_s) [
      | err e ↦ err e
      | ok poster ↦ ok (record { videos = videos; poster_path = poster })
    ]
  ]
]
