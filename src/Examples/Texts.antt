-- ===== src/Examples/Texts.antt =====
-- The caption sanitizer (crates/federation/src/note.rs) on short captions.
use toot_tok.Common.{◌≡◌, false, any}
use toot_tok.Common.Text.{codes}
use toot_tok.Sanitize.{decode_html_entities, strip_html_tags}
use toot_tok.Sanitize.Escape.{is_markup}
use toot_tok.Sanitize.Strip.{has}
use toot_tok.Sanitize.Inert.{strip_html_tags_inert}

strip_html_tags_inert_example :
    (any is_markup (strip_html_tags (codes "&lt;b>x")) ≡ false)
    × (has b'<' (decode_html_entities (strip_html_tags (codes "&lt;b>x"))) ≡ false)
strip_html_tags_inert_example = strip_html_tags_inert (codes "&lt;b>x")
