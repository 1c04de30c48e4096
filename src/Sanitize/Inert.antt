-- ===== src/Sanitize/Inert.antt =====
-- What a stored caption can do downstream (crates/federation/src/note.rs).
use toot_tok.Common.{◌≡◌, ◌∙◌, ap, false, any}
use toot_tok.Common.Text.{Text, trim}
use toot_tok.Common.Text.Same.{text_eq_refl}
use toot_tok.Sanitize.{decode_html_entities, converge, strip_html_tags}
use toot_tok.Sanitize.Escape.{is_markup, escape_html_inert, decode-escape}
use toot_tok.Sanitize.Strip.{has, converge_no_tag, pass_plain}

-- Whatever the input is, the stored text holds no `<`, `>`, `"` or `'`, and no `<` appears in it
-- either once a client decodes its entities.
pub strip_html_tags_inert :
    (s : Text)
    → (any is_markup (strip_html_tags s) ≡ false)
      × (has b'<' (decode_html_entities (strip_html_tags s)) ≡ false)
unfolding strip_html_tags
strip_html_tags_inert s = (
  escape_html_inert (converge 8 s),
  ap (has b'<') (decode-escape (converge 8 s)) ∙ converge_no_tag 7 s,
)

-- A caption without tags, entities and white space at its ends is stored so that a client that
-- decodes it shows it unchanged.
pub plain_caption_shown :
    (s : Text)
    → has b'<' s ≡ false
    → has b'&' s ≡ false
    → trim s ≡ s
    → decode_html_entities (strip_html_tags s) ≡ s
unfolding strip_html_tags converge
plain_caption_shown s h k t =
    decode-escape (converge 8 s) ∙ rw (pass_plain s h k ∙ t, converge, text_eq_refl s)
