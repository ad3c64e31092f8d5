-- ===== src/Tokeniser/Tests.antt =====
-- The tokeniser on concrete lines.
use shiv.Prelude.{All, ◌≡◌, refl, [], ◌∷◌, map}
use shiv.Text.{Bytes, codes}
use shiv.Tokeniser.Kinds.{text_of, plain, json_key, json_num, json_punct}
use shiv.Tokeniser.Json.{
  scan_string, span, keyword, next_token, json_tokens, tokenise_json, tokenise_body,
}
use shiv.Tokeniser.Json.Text.{tokenise_body-text}
use shiv.Tokeniser.Wrap.{line_width, wrap_tokens}
use shiv.Tokeniser.Wrap.Bounds.{raws, raws-wrap_tokens}
use shiv.Tokeniser.Wrap.Width.{wrap_tokens-LineFits, LineFits}

abbrev object : Bytes
object = codes "{\"id\": 12, \"ok\": true}"

kinds_test :
    map (λ t. t.kind) (tokenise_json (codes "{\"id\": 12}"))
    ≡ json_punct ∷ json_key ∷ json_punct ∷ plain ∷ json_num ∷ json_punct ∷ []
unfolding tokenise_json json_tokens next_token scan_string span keyword
kinds_test = refl

raws-wrap_tokens_example :
    raws (wrap_tokens (tokenise_json object) 8) ≡ text_of (tokenise_json object)
raws-wrap_tokens_example = raws-wrap_tokens (tokenise_json object) 8

wrap_tokens-LineFits_example : All (LineFits (line_width 8)) (wrap_tokens (tokenise_json object) 8)
wrap_tokens-LineFits_example = wrap_tokens-LineFits (tokenise_json object) 8

tokenise_body-text_example : text_of (tokenise_body object (codes "json")) ≡ object
tokenise_body-text_example = tokenise_body-text object (codes "json")
