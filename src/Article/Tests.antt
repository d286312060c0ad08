-- ===== src/Article/Tests.antt =====
-- Runs of `parse` and `charset`, and the theorems on them at concrete inputs.
use mathlib.Core.List.{map}
use nntp_tools.Prelude.{◌≡◌, refl, ◌++◌, [], ◌∷◌, some, Bytes, codes, arith}
use nntp_tools.Text.{to_lower, starts_with}
use nntp_tools.Article.{Headers, parse}
use nntp_tools.Article.Headers.{
  crlf, plain, fold, ended, bytes_of, AreFields, render, collect, parse-render,
}
use nntp_tools.Article.Charset.{charset_of, find_string, unknown, not_token, member}
use nntp_tools.Article.Charset.Values.{charset_of-token, charset_of-quoted}

abbrev fields : Headers
fields = (codes "Ab", codes "x\r\n ") ∷ []

fields-AreFields : AreFields fields
fields-AreFields = (
  record {
    name_plain = ((omega arith, omega arith), ((omega arith, omega arith), tt));
    name_colon = (omega arith, (omega arith, tt));
    name_starts = ((cc), refl);
    value_folded = plain b'x' (omega arith) (omega arith) (fold crlf b' ' refl ended);
    value_starts = refl;
  },
  tt,
)

parse-render_example :
    parse (render crlf fields ++ (bytes_of crlf ++ codes "text")) ≡ some (collect fields [])
parse-render_example = parse-render crlf fields (codes "text") fields-AreFields

abbrev media_type : Bytes
media_type = codes "text/plain; "

charset_of-token_example :
    charset_of (media_type ++ (codes "charset=" ++ (codes "UTF" ++ codes ";x")))
    ≡ map to_lower (codes "UTF")
unfolding not_token member
charset_of-token_example =
    charset_of-token media_type (codes "UTF") (codes ";x") (unfold find_string starts_with in refl)
      (omega arith) (cc) (refl, (refl, (refl, tt))) refl

charset_of-quoted_example :
    charset_of (media_type ++ (codes "charset=" ++ b'"' ∷ codes "utf-8\"")) ≡ unknown
charset_of-quoted_example =
    charset_of-quoted media_type (codes "utf-8\"") (unfold find_string starts_with in refl)
      (omega arith)
