-- ===== src/Feed/Tests.antt =====
-- The feed gateway on concrete responses and items.
use mathlib.Core.List.{cons-ne-nil, map}
use nntp_tools.Prelude.{
  ℕ, ◌+◌, ◌≡◌, ◌≢◌, refl, Bool, true, false, List, [], ◌∷◌, ◌++◌, Bytes, codes, All, inl, inr,
  arith, ok, none, some,
}
use nntp_tools.Feed.Http
use nntp_tools.Atoi
use nntp_tools.Feed.Http.{
  HttpState, http_initial, http_error, http_ok, transfer, is_decided, wrote, interrupted, write_all,
  body,
}
use nntp_tools.Feed.Responses.{
  Response, IsField, IsResponse, IsInterim, response, chain, IsVerdict, transfer-chain,
  transfer-waits,
}
use nntp_tools.Feed.Elements.{parse, find_element}
use nntp_tools.Feed.Items.{
  Piece, field, gap, Part, opening, closing, between, item, IsPart, parts, items, outside, NotItem,
  parse-items, last_value,
}
use nntp_tools.Feed.Keywords.{IsLine, lines, lynx_body-blank}
use nntp_tools.Feed.Article.{lynx_body, is_blank_line}

abbrev moved : Response
moved = record {
  status = codes "HTTP/1.1 301 Moved\r\n";
  fields = codes "Content-Type: text/html\r\n" ∷ [];
  chunks = codes "gone" ∷ [];
}

abbrev found : Response
found = record {
  status = codes "HTTP/1.1 200 OK\r\n";
  fields = codes "Content-Type: text/xml\r\n" ∷ [];
  chunks = codes "<rss>" ∷ codes "</rss>" ∷ [];
}

moved-IsInterim : IsInterim moved
unfolding IsInterim Http.is_status nntp_tools.Text.starts_with Http.header_text
    nntp_tools.Text.c_string Http.trim_eol Http.status_class Http.hundreds Atoi.atoi Atoi.atoi_sign
    Atoi.skip_space Http.from_space nntp_tools.Csv.decimal_value nntp_tools.Csv.take_digits IsField
moved-IsInterim = (
  3,
  record {
    is_status_line = refl;
    class_known = refl;
    fields_valid = ((cons-ne-nil _ _, refl), tt);
  },
  omega arith,
  omega arith,
  omega arith,
)

found-IsResponse : IsResponse found 2
unfolding Http.is_status nntp_tools.Text.starts_with Http.header_text nntp_tools.Text.c_string
    Http.trim_eol Http.status_class Http.hundreds Atoi.atoi Atoi.atoi_sign Atoi.skip_space
    Http.from_space nntp_tools.Csv.decimal_value nntp_tools.Csv.take_digits IsField
found-IsResponse = record {
  is_status_line = refl;
  class_known = refl;
  fields_valid = ((cons-ne-nil _ _, refl), tt);
}

transfer-chain_example :
    IsVerdict found 2 (transfer http_initial (chain (moved ∷ []) (response found [])))
transfer-chain_example =
    transfer-chain (moved ∷ []) found 2 (moved-IsInterim, tt) found-IsResponse (inl refl)

transfer-waits_example : is_decided (transfer http_initial (chain (moved ∷ []) [])).0 ≡ false
transfer-waits_example = transfer-waits (moved ∷ []) (moved-IsInterim, tt)

abbrev entry : List Piece
entry =
    gap (codes "\n")
    ∷ field (codes "title") (codes "A" ∷ codes "B" ∷ [])
    ∷ field (codes "guid") (codes "1" ∷ [])
    ∷ field (codes "title") (codes "C" ∷ [])
    ∷ []

abbrev feed : List Part
feed =
    opening (codes "rss")
    ∷ opening (codes "channel")
    ∷ opening (codes "title")
    ∷ between (codes "T")
    ∷ closing (codes "title")
    ∷ item entry
    ∷ item []
    ∷ closing (codes "channel")
    ∷ closing (codes "rss")
    ∷ []

entry-NotItem : All NotItem entry
unfolding NotItem nntp_tools.Prelude.equal
entry-NotItem = (tt, (refl, (refl, (refl, tt))))

feed-IsPart : All IsPart feed
unfolding IsPart nntp_tools.Prelude.equal
feed-IsPart = (refl, (refl, (refl, (tt, (refl, (entry-NotItem, (tt, (refl, (refl, tt)))))))))

parse-items_example :
    (last : List (Bytes × Bytes)) × (calls : List (List (Bytes × Bytes))) × (parse
        (parts feed)
        (outside [] [])
      ≡ ok (outside last calls))
    × ((name : Bytes)
        → map (λ c. find_element c name) calls ≡ map (λ ps. last_value name ps none) (items feed))
parse-items_example = parse-items feed [] feed-IsPart

abbrev spaces : Bytes
spaces = codes "  "

abbrev word : Bytes
word = codes " hello"

spaces-IsLine : IsLine spaces
unfolding nntp_tools.Feed.Article.has_newline
spaces-IsLine = record { no_newline = refl; fits = omega arith }

word-IsLine : IsLine word
unfolding nntp_tools.Feed.Article.has_newline
word-IsLine = record { no_newline = refl; fits = omega arith }

lynx_body-blank_example :
    lynx_body (lines (spaces ∷ []) (word ++ (b'\n' ∷ codes "\nbye")))
    ≡ word ++ (b'\n' ∷ codes "\nbye")
unfolding is_blank_line
lynx_body-blank_example =
    lynx_body-blank (spaces ∷ []) word (codes "\nbye") ((spaces-IsLine, refl), tt) word-IsLine refl

dropped_test : lynx_body (codes "no newline") ≡ []
unfolding lynx_body nntp_tools.Feed.Article.lynx_text nntp_tools.Feed.Article.has_newline
    nntp_tools.Feed.Article.fgets
dropped_test = refl
