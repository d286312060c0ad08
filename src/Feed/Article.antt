-- ===== src/Feed/Article.antt =====
-- `process` of gateways/lj2news.c: an item to an article. SHA-1, lynx, the signature file and the C
-- library's date functions are arguments. Texts have no NUL, and no output fails.
use nntp_tools.Prelude.{
  ℕ, zero, suc, ◌+◌, ◌-◌, ◌/◌, ◌%◌, Bool, true, false, not, ◌&&◌, List, [], ◌∷◌, ◌++◌, Option, none,
  some, Bytes, codes, equal, ltb, ◌==◌, if◌then◌else◌, length, take, Result, ok, failed, ◌>>=◌,
}
use nntp_tools.Prelude.Int.{ℤ, pos, is_less}
use nntp_tools.Text.{is_space}
use nntp_tools.Feed.Elements.{find_element}
use nntp_tools.Dates.{Tm}
use nntp_tools.Dates.Strtol.{DateFault}
use nntp_tools.Dates.W3.{w3date_to_822date, rfc822date_to_time_t}

-- The reasons for which `process` ends in `fatal`.
pub data ProcessFault : Type 0 where
  no_element : Bytes → ProcessFault
  bad_date : DateFault → ProcessFault
  lynx_failed : ℕ → ProcessFault
  no_sigfile : Bytes → ProcessFault

-- The options; a start date of 0 is none.
pub record Config : Type 0 where
  pub salt : Bytes
  pub tag : Option Bytes
  pub newsgroup : Bytes
  pub organization : Option Bytes
  pub sigfile : Option Bytes
  pub msgiddomain : Bytes
  pub fromline : Bytes
  pub start_date : ℤ

unfoldable pub need_element : List (Bytes × Bytes) → Bytes → Result ProcessFault Bytes
need_element es name = elim (find_element es name) [
  | none ↦ failed (no_element name)
  | some value ↦ ok value
]

unfoldable pub hex_digit : ℕ → ℕ
hex_digit n = if ltb n 10 then b'0' + n else b'a' + (n - 10)

-- `%02x` of each byte.
unfoldable pub hex : Bytes → Bytes
hex [] = []
hex (c ∷ s) = hex_digit (c / 16) ∷ hex_digit (c % 16) ∷ hex s

unfoldable pub or_else : Bytes → Option Bytes → Bytes
or_else d none = d
or_else d (some s) = s

-- A header line if there is something to say.
unfoldable pub optional_line : Bytes → Option Bytes → Bytes
optional_line name none = []
optional_line name (some s) = name ++ (s ++ b'\n' ∷ [])

-- The loop over the elements, from a number of keywords on; the newline ends the line if there is one.
unfoldable pub keywords_from : ℕ → List (Bytes × Bytes) → Bytes
keywords_from zero [] = []
keywords_from (suc n) [] = b'\n' ∷ []
keywords_from n ((name, value) ∷ es) =
    if equal name (codes "category")
    then (if n == 0 then codes "Keywords: " else codes ",") ++ (value ++ keywords_from (suc n) es)
    else keywords_from n es

unfoldable pub tagged : Option Bytes → Bytes
tagged none = []
tagged (some tag) = b'[' ∷ (tag ++ codes "] ")

-- The header, with the empty line that ends it.
unfoldable pub article_header :
    Config → Bytes → Bytes → Option Bytes → Option Bytes → List (Bytes × Bytes) → Bytes
article_header c msgid title date url es =
    codes "Subject: "
    ++ (tagged c.tag
        ++ (title
            ++ (codes "\nFrom: "
                ++ (c.fromline
                    ++ (codes "\nNewsgroups: "
                        ++ (c.newsgroup
                            ++ (codes
                                  "\nMIME-Version: 1.0\nContent-Type: text/plain; charset=UTF-8\nContent-Transfer-Encoding: 8bit\nMessage-ID: "
                                ++ (msgid
                                    ++ (b'\n'
                                        ∷ (optional_line (codes "Organization: ") c.organization
                                            ++ (optional_line (codes "Date: ") date
                                                ++ (optional_line (codes "URL: ") url
                                                    ++ (keywords_from 0 es
                                                        ++ b'\n' ∷ [])))))))))))))

-- `fgets` with room for so many bytes: the line up to its newline, as far as it fits, and the rest.
unfoldable pub fgets : ℕ → Bytes → Bytes × Bytes
fgets zero s = ([], s)
fgets (suc n) [] = ([], [])
fgets (suc n) (c ∷ s) =
    if c == b'\n' then (c ∷ [], s) else (let (line, rest) = fgets n s in (c ∷ line, rest))

unfoldable pub has_newline : Bytes → Bool
has_newline [] = false
has_newline (c ∷ s) = if c == b'\n' then true else has_newline s

unfoldable pub is_blank_line : Bytes → Bool
is_blank_line [] = true
is_blank_line (c ∷ s) = is_space c && is_blank_line s

-- The loop over what lynx writes, with room for a line: a part of a line without its newline is dropped, and
-- so are blank lines up to the first that is not; everything from there on is kept.
unfoldable pub lynx_text : ℕ → ℕ → Bytes → Bytes
lynx_text room zero s = []
lynx_text room (suc fuel) [] = []
lynx_text room (suc fuel) (c ∷ s) =
    let (line, rest) = fgets room (c ∷ s) in
    let later = lynx_text room fuel rest in
    if not (has_newline line) then later else if is_blank_line line then later else line ++ rest

-- `sizeof buffer`, less the NUL.
abbrev pub buffer_room : ℕ
buffer_room = 4095

unfoldable pub lynx_body : Bytes → Bytes
lynx_body s = lynx_text buffer_room (suc (length s)) s

-- The signature file, if there is one, behind its separator.
unfoldable pub signature : (Bytes → Option Bytes) → Option Bytes → Result ProcessFault Bytes
signature read_file none = ok []
signature read_file (some path) = elim (read_file path) [
  | none ↦ failed (no_sigfile path)
  | some s ↦ ok (codes "-- \n" ++ s)
]

unfoldable pub as_process {ℓ} : {A : Type ℓ} → Result DateFault A → Result ProcessFault A
as_process (ok a) = ok a
as_process (failed e) = failed (bad_date e)

module _ (sha1 : Bytes → Bytes) (lynx : Bytes → Bytes × ℕ) (read_file : Bytes → Option Bytes)
    (mktime : Tm → Option ℤ) (strptime : Bytes → Option Tm) (format_822 : ℤ → Option Bytes)
    (c : Config) where
  -- The date of the item: `pubDate`, or `dc:date` converted.
  unfoldable pub item_date : List (Bytes × Bytes) → Result ProcessFault (Option Bytes)
  item_date es = elim (find_element es (codes "pubDate")) [
    | some date ↦ ok (some date)
    | none ↦ elim (find_element es (codes "dc:date")) [
      | some date ↦ as_process (w3date_to_822date mktime format_822 date) >>= λ s. ok (some s)
      | none ↦ ok none
    ]
  ]

  -- Whether the start date lets the item pass.
  unfoldable pub is_current : Option Bytes → Result ProcessFault Bool
  is_current date = elim (c.start_date) [
    | pos zero ↦ ok true
    | _ ↦ elim date [
      | none ↦ ok false
      | some s ↦ as_process (rfc822date_to_time_t mktime strptime s) >>= λ t.
          ok (not (is_less t c.start_date))
    ]
  ]

  -- The body, by lynx, and the signature.
  unfoldable pub article_body : List (Bytes × Bytes) → Result ProcessFault Bytes
  article_body es = need_element es (codes "description") >>= λ d.
      let (output, status) = lynx d in
      if status == 0
      then (signature read_file c.sigfile >>= λ s. ok (lynx_body output ++ s))
      else failed (lynx_failed status)

  unfoldable pub message_id : Bytes → Bytes
  message_id guid =
      b'<' ∷ (hex (take 20 (sha1 (c.salt ++ guid))) ++ (b'@' ∷ (c.msgiddomain ++ b'>' ∷ [])))

  -- `process`: the message id and the article that are posted; none: the item is skipped.
  unfoldable pub process : List (Bytes × Bytes) → Result ProcessFault (Option (Bytes × Bytes))
  process es = need_element es (codes "guid") >>= λ guid. item_date es >>= λ date.
      is_current date >>= λ current.
      if current
      then (article_body es >>= λ text. ok (
          some (
            message_id guid,
            article_header c (message_id guid)
                  (or_else (codes "untitled") (find_element es (codes "title"))) date
                  (find_element es (codes "link")) es
                ++ text,
          )))
      else ok none
