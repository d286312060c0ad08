-- ===== src/Spool/Tests.antt =====
-- The counters of the spool on small articles.
use nntp_tools.Prelude.{
  ℕ, ◌+◌, ◌≡◌, ◌≢◌, refl, sym, ap, ◌∙◌, arith, Bool, true, false, List, [], ◌∷◌, ◌++◌, Option, none,
  some, Bytes, codes, ok, length,
}
use nntp_tools.Prelude.Int.{ℤ, pos}
use nntp_tools.Text
use nntp_tools.Text.{lookup}
use nntp_tools.Article
use nntp_tools.Article.{Headers, parse, add_header}
use nntp_tools.Dates.{Tm}
use nntp_tools.Spool
use nntp_tools.Spool.{AllGroups, Hierarchy, empty_bucket, visit_groups, read_article, groups_of}
use nntp_tools.Spool.Reading.{headers_of, parse-headers_of}
use nntp_tools.Spool.Agents.{agent_name}
use nntp_tools.Spool.Distinct.{
  Readable, visit_each, new_sizes, length-new_sizes, total-new_sizes, total, visit_each-distinct,
}

abbrev message : Bytes
message = codes "Message-ID: <1>\nDate: 1 Jan 2010 0:0:0\nFrom: a\nNewsgroups: a,a.y\n\nbody\n"

abbrev message_headers : Headers
message_headers =
    (codes "message-id", codes "<1>")
    ∷ (codes "date", codes "1 Jan 2010 0:0:0")
    ∷ (codes "from", codes "a")
    ∷ (codes "newsgroups", codes "a,a.y")
    ∷ []

message_read : read_article message ≡ message
unfolding read_article Spool.read_from Spool.has_end nntp_tools.Text.has_substring
    nntp_tools.Text.starts_with
message_read = refl

message_parsed : parse message ≡ some message_headers
unfolding parse Article.parse_from Article.eol Article.scan_header Article.eoh add_header
    Article.find_colon nntp_tools.Text.insert nntp_tools.Prelude.equal Article.header_value
    Article.trim_end Article.skip_blanks
message_parsed = refl

message_headers_of : headers_of message ≡ message_headers
message_headers_of =
    let same : some (headers_of message) ≡ some message_headers =
      sym (parse-headers_of message) ∙ (ap parse message_read ∙ message_parsed) in
    cc same

message_groups : lookup (codes "newsgroups") (headers_of message) ≢ none
unfolding nntp_tools.Text.lookup nntp_tools.Prelude.equal
message_groups e =
    let found : some (codes "a,a.y") ≡ none =
      sym (ap (λ h. lookup (codes "newsgroups") h) message_headers_of) ∙ e in
    absurd (cc found)

abbrev readable : Readable
readable = record { file = message; size = 74; has_groups = λ _. message_groups }

abbrev empty_hierarchy : Hierarchy
empty_hierarchy = record { counts = empty_bucket; groups = [] }

abbrev nothing_seen : AllGroups
nothing_seen = record {
  articles = 0;
  bytes = 0;
  seen = [];
  useragents = [];
  charsets = [];
  hierarchies = (codes "a", empty_hierarchy) ∷ [];
  skip_lwm = 0;
  skip_mtime = 0;
  dirs = 0;
}

abbrev in_order : List Bytes → List Bytes
in_order groups = groups

abbrev year_of : Tm → ℤ
year_of tm = pos (tm.year)

abbrev twice : List Readable
twice = readable ∷ readable ∷ []

visit_each-distinct_example :
    (t : AllGroups) × (visit_each in_order year_of (pos 100) (pos 120) (pos 0) twice nothing_seen
      ≡ ok t)
    × (t.articles ≡ 0 + length (new_sizes in_order year_of (pos 100) (pos 120) (pos 0) [] twice))
    × (t.bytes ≡ 0 + total (new_sizes in_order year_of (pos 100) (pos 120) (pos 0) [] twice))
unfolding total
visit_each-distinct_example =
    visit_each-distinct in_order year_of (pos 100) (pos 120) (pos 0) twice nothing_seen
      (omega (arith, length-new_sizes in_order year_of (pos 100) (pos 120) (pos 0) [] twice))
      (omega (arith, total-new_sizes in_order year_of (pos 100) (pos 120) (pos 0) [] twice))

articles_of : Option Hierarchy → ℕ
articles_of none = 0
articles_of (some h) = h.counts.articles

-- A hierarchy whose groups have another hierarchy's group between them counts an article twice.
twice_test :
    articles_of (
      lookup
        (codes "a")
        (visit_groups none none
          (codes "a" ∷ codes "a-b.x" ∷ codes "a.y" ∷ [])
          (codes "s")
          1
          ((codes "a", empty_hierarchy) ∷ (codes "a-b", empty_hierarchy) ∷ [])).0)
    ≡ 2
unfolding visit_groups articles_of lookup Spool.is_same nntp_tools.Prelude.equal
    Spool.hierarchy_name nntp_tools.Text.insert Spool.visit_hierarchy Spool.visit_bucket
    Spool.visit_group Spool.group Spool.count_sender
twice_test = refl

knode_test : agent_name (codes "KNode/0.10") ≡ codes "KNode"
unfolding agent_name nntp_tools.Spool.Agents.matches Text.has_substring Text.starts_with
knode_test = refl
