-- ===== src/Spool.antt =====
-- spoolstats/AllGroups.cc with Bucket, SenderCountingBucket, Group and Hierarchy: the counters of the spool.
-- An `int` that counts articles and an `intmax_t` that counts bytes are their bits and wrap around; the counts
-- of directories and of what is passed over are unbounded. The order of `sort` and `timegm` are arguments.
pub mod Reading
pub mod Validity
pub mod Distinct
pub mod Agents
mod Tests
use nntp_tools.Prelude.{
  ℕ, zero, suc, ◌+◌, ◌-◌, ◌%◌, Bool, true, false, not, ◌&&◌, ◌||◌, List, [], ◌∷◌, ◌++◌, Option,
  none, some, Bytes, codes, equal, ltb, ◌==◌, if◌then◌else◌, length, take, drop, Result, ok, failed,
  ◌>>=◌,
}
use nntp_tools.Prelude.Int.{ℤ, pos, negsuc, negate, is_less}
use nntp_tools.Text.{lookup, insert, char_at, has_substring}
use nntp_tools.Property.{Values, update, contains}
use nntp_tools.Article.{Headers, parse, valid, useragent, get_groups}
use nntp_tools.Article.Charset.{charset}
use nntp_tools.Dates.{Tm, parse_date}
use nntp_tools.Dates.Strtol.{strtol_sign}
use nntp_tools.Atoi.{skip_space}

-- `SenderCountingBucket` and `Group`.
pub record SenderBucket : Type 0 where
  pub articles : ℕ
  pub bytes : ℕ
  pub senders : List (Bytes × ℕ)
  pub sender_count : ℕ

pub record Hierarchy : Type 0 where
  pub counts : SenderBucket
  pub groups : List (Bytes × SenderBucket)

-- `AllGroups`, with the configured hierarchies.
pub record AllGroups : Type 0 where
  pub articles : ℕ
  pub bytes : ℕ
  pub seen : List Bytes
  pub useragents : Values
  pub charsets : Values
  pub hierarchies : List (Bytes × Hierarchy)
  pub skip_lwm : ℕ
  pub skip_mtime : ℕ
  pub dirs : ℕ

-- A failed assertion, the use of `end()`, and the model's fuel in the reading of headers.
pub data Fault : Type 0 where
  no_header no_groups out_of_fuel : Fault

abbrev pub empty_bucket : SenderBucket
empty_bucket = record { articles = 0; bytes = 0; senders = []; sender_count = 0 }

-- The bits of an `int`, and of an `intmax_t`.
abbrev pub as_int : ℕ → ℕ
as_int n = n % 4294967296

abbrev pub as_intmax : ℕ → ℕ
as_intmax n = n % 18446744073709551616

unfoldable pub count_sender : Bytes → List (Bytes × ℕ) → List (Bytes × ℕ)
count_sender sender senders = elim (lookup sender senders) [
  | none ↦ insert sender 1 senders
  | some n ↦ insert sender (as_int (suc n)) senders
]

-- `SenderCountingBucket::visit` and `Group::visit`.
unfoldable pub visit_bucket : Bytes → ℕ → SenderBucket → SenderBucket
visit_bucket sender size b =
    let senders = count_sender sender b.senders in
    record {
      articles = as_int (suc (b.articles));
      bytes = as_intmax (b.bytes + size);
      senders = senders;
      sender_count = length senders;
    }

-- `Hierarchy::group`.
unfoldable pub group : Bytes → Hierarchy → SenderBucket
group name h = elim (lookup name h.groups) [ none ↦ empty_bucket | some g ↦ g ]

unfoldable pub visit_group : Bytes → Bytes → ℕ → Hierarchy → Hierarchy
visit_group name sender size h = record h {
  groups = insert name (visit_bucket sender size (group name h)) h.groups;
}

unfoldable pub visit_hierarchy : Bytes → ℕ → Hierarchy → Hierarchy
visit_hierarchy sender size h = record h { counts = visit_bucket sender size h.counts }

-- `hname`: the group up to its first dot.
unfoldable pub hierarchy_name : Bytes → Bytes
hierarchy_name [] = []
hierarchy_name (c ∷ s) = elim (c == b'.') [ true ↦ [] | false ↦ c ∷ hierarchy_name s ]

unfoldable pub is_same : Option Bytes → Bytes → Bool
is_same none s = false
is_same (some t) s = equal t s

-- The loop over the sorted groups, from the group before and `last_h` on; a hierarchy is known by its name.
unfoldable pub visit_groups :
    Option Bytes
    → Option Bytes
    → List Bytes
    → Bytes
    → ℕ
    → List (Bytes × Hierarchy)
    → List (Bytes × Hierarchy) × Bool
visit_groups before last [] sender size hs = (hs, false)
visit_groups before last (g ∷ gs) sender size hs = elim (is_same before g) [
  | true ↦ visit_groups (some g) last gs sender size hs
  | false ↦ elim (lookup (hierarchy_name g) hs) [
    | none ↦ visit_groups (some g) last gs sender size hs
    | some h ↦
        let hname = hierarchy_name g in
        let k = visit_group g sender size h in
        let l = if is_same last hname then k else visit_hierarchy sender size k in
        ((visit_groups (some g) (some hname) gs sender size (insert hname l hs)).0, true)
  ]
]

unfoldable pub need : Headers → Bytes → Result Fault Bytes
need headers name = elim (lookup name headers) [ none ↦ failed no_header | some v ↦ ok v ]

unfoldable pub groups_of : Headers → Result Fault (List Bytes)
groups_of headers = elim (get_groups headers) [ none ↦ failed no_groups | some gs ↦ ok gs ]

-- `AllGroups::visit(const Article *)`.
unfoldable pub visit_all : Headers → Bytes → ℕ → AllGroups → AllGroups
visit_all headers sender size s = record s {
  articles = as_int (suc (s.articles));
  bytes = as_intmax (s.bytes + size);
  useragents = update (useragent headers) sender s.useragents;
  charsets = update (charset headers) sender s.charsets;
}

unfoldable pub has_end : Bytes → Bool
has_end text = has_substring text (codes "\n\n") || has_substring text (codes "\r\n\r\n")

-- The loop of `read`: what has been read, and what is left of the file.
unfoldable pub read_from : ℕ → Bytes → Bytes → Bytes
read_from zero text rest = text
read_from (suc fuel) text [] = text
read_from (suc fuel) text (c ∷ rest) =
    let more = text ++ take 2048 (c ∷ rest) in
    let later = read_from fuel more (drop 2048 (c ∷ rest)) in if has_end more then more else later

-- One round for each byte of the file is enough.
unfoldable pub read_article : Bytes → Bytes
read_article file = read_from (length file) [] file

module _ (sort : List Bytes → List Bytes) (timegm : Tm → ℤ)
    (start_time end_time start_mtime : ℤ) where
  unfoldable pub in_range : ℤ → Bool
  in_range date = not (is_less date start_time) && is_less date end_time

  -- An article that has not been seen before.
  unfoldable pub visit_new : Headers → Bytes → ℕ → AllGroups → Result Fault (AllGroups × Bool)
  visit_new headers mid size s = need headers (codes "from") >>= λ sender.
      groups_of headers >>= λ groups.
      let t = visit_all headers sender size (record s { seen = mid ∷ s.seen }) in
      let (hs, visited) = visit_groups none none (sort groups) sender size t.hierarchies in
      ok (record t { hierarchies = hs }, visited)

  unfoldable pub visit_dated : Headers → ℕ → AllGroups → Result Fault (AllGroups × Bool)
  visit_dated headers size s = need headers (codes "date") >>= λ date.
      if in_range (parse_date timegm date)
      then (need headers (codes "message-id") >>= λ mid.
          if contains mid s.seen then ok (s, false) else visit_new headers mid size s)
      else ok (s, false)

  unfoldable pub visit_headers : Headers → ℕ → AllGroups → Result Fault (AllGroups × Bool)
  visit_headers headers size s = if valid headers then visit_dated headers size s else ok (s, false)

  -- `AllGroups::visit(const string &)` of a file and its size.
  unfoldable pub visit : Bytes → ℕ → AllGroups → Result Fault (AllGroups × Bool)
  visit file size s = elim (parse (read_article file)) [
    | none ↦ failed out_of_fuel
    | some headers ↦ visit_headers headers size s
  ]

  -- The entries of a directory in the order of `readdir`: a directory with its own, a regular file with its
  -- modification time, its contents and its size, or something else.
  pub data Entries : Type 0 where
    no_entries : Entries
    directory : Bytes → Entries → Entries → Entries
    regular : Bytes → ℤ → Bytes → ℕ → Entries → Entries
    other : Bytes → Entries → Entries

  -- The article number of a file name.
  unfoldable pub article_number : Bytes → Option ℤ
  article_number name = elim (strtol_sign (skip_space name)) [ ok (n, []) ↦ some n | _ ↦ none ]

  unfoldable pub is_low : Option ℤ → ℤ → Bool
  is_low none lwm = false
  is_low (some n) lwm = is_less n lwm

  unfoldable pub is_hidden : Bytes → Bool
  is_hidden name = char_at name 0 == b'.'

  -- The two counters of what is passed over.
  unfoldable pub pass_low : AllGroups → AllGroups
  pass_low s = record s { skip_lwm = suc (s.skip_lwm) }

  unfoldable pub pass_old : AllGroups → AllGroups
  pass_old s = record s { skip_mtime = suc (s.skip_mtime) }

  -- What is done with a regular file: the low water mark and the counters behind it.
  unfoldable pub regular_file :
      Option ℤ → ℤ → Bytes → ℕ → ℤ → AllGroups → Result Fault (ℤ × AllGroups)
  regular_file none mtime file size lwm s = ok (lwm, s)
  regular_file (some (negsuc n)) mtime file size lwm s = ok (lwm, s)
  regular_file (some (pos n)) mtime file size lwm s =
      if is_less mtime start_mtime
      then ok (pos n, pass_old s)
      else (visit file size s >>= λ (t, used). ok (lwm, t))

  -- `recurse`, from the low water mark on.
  unfoldable pub recurse : ℤ → Entries → AllGroups → Result Fault AllGroups
  recurse lwm no_entries s = ok s
  recurse lwm (directory name inner next) s =
      if is_hidden name
      then recurse lwm next s
      else if is_low (article_number name) lwm
      then recurse lwm next (pass_low s)
      else (recurse (negsuc 0) inner (record s { dirs = suc (s.dirs) }) >>= λ t. recurse lwm next t)
  recurse lwm (regular name mtime file size next) s =
      if is_hidden name
      then recurse lwm next s
      else if is_low (article_number name) lwm
      then recurse lwm next (pass_low s)
      else (regular_file (article_number name) mtime file size lwm s >>= λ (l, t). recurse l next t)
  recurse lwm (other name next) s =
      if is_hidden name
      then recurse lwm next s
      else if is_low (article_number name) lwm
      then recurse lwm next (pass_low s)
      else recurse lwm next s
