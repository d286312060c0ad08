-- ===== src/Sources/Maps.antt =====
-- The counters of sources/sources.cc: a file of a day and a peer has an entry for each minute. The files, the
-- time stamp file and the program's variables are one state; none: a write outside of a map.
use mathlib.Core.List.{map}
use nntp_tools.Prelude.{
  ℕ, suc, ◌+◌, ◌-◌, ◌*◌, ◌%◌, ◌^◌, Bool, true, false, ◌&&◌, List, [], ◌∷◌, ◌++◌, Option, none, some,
  Bytes, codes, equal, ltb, leb, ◌==◌, if◌then◌else◌, length, replicate, get_elem?, set, take, drop,
}
use nntp_tools.Prelude.Int.{ℤ, pos, negsuc, ◌+ℤ◌, is_less}
use nntp_tools.Text.{lookup, insert, char_at, starts_with}
use nntp_tools.Csv.Numbers.{decimal}
use nntp_tools.Dates.{Tm}
use nntp_tools.Sources.{Details, is_accepted, parse, ◌>>?◌}

-- `struct map_entry`.
pub record Entry : Type 0 where
  pub articles : ℕ
  pub bytes : ℕ

abbrev pub buckets : ℕ
buckets = 1440

-- What `ftruncate` makes of a new file.
abbrev pub zeros : List Entry
zeros = replicate 1440 (record { articles = 0; bytes = 0 })

-- `struct timeval` and its order.
unfoldable pub is_before : ℤ × ℕ → ℤ × ℕ → Bool
is_before (s, u) (t, v) = if is_less s t then true else if is_less t s then false else ltb u v

-- `days_changed` is a set, and the files are those of the state directory.
pub record State : Type 0 where
  pub maps : List (Bytes × List Entry)
  pub latest : ℤ × ℕ
  pub counter : ℕ
  pub timestamp : Option (ℤ × ℕ)
  pub days : List Bytes

-- `open_map`.
unfoldable pub open_map : Bytes → List (Bytes × List Entry) → List Entry
open_map path maps = elim (lookup path maps) [ none ↦ zeros | some es ↦ es ]

-- `%0wd`.
unfoldable pub padded : ℕ → ℤ → Bytes
padded w (pos n) = replicate (w - length (decimal n)) b'0' ++ decimal n
padded w (negsuc n) = b'-' ∷ (replicate (w - 1 - length (decimal (suc n))) b'0' ++ decimal (suc n))

unfoldable pub day_of : Details → Bytes
day_of d =
    padded 4 (pos (d.when.year + 1900))
    ++ (b'-' ∷ (padded 2 (d.when.mon +ℤ pos 1) ++ (b'-' ∷ padded 2 (pos (d.when.mday)))))

-- A byte of the peer's name, as the path has it.
unfoldable pub path_char : ℕ → ℕ
path_char c = if ltb b' ' c && ltb c 0x7F then c else b'X'

unfoldable pub path_of : Bytes → Details → Bytes
path_of state d = state ++ (b'/' ∷ (day_of d ++ (b'-' ∷ (map path_char d.peer ++ codes ".nsdat"))))

unfoldable pub bucket : Details → ℕ
bucket d = 60 * d.when.hour + d.when.min

unfoldable pub add : ℕ → Entry → Entry
add size e = record { articles = (e.articles + 1) % 2 ^ 64; bytes = (e.bytes + size) % 2 ^ 64 }

-- The write to an entry.
unfoldable pub bump : List Entry → ℕ → ℕ → Option (List Entry)
bump es i size = elim (get_elem? es i) [ none ↦ none | some e ↦ some (set es i (add size e)) ]

unfoldable pub insert_day : Bytes → List Bytes → List Bytes
insert_day day [] = day ∷ []
insert_day day (d ∷ days) = if equal d day then d ∷ days else d ∷ insert_day day days

-- `update_timestamp`.
unfoldable pub update_timestamp : State → State
update_timestamp s = record s { timestamp = some s.latest; counter = 0 }

unfoldable pub is_negative : ℤ → Bool
is_negative (pos n) = false
is_negative (negsuc n) = true

unfoldable pub time_of : Details → ℤ × ℕ
time_of d = (d.seconds, d.microseconds)

-- The time up to which the log is known.
unfoldable pub later : Details → ℤ × ℕ → ℤ × ℕ
later d latest =
    if is_negative d.seconds
    then latest
    else if is_before latest (time_of d)
    then time_of d
    else latest

unfoldable pub count_down : State → State
count_down s =
    if leb 32 (suc (s.counter)) then update_timestamp s else record s { counter = suc (s.counter) }

-- `process_accepted`; `state` is the directory.
unfoldable pub process_accepted : Bytes → Details → State → Option State
process_accepted state d s = bump (open_map (path_of state d) s.maps) (bucket d) d.size >>? λ es.
    let t =
      count_down
        (record s { maps = insert (path_of state d) es s.maps; latest = later d s.latest }) in
    some (record t { days = insert_day (day_of d) t.days })

-- `process_line`.
unfoldable pub process_line : Bytes → Details → State → Option State
process_line state d s =
    if is_before (time_of d) s.latest
    then some s
    else if is_accepted d.code
    then process_accepted state d s
    else some s

unfoldable pub process_details : Bytes → List Details → State → Option State
process_details state [] s = some s
process_details state (d ∷ ds) s = process_line state d s >>? process_details state ds

-- `process_file`, on the lines that end in a newline; what is behind the last newline is not processed.
unfoldable pub parse_all : (Tm → Tm × ℤ) → Tm → List Bytes → List Details
parse_all mktime start [] = []
parse_all mktime start (line ∷ lines) = elim (parse mktime start line) [
  | none ↦ parse_all mktime start lines
  | some d ↦ d ∷ parse_all mktime start lines
]

unfoldable pub process_file : (Tm → Tm × ℤ) → Tm → Bytes → List Bytes → State → Option State
process_file mktime start state lines s = process_details state (parse_all mktime start lines) s

unfoldable pub ends_with : Bytes → Bytes → Bool
ends_with a b = leb (length b) (length a) && equal (drop (length a - length b) a) b

-- The peers of a day: the files of the state directory that `process_day` opens, by the names of the peers.
unfoldable pub is_of_day : Bytes → Bytes → Bool
is_of_day day name =
    starts_with name day && char_at name (length day) == b'-' && ends_with name (codes ".nsdat")

unfoldable pub peer_of : Bytes → Bytes → Bytes
peer_of day name = take (length name - (1 + length day + 6)) (drop (length day + 1) name)

-- The loop over the names, from the peers on that have been found.
unfoldable pub day_info :
    Bytes
    → Bytes
    → List (Bytes × List Entry)
    → List Bytes
    → List (Bytes × List Entry)
    → List (Bytes × List Entry)
day_info state day maps [] info = info
day_info state day maps (name ∷ names) info =
    if is_of_day day name
    then day_info state day maps names
        (insert (peer_of day name) (open_map (state ++ (b'/' ∷ name)) maps) info)
    else day_info state day maps names info
