-- ===== src/Seen.antt =====
-- The record of posted commits, lib/seen.c. The tracking file is the list of its bytes: a node is 64
-- bytes, two child positions in file order and the NUL-padded commit.
pub mod File
pub mod Tree
pub mod Insert
pub mod Link
pub mod Others
pub mod Calls
pub mod Set
pub mod History
mod Tests
use Prim.Native.Nat.{Ordering, compare}
use nntp_tools.Prelude.{
  ℕ, zero, suc, ◌+◌, ◌-◌, ◌%◌, ◌/◌, ◌^◌, Bool, true, false, not, ◌||◌, List, [], ◌∷◌, ◌++◌, Option,
  none, some, Bytes, length, take, drop, replicate, leb, ◌==◌, if◌then◌else◌, Result, ok, failed,
  ◌>>=◌,
}
use nntp_tools.Text.{c_string}
use nntp_tools.Words.{store, load, native_order, file_order}

-- The reasons for which `fatal` is called; `overflow` is the write past `commit[48]`, and
-- `out_of_fuel` is no fault of the program: it says that the model's loop was cut short.
pub data Fault : Type 0 where
  reading_failed truncated corrupted missing_node missing_branch unsuitable_length : Fault
  overflow out_of_fuel : Fault

abbrev pub node_size : ℕ
node_size = 64

abbrev pub commit_size : ℕ
commit_size = 48

-- `struct node`, the fields as they lie in memory.
pub record Node : Type 0 where
  pub left : ℕ
  pub right : ℕ
  pub commit : Bytes

unfoldable pub encode : Node → Bytes
encode n = store 8 n.left ++ (store 8 n.right ++ n.commit)

unfoldable pub decode : Bytes → Node
decode b = record { left = load (take 8 b); right = load (take 8 (drop 8 b)); commit = drop 16 b }

-- `memchr(s, 0, n) != NULL`.
unfoldable pub has_nul : Bytes → Bool
has_nul [] = false
has_nul (c ∷ s) = c == 0 || has_nul s

-- `strcmp` on C strings.
unfoldable pub strcmp : Bytes → Bytes → Ordering
strcmp [] [] = Ordering.eq
strcmp [] (y ∷ ys) = Ordering.lt
strcmp (x ∷ xs) [] = Ordering.gt
strcmp (x ∷ xs) (y ∷ ys) = elim (compare x y) [
  | Ordering.lt ↦ Ordering.lt
  | Ordering.gt ↦ Ordering.gt
  | Ordering.eq ↦ strcmp xs ys
]

-- `pread(fd, n, sizeof *n, pos)`: the bytes from `pos` on, none behind the end of the file.
unfoldable pub pread : Bytes → ℕ → Bytes
pread file pos = take node_size (drop pos file)

-- `pwrite` inside the file.
unfoldable pub pwrite : Bytes → Bytes → ℕ → Bytes
pwrite file b pos = take pos file ++ (b ++ drop (pos + length b) file)

-- What `get` makes of the bytes that were read.
unfoldable pub check_node : Bytes → Result Fault (Option Node)
check_node b =
    if length b == 0
    then ok none
    else if not (length b == node_size)
    then failed truncated
    else if not (has_nul (decode b).commit)
    then failed corrupted
    else ok (some (decode b))

-- `get`: `none` stands for the result 0. A negative offset makes `pread` fail.
unfoldable pub get : Bytes → ℕ → Result Fault (Option Node)
get file pos = if leb (2 ^ 63) pos then failed reading_failed else check_node (pread file pos)

-- `c < 0 ? n->left : n->right`.
unfoldable pub child : Ordering → Node → ℕ
child Ordering.lt n = n.left
child _ n = n.right

-- The loop of `seen`, at node `n`. One unit of fuel is spent for each node that is compared.
unfoldable pub seen_from : ℕ → Bytes → Bytes → Node → Result Fault Bool
seen_from zero file commit n = failed out_of_fuel
seen_from (suc fuel) file commit n = elim (strcmp commit (c_string n.commit)) [
  | Ordering.eq ↦ ok true
  | c ↦ elim (native_order (child c n) == 0) [
    | true ↦ ok false
    | false ↦ elim (get file (native_order (child c n))) [
      | failed e ↦ failed e
      | ok none ↦ failed missing_node
      | ok (some m) ↦ seen_from fuel file commit m
    ]
  ]
]

-- As many rounds as the file has nodes, and one more.
abbrev pub rounds : Bytes → ℕ
rounds file = length file / node_size + 1

unfoldable pub seen : Bytes → Bytes → Result Fault Bool
seen file commit = elim (get file 0) [
  | failed e ↦ failed e
  | ok none ↦ ok false
  | ok (some n) ↦ seen_from (rounds file) file commit n
]

-- `*childp = file_order(newnodepos)`.
unfoldable pub link : Ordering → Node → ℕ → Node
link Ordering.lt n pos = record n { left = file_order pos }
link _ n pos = record n { right = file_order pos }

-- The loop of `remember`, at the node at `parent`; the result is the file.
unfoldable pub insert_from : ℕ → Bytes → Bytes → ℕ → ℕ → Result Fault Bytes
insert_from zero file commit pos parent = failed out_of_fuel
insert_from (suc fuel) file commit pos parent = elim (get file parent) [
  | failed e ↦ failed e
  | ok none ↦ failed missing_branch
  | ok (some n) ↦ elim (strcmp commit (c_string n.commit)) [
    | Ordering.eq ↦ ok file
    | c ↦ elim (native_order (child c n) == 0) [
      | true ↦ ok (pwrite file (encode (link c n pos)) parent)
      | false ↦ insert_from fuel file commit pos (native_order (child c n))
    ]
  ]
]

-- `memset` and `strcpy`: the new node. The copy with its NUL must fit in the 48 bytes.
unfoldable pub new_node : Bytes → Result Fault Node
new_node commit =
    if leb commit_size (length commit)
    then failed overflow
    else ok (record {
      left = 0;
      right = 0;
      commit = commit ++ replicate (commit_size - length commit) 0;
    })

-- `remember`; the file is the one that is left behind. `write` appends, and is not cut short.
unfoldable pub remember : Bytes → Bytes → Result Fault Bytes
remember file commit = do
  n ← new_node commit
  if not (length file % node_size == 0)
      then failed unsuitable_length
      else if length file == 0
      then ok (encode n)
      else insert_from (rounds file) (file ++ encode n) commit (length file) 0
