-- ===== src/Unhistorical.antt =====
-- inn/unhistorical.c: the files of the spool that the history does not know. INN's library is an argument: the
-- text from a Message-ID's start to where `wire_endheader` points, `HIScheck`, and `wire_from_native`.
use nntp_tools.Prelude.{
  ℕ, zero, suc, ◌-◌, Bool, not, List, [], ◌∷◌, ◌++◌, Option, none, some, Bytes, if◌then◌else◌,
  length, Result, ok, failed,
}
use nntp_tools.Text.{c_string}
use nntp_tools.Commits.{trim_end}

-- What a call of `read` returned: bytes, of which none are the end of the file, or an error.
pub data ReadResult : Type 0 where
  got : Bytes → ReadResult
  interrupted broken : ReadResult

-- Why an article is not loaded; `no_result` says that the list of the results of `read` was too short.
pub data LoadFault : Type 0 where
  not_opened read_error truncated longer no_result : LoadFault

-- The read behind the expected size, which must find the end of the file.
unfoldable pub load_end : List ReadResult → Bytes → Result LoadFault Bytes
load_end [] article = failed no_result
load_end (got [] ∷ rs) article = ok article
load_end (got (c ∷ s) ∷ rs) article = failed longer
load_end (interrupted ∷ rs) article = failed read_error
load_end (broken ∷ rs) article = failed read_error

-- The loop of `load_article`, with the bytes that are still expected.
unfoldable pub load_from : ℕ → List ReadResult → Bytes → Result LoadFault Bytes
load_from zero rs article = load_end rs article
load_from (suc left) [] article = failed no_result
load_from (suc left) (got [] ∷ rs) article = failed truncated
load_from (suc left) (got (c ∷ s) ∷ rs) article =
    load_from (left - length s) rs (article ++ (c ∷ s))
load_from (suc left) (interrupted ∷ rs) article = load_from (suc left) rs article
load_from (suc left) (broken ∷ rs) article = failed read_error

-- What `nftw` calls back with: a file, with its size and what happens when it is read, none where it
-- cannot be opened; a directory; or something that is not looked into.
pub data Visit : Type 0 where
  file : Bytes → ℕ → Option (List ReadResult) → Visit
  directory link unreadable : Bytes → Visit

module _ (wireformat list_malformed : Bool) (wire_from_native : Bytes → Bytes)
    (message_id : Bytes → Option Bytes) (is_known : Bytes → Bool) where
  -- `load_article`.
  unfoldable pub load_article : ℕ → Option (List ReadResult) → Result LoadFault Bytes
  load_article size none = failed not_opened
  load_article size (some rs) = elim (load_from size rs []) [
    | failed e ↦ failed e
    | ok article ↦ ok (if wireformat then article else wire_from_native article)
  ]

  -- Whether `check_article` acts on an article.
  unfoldable pub is_lost : Bytes → Bool
  is_lost article = elim (message_id article) [
    | none ↦ list_malformed
    | some mid ↦ not (is_known (c_string (trim_end mid)))
  ]

  -- `check_article`: the path on which it acts, if it does.
  unfoldable pub check_article : Bytes → ℕ → Option (List ReadResult) → List Bytes
  check_article path size rs = elim (load_article size rs) [
    | failed e ↦ []
    | ok article ↦ if is_lost article then path ∷ [] else []
  ]

  -- The calls of `ftw_callback`: the paths that are listed or removed, in order.
  unfoldable pub lost : List Visit → List Bytes
  lost [] = []
  lost (file path size rs ∷ vs) = check_article path size rs ++ lost vs
  lost (directory path ∷ vs) = lost vs
  lost (link path ∷ vs) = lost vs
  lost (unreadable path ∷ vs) = lost vs
