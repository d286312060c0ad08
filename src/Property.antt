-- ===== src/Property.antt =====
-- The articles and senders of each value of a property such as the charset or the user agent,
-- spoolstats/ArticleProperty.cc and ArticleProperty.h.
pub mod Counts
pub mod Summary
mod Tests
use nntp_tools.Prelude.{
  ℕ, suc, ◌+◌, Bool, true, false, ◌||◌, List, [], ◌∷◌, Option, none, some, Bytes, length, equal,
  if◌then◌else◌,
}
use nntp_tools.Text.{lookup, insert}

-- A `PropertyValue`; its `value` is its key in the map. The set of senders is a list with none twice.
pub record PropertyValue : Type 0 where
  pub articles : ℕ
  pub senders : List Bytes
  pub sender_count : ℕ

abbrev pub Values : Type 0
Values = List (Bytes × PropertyValue)

-- The constructor.
abbrev pub fresh : PropertyValue
fresh = record { articles = 0; senders = []; sender_count = 0 }

unfoldable pub contains : Bytes → List Bytes → Bool
contains s [] = false
contains s (t ∷ ts) = equal t s || contains s ts

-- `senders.insert(s)`.
unfoldable pub insert_sender : Bytes → List Bytes → List Bytes
insert_sender s ts = if contains s ts then ts else s ∷ ts

-- `addSender`.
unfoldable pub add_sender : Bytes → PropertyValue → PropertyValue
add_sender s v = record v {
  senders = insert_sender s v.senders;
  sender_count = length (insert_sender s v.senders);
}

-- The value of a key, which is a fresh one where there is none.
unfoldable pub found : Option PropertyValue → PropertyValue
found none = fresh
found (some v) = v

-- `update`, with the sender of the article.
unfoldable pub update : Bytes → Bytes → Values → Values
update value sender values =
    let v = found (lookup value values) in
    insert value (add_sender sender (record v { articles = v.articles + 1 })) values

-- The loop of `operator+=` over the senders.
unfoldable pub insert_senders : List Bytes → List Bytes → List Bytes
insert_senders [] ts = ts
insert_senders (s ∷ ss) ts = insert_senders ss (insert_sender s ts)

-- `operator+=`.
unfoldable pub plus : PropertyValue → PropertyValue → PropertyValue
plus v that = record {
  articles = v.articles + that.articles;
  senders = insert_senders that.senders v.senders;
  sender_count = v.sender_count + that.sender_count;
}

-- `summarize` of the values into `dest`.
unfoldable pub summarize : (Bytes → Bytes) → Values → Values → Values
summarize summarizer [] dest = dest
summarize summarizer ((value, v) ∷ values) dest =
    let name = summarizer value in
    summarize summarizer values (insert name (plus (found (lookup name dest)) v) dest)
