-- ===== src/Feed/Elements.antt =====
-- The XML callbacks of gateways/lj2news.c. The events are those of expat; a call of `process` is
-- recorded with its elements. The counters `item` and `subitem` are the bits of an `int`, so that one
-- below 0 is not 0.
use nntp_tools.Prelude.{
  ℕ, ◌+◌, ◌%◌, List, [], ◌∷◌, ◌++◌, Option, none, some, Bytes, codes, equal, if◌then◌else◌, ◌==◌,
  Result, ok, failed, ◌>>=◌,
}

-- An element of an item, name and value; the latest is in front.
pub Elements : Type 0
Elements = List (Bytes × Bytes)

pub data ParseFault : Type 0 where
  null_elements : ParseFault

pub record Parser : Type 0 where
  pub item : ℕ
  pub subitem : ℕ
  pub elements : List (Bytes × Bytes)
  pub processed : List (List (Bytes × Bytes))

unfoldable pub increment : ℕ → ℕ
increment n = (n + 1) % 4294967296

unfoldable pub decrement : ℕ → ℕ
decrement n = (n + 4294967295) % 4294967296

unfoldable pub start_element : Bytes → Parser → Parser
start_element name p =
    if equal name (codes "item")
    then record p { item = increment p.item; elements = [] }
    else if p.item == 0
    then p
    else record p { elements = (name, []) ∷ p.elements; subitem = increment p.subitem }

unfoldable pub end_element : Bytes → Parser → Parser
end_element name p =
    if equal name (codes "item")
    then record p { item = decrement p.item; processed = p.processed ++ p.elements ∷ [] }
    else if p.item == 0
    then p
    else record p { subitem = decrement p.subitem }

-- The text is appended to the value of the element in front, which must be there.
unfoldable pub append_text : Bytes → List (Bytes × Bytes) → Result ParseFault (List (Bytes × Bytes))
append_text s [] = failed null_elements
append_text s ((name, value) ∷ elements) = ok ((name, value ++ s) ∷ elements)

unfoldable pub character_data : Bytes → Parser → Result ParseFault Parser
character_data s p =
    if p.subitem == 0
    then ok p
    else (append_text s p.elements >>= λ es. ok (record p { elements = es }))

pub data XmlEvent : Type 0 where
  start end text : Bytes → XmlEvent

unfoldable pub callback : XmlEvent → Parser → Result ParseFault Parser
callback (start name) p = ok (start_element name p)
callback (end name) p = ok (end_element name p)
callback (text s) p = character_data s p

unfoldable pub parse : List XmlEvent → Parser → Result ParseFault Parser
parse [] p = ok p
parse (e ∷ es) p = callback e p >>= parse es

unfoldable pub find_element : List (Bytes × Bytes) → Bytes → Option Bytes
find_element [] name = none
find_element ((n, value) ∷ es) name = if equal n name then some value else find_element es name
