-- ===== src/Web/RssParser.antt =====
-- `RssParser` of src/web/rss_parser.cc. The XML library's document and elements, and the regular
-- expression that takes the tags out of a text, are parameters.
pub mod Items
use serach_engine.Base.{
  ℕ, zero, suc, Text, Bool, true, false, bytes, Outcome, Fault, ok, fault, ◌>>=◌, List, [], ◌∷◌,
  ◌++◌, Option, none, some,
}
use serach_engine.Streams.{print_nat}
use serach_engine.Web.WebPage.{RssItem}

-- What the parser calls of the XML library. `none` is the null pointer.
pub record Xml (D E : Type 0) : Type 0 where
  pub root : D → Text → Option E
  pub first_child_element : E → Text → Option E
  pub next_sibling_element : E → Text → Option E
  pub get_text : E → Option Text

-- A new `RssItem`.
abbrev pub blank : RssItem
blank = record { title = []; link = []; author = []; description = [] }

unfoldable pub repeat : ℕ → RssItem → List RssItem
repeat zero item = []
repeat (suc n) item = item ∷ repeat n item

-- The constructor: `_rss.resize(1000)`.
unfoldable pub init : List RssItem
unfolding repeat
init = repeat 1000 blank

module _ {D E : Type 0} (xml : Xml D E) (format_text : Text → Text) where
  -- `if (child) field = child->GetText()`: a string made of the null pointer is undefined.
  unfoldable pub text_of : Text → E → Outcome Text
  text_of name item = elim (xml.first_child_element item name) [
    | none ↦ ok []
    | some child ↦ elim (xml.get_text child) [ none ↦ fault Fault.undefined | some text ↦ ok text ]
  ]

  -- `FormatText` is called only where there is a description.
  unfoldable pub description_of : E → Outcome Text
  description_of item = elim (xml.first_child_element item (bytes "description")) [
    | none ↦ ok []
    | some child ↦ elim (xml.get_text child) [
      | none ↦ fault Fault.undefined
      | some text ↦ ok (format_text text)
    ]
  ]

  -- The body of the loop of `RssParser::Load`.
  unfoldable pub read_item : E → Outcome RssItem
  unfolding text_of description_of
  read_item item = do
    title ← text_of (bytes "title") item
    link ← text_of (bytes "link") item
    author ← text_of (bytes "author") item
    description ← description_of item
    ok (record { title = title; link = link; author = author; description = description })

  -- The loop of `RssParser::Load`; `none` means that the fuel is used up.
  unfoldable pub load_items : ℕ → Option E → List RssItem → Option (Outcome (List RssItem))
  unfolding read_item
  load_items fuel none rss = some (ok rss)
  load_items zero (some item) rss = none
  load_items (suc fuel) (some item) rss = elim (read_item item) [
    | fault e ↦ some (fault e)
    | ok read ↦ load_items fuel (xml.next_sibling_element item (bytes "item")) (rss ++ read ∷ [])
  ]

  -- `RssParser::Load`: a document with no `rss` element is the null pointer's member.
  unfoldable pub load : ℕ → D → List RssItem → Option (Outcome (List RssItem))
  unfolding load_items
  load fuel doc rss = elim (xml.root doc (bytes "rss")) [
    | none ↦ some (fault Fault.undefined)
    | some top ↦ elim (xml.first_child_element top (bytes "channel")) [
      | none ↦ some (ok rss)
      | some channel ↦ load_items fuel (xml.first_child_element channel (bytes "item")) rss
    ]
  ]

-- The lines of `RssParser::Output`.
unfoldable pub output_items : ℕ → List RssItem → Text
output_items docid [] = []
output_items docid (item ∷ rest) =
    bytes "<doc>"
    ++ (bytes "<docid>"
        ++ (print_nat (suc docid)
            ++ (bytes "</docid>"
                ++ (bytes "<title>"
                    ++ (item.title
                        ++ (bytes "</title>"
                            ++ (bytes "<link>"
                                ++ (item.link
                                    ++ (bytes "</link>"
                                        ++ (bytes "<author>"
                                            ++ (item.author
                                                ++ (bytes "</author>"
                                                    ++ (bytes "<description>"
                                                        ++ (item.description
                                                            ++ (bytes "</description>"
                                                            ++ (bytes "</doc>\n"
                                                            ++ output_items (suc docid)
                                                            rest))))))))))))))))

-- `RssParser::Output`, where the file can be opened or not: what is in it then, and what is logged.
unfoldable pub output : Bool → Text → List RssItem → Option Text × List Text
unfolding output_items
output true filename rss = (some (output_items 0 rss), filename ∷ bytes "open success\n" ∷ [])
output false filename rss = (none, filename ∷ bytes "open failed\n" ∷ [])
