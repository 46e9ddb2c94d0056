-- ===== src/Web/RssParser/Items.antt =====
-- What `RssParser::Load` of src/web/rss_parser.cc leaves.
use serach_engine.Base.{
  ℕ, zero, suc, ◌≤◌, ◌≡◌, refl, Text, bytes, ok, List, [], ◌∷◌, ◌++◌, Option, none, some, length,
  arith,
}
use mathlib.Core.List.{append-nil, append_assoc}
use serach_engine.Web.RssParser.{Xml, load_items, load, read_item}
use serach_engine.Web.WebPage.{RssItem}

module _ {D E : Type 0} (xml : Xml D E) (format_text : Text → Text) where
  -- From here on the sibling pointers give these elements, each read as one of the items.
  unfoldable pub IsListed : Option E → List RssItem → Type 0
  IsListed o [] = o ≡ none
  IsListed o (read ∷ rest) =
      (item : E) × (o ≡ some item)
      × (read_item xml format_text item ≡ ok read)
      × IsListed (xml.next_sibling_element item (bytes "item")) rest

  load_items-IsListed :
      (fuel : ℕ) (o : Option E) (items rss : List RssItem)
      → length items ≤ fuel
      → IsListed o items
      → load_items xml format_text fuel o rss ≡ some (ok (rss ++ items))
  unfolding load_items IsListed
  load_items-IsListed fuel o [] rss enough h = rw (h, append-nil rss) (nothing fuel)
    where
      nothing : (n : ℕ) → load_items xml format_text n none rss ≡ some (ok rss)
      nothing zero = refl
      nothing (suc n) = refl
  load_items-IsListed zero o (read ∷ rest) rss enough h = absurd (omega (arith, enough))
  load_items-IsListed (suc fuel) o (read ∷ rest) rss enough (item, here, read_ok, next) =
      rw (here, load_items, read_ok, ← append_assoc rss (read ∷ []) rest)
        (load_items-IsListed fuel (xml.next_sibling_element item (bytes "item")) rest
          (rss ++ read ∷ []) (omega (arith, enough)) next)

  -- The document has a channel with these items.
  pub record HasItems (doc : D) (items : List RssItem) : Type 0 where
    pub top : E
    pub channel : E
    pub is_rss : xml.root doc (bytes "rss") ≡ some top
    pub is_channel : xml.first_child_element top (bytes "channel") ≡ some channel
    pub listed : IsListed (xml.first_child_element channel (bytes "item")) items

  pub load-HasItems :
      (fuel : ℕ) (doc : D) (items rss : List RssItem)
      → length items ≤ fuel
      → HasItems doc items
      → load xml format_text fuel doc rss ≡ some (ok (rss ++ items))
  unfolding load
  load-HasItems fuel doc items rss enough h =
      rw (h.is_rss, h.is_channel, load)
        (load_items-IsListed fuel (xml.first_child_element h.channel (bytes "item")) items rss
          enough h.listed)
