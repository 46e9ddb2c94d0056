-- ===== src/Web/PageLib.antt =====
-- `PageLib` of src/web/page_lib.cc: the pages made of the RSS items, and the page file with its
-- offsets. The items are those that the parser has collected; the offset file is kept as the
-- numbers that are written to it.
pub mod Loading
pub mod Offsets
mod Tests
use serach_engine.Base.{
  ℕ, zero, suc, ◌+◌, ◌-◌, Text, bytes, Bool, if◌then◌else◌, Outcome, Fault, ok, fault, ◌>>=◌, List,
  [], ◌∷◌, ◌++◌, Option, none, some, length, get_elem?, nat_eq,
}
use serach_engine.Base.Maps.{insert, unordered}
use serach_engine.Streams.{print_nat}
use serach_engine.Web.WebPage.{RssItem}

abbrev pub Offsets : Type 0
Offsets = List (ℕ × (ℕ × ℕ))

pub record PageLib : Type 0 where
  pub rss_items : List RssItem
  pub ripe_pages : List Text
  pub offset_lib : Offsets

-- One page of `PageLib::Load`.
unfoldable pub format_page : ℕ → RssItem → Text
format_page docid item =
    bytes "<doc>"
    ++ (bytes "<docid>"
        ++ (print_nat docid
            ++ (bytes "</docid>"
                ++ (bytes "<title>"
                    ++ (item.title
                        ++ (bytes "</title>"
                            ++ (bytes "<link>"
                                ++ (item.link
                                    ++ (bytes "</link>"
                                        ++ (bytes "<author>"
                                            ++ (item.author
                                                ++ (bytes "</author>"
                                                    ++ (bytes "<description>"
                                                        ++ (item.description
                                                            ++ (bytes "</description>"
                                                            ++ bytes "</doc>")))))))))))))))

unfoldable pub format_pages : ℕ → List RssItem → List Text
unfolding format_page
format_pages docid [] = []
format_pages docid (item ∷ rest) = format_page (suc docid) item ∷ format_pages (suc docid) rest

-- The second loop of `PageLib::Load`, after the parser has read every file.
unfoldable pub load : PageLib → PageLib
unfolding format_pages
load lib = record lib { ripe_pages = lib.ripe_pages ++ format_pages 0 lib.rss_items }

-- The page file: the pages one behind the other.
unfoldable pub page_file : List Text → Text
page_file [] = []
page_file (page ∷ rest) = page ++ page_file rest

-- What the offset loop leaves: the numbers written, and `_offset_lib`.
pub record Written : Type 0 where
  pub records : Offsets
  pub offsets : Offsets

-- The offset loop of `PageLib::StoreOnDisk`. `_ripe_pages[doc_id - 1]` out of range is undefined.
unfoldable pub write_offsets : List Text → ℕ → ℕ → List Text → Written → Outcome Written
write_offsets ripe doc_id offset [] w = ok w
write_offsets ripe doc_id offset (page ∷ rest) w = elim (get_elem? ripe (doc_id - 1)) [
  | none ↦ fault Fault.undefined
  | some own ↦ write_offsets ripe (suc doc_id) (offset + length page) rest (record {
    records = w.records ++ (doc_id, (offset, length own)) ∷ [];
    offsets = insert unordered (suc doc_id) (offset + length page, length own) w.offsets;
  })
]

-- `ofstream ofs(path)` and what is then written: nothing when the path cannot be opened. A write to
-- an open file is taken to succeed.
unfoldable pub written {ℓ} : {A : Type ℓ} → (Text → Bool) → Text → A → Option A
written opens path content = if opens path then some content else none

-- `PageLib::StoreOnDisk`: the page file and the offset file, `none` where it cannot be opened, and
-- the library.
unfoldable pub store_on_disk :
    (Text → Bool) → PageLib → Outcome (Option Text × (Option Offsets × PageLib))
unfolding page_file written
store_on_disk opens lib = do
  w ←
      write_offsets lib.ripe_pages 1 0 lib.ripe_pages
        (record { records = []; offsets = lib.offset_lib })
  ok (
    written opens (bytes "../../data/database/ripe_page.dat") (page_file lib.ripe_pages),
    (
      written opens (bytes "../../data/database/offset_lib.dat") w.records,
      record lib { offset_lib = w.offsets },
    ),
  )

-- `PageLib::GetPageNum`, `GetRssItems` and `GetRipePages`.
unfoldable pub get_page_num : PageLib → ℕ
get_page_num lib = length lib.ripe_pages

unfoldable pub get_rss_items : PageLib → List RssItem
get_rss_items lib = lib.rss_items

unfoldable pub get_ripe_pages : PageLib → List Text
get_ripe_pages lib = lib.ripe_pages
