-- ===== src/Web/PageLib/Tests.antt =====
-- A run of the page library of src/web/page_lib.cc.
use serach_engine.Base.{◌≡◌, ok, [], ◌∷◌, Text, bytes, some, none, ◌==◌, text_eq, same}
use serach_engine.Web.PageLib.Offsets.{IsLocated, store_on_disk-IsLocated}
use serach_engine.Web.PageLib.{Offsets, PageLib, page_file, store_on_disk}

-- Only the page file can be opened.
abbrev page_path : Text
page_path = bytes "../../data/database/ripe_page.dat"

-- Two pages.
abbrev lib : PageLib
lib = record { rss_items = []; ripe_pages = (97 ∷ 98 ∷ []) ∷ (99 ∷ []) ∷ []; offset_lib = [] }

store_on_disk-IsLocated_example :
    (records offsets : Offsets) × ((store_on_disk (λ path. path == page_path) lib
        ≡ ok (some (page_file lib.ripe_pages), (none, record lib { offset_lib = offsets })))
      × IsLocated 1 lib.ripe_pages records (page_file lib.ripe_pages))
unfolding same
store_on_disk-IsLocated_example = store_on_disk-IsLocated (λ path. path == page_path) lib
