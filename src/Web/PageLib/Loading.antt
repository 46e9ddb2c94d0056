-- ===== src/Web/PageLib/Loading.antt =====
-- The whole of `PageLib::Load` of src/web/page_lib.cc: the directory scan, the parser on every
-- file, and the pages.
pub mod Files
mod Tests
use serach_engine.Base.{ℕ, Text, Outcome, fault, ok, List, [], ◌∷◌, Option, none, some}
use serach_engine.Common.Configuration.{Settings}
use serach_engine.Common.DirScanner.{scan}
use serach_engine.Web.PageLib as PageLib
use serach_engine.Web.PageLib.{PageLib}
use serach_engine.Web.RssParser as RssParser
use serach_engine.Web.RssParser.{Xml}
use serach_engine.Web.WebPage.{RssItem}

-- `load_xml` gives the document that `LoadXML` leaves, whatever error it returns; `fuel` bounds the
-- items of one file.
module _ {D E : Type 0} (xml : Xml D E) (format_text : Text → Text) (load_xml : Text → D)
    (entries : Text → Outcome (List Text)) (fuel : ℕ) where
  -- The first loop.
  unfoldable pub load_files : List Text → List RssItem → Option (Outcome (List RssItem))
  load_files [] rss = some (ok rss)
  load_files (file ∷ files) rss = elim (RssParser.load xml format_text fuel (load_xml file) rss) [
    | none ↦ none
    | some (fault e) ↦ some (fault e)
    | some (ok read) ↦ load_files files read
  ]

  -- `PageLib::Load`: the scanner's list and the library.
  unfoldable pub load : Settings → List Text → PageLib → Option (Outcome (List Text × PageLib))
  unfolding load_files
  load config list lib = elim (scan entries config list) [
    | fault e ↦ some (fault e)
    | ok files ↦ elim (load_files files lib.rss_items) [
      | none ↦ none
      | some (fault e) ↦ some (fault e)
      | some (ok rss) ↦ some (ok (files, PageLib.load (record lib { rss_items = rss })))
    ]
  ]
