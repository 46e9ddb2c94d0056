-- ===== src/Web/Building/Files.antt =====
-- From the files to the index: `Load` of src/web/page_lib.cc and then `Do` of
-- src/web/page_lib_preprocessor.cc.
use serach_engine.Base.{
  ℕ, ◌≤◌, ◌≡◌, refl, Text, bytes, Outcome, Fault, ok, fault, Bool, List, [], ◌++◌, some, length,
  arith, inl,
}
use serach_engine.Common.Configuration.{Settings, setting}
use serach_engine.Web.Building.Sound.{fresh}
use serach_engine.Web.Building.Undefined.{HasBlank, do_all-undefined}
use serach_engine.Web.Building.{do_all}
use serach_engine.Web.Double.{Double}
use serach_engine.Web.PageLib.Loading.Files.{AreParsed, load-AreParsed, length-format_pages}
use serach_engine.Web.PageLib.Loading.Files as Loaded
use serach_engine.Web.PageLib.Loading.{load}
use serach_engine.Web.PageLib.{PageLib, format_pages}
use serach_engine.Web.PageLib as PageLib
use serach_engine.Web.RssParser.{Xml, init, repeat}
use serach_engine.Web.WebPage.{RssItem}

length-ripe_pages :
    (items : List RssItem)
    → length (PageLib.load (record Loaded.fresh { rss_items = items })).ripe_pages ≤ length items
unfolding PageLib.load
length-ripe_pages items = omega (arith, length-format_pages 0 items)

-- The first of the 1000 items that the parser begins with is blank.
ripe_pages-HasBlank :
    (all : List RssItem)
    → HasBlank
        (PageLib.load (record Loaded.fresh { rss_items = init ++ all })).ripe_pages
        (init ++ all)
unfolding PageLib.load format_pages init repeat
ripe_pages-HasBlank all = inl refl

module _ {Document Element : Type 0} (xml : Xml Document Element) (format_text : Text → Text)
    (load_xml : Text → Document) (entries : Text → Outcome (List Text)) (fuel : ℕ) where
  -- When the directory iterator gives the files and each is a document with a channel, whose items
  -- have a text wherever they have a field and are no more than the fuel, Load on a new library
  -- succeeds, and Do on that library and an empty preprocessor is undefined, whatever the
  -- segmenter, the extractor and the similarity test are.
  pub load-do_undefined :
      (D : Double) (extract : Text → List (Text × D.Carrier)) (make : Text → ℕ)
      (is_equal : ℕ → ℕ → Bool) (cut : Text → List (Text × ℕ) → List (Text × ℕ)) (config : Settings)
      (files : List Text) (all : List RssItem) (unset : ℕ)
      → entries (setting config (bytes "dir_people")) ≡ ok files
      → AreParsed xml format_text load_xml entries fuel files all
      → (lib : PageLib) × (load xml format_text load_xml entries fuel config [] Loaded.fresh
          ≡ some (ok (files, lib)))
        × (do_all D extract make is_equal cut unset lib.ripe_pages lib.rss_items (fresh D.Carrier)
            ≡ fault Fault.undefined)
  unfolding PageLib.load
  load-do_undefined D extract make is_equal cut config files all unset listed parsed =
      let lib = PageLib.load (record Loaded.fresh { rss_items = init ++ all }) in
      (
        lib,
        load-AreParsed xml format_text load_xml entries fuel config files all Loaded.fresh listed
            parsed,
        do_all-undefined D extract make is_equal cut unset lib.ripe_pages (init ++ all)
            (length-ripe_pages (init ++ all)) (ripe_pages-HasBlank all),
      )
