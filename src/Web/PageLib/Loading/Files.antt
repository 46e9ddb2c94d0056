-- ===== src/Web/PageLib/Loading/Files.antt =====
-- The library that `PageLib::Load` of src/web/page_lib.cc makes of the files.
use serach_engine.Base.{
  ℕ, zero, suc, ◌∙◌, ◌+◌, ◌≤◌, ◌≡◌, refl, sym, ap, Text, bytes, Outcome, ok, List, [], ◌∷◌, ◌++◌,
  some, length, length-append,
}
use mathlib.Core.List.{append-nil, append_assoc}
use serach_engine.Common.Configuration.{Settings, setting}
use serach_engine.Common.DirScanner.{scan, traverse}
use serach_engine.Web.PageLib.{PageLib, format_pages}
use serach_engine.Web.PageLib as PageLib
use serach_engine.Web.PageLib.Loading.{load_files, load}
use serach_engine.Web.RssParser.{Xml, init, repeat, blank}
use serach_engine.Web.RssParser.Items.{HasItems, load-HasItems}
use serach_engine.Web.WebPage.{RssItem}

pub length-format_pages :
    (n : ℕ) (items : List RssItem) → length (format_pages n items) ≡ length items
unfolding format_pages
length-format_pages n [] = refl
length-format_pages n (item ∷ items) = ap suc (length-format_pages (suc n) items)

length-repeat : (n : ℕ) (item : RssItem) → length (repeat n item) ≡ n
unfolding repeat
length-repeat zero item = refl
length-repeat (suc n) item = ap suc (length-repeat n item)

length-init : length init ≡ 1000
unfolding init
length-init = length-repeat 1000 blank

-- A new library.
abbrev pub fresh : PageLib
fresh = record { rss_items = init; ripe_pages = []; offset_lib = [] }

pub init-repeat : init ≡ repeat 1000 blank
unfolding init
init-repeat = refl

fresh_pages :
    (all : List RssItem)
    → (PageLib.load (record fresh { rss_items = init ++ all })).ripe_pages
      ≡ format_pages 0 (repeat 1000 blank ++ all)
unfolding PageLib.load
fresh_pages all = ap (λ l. format_pages 0 (l ++ all)) init-repeat

length-fresh :
    (all : List RssItem)
    → length (PageLib.load (record fresh { rss_items = init ++ all })).ripe_pages
      ≡ 1000 + length all
unfolding PageLib.load
length-fresh all =
    length-format_pages 0 (init ++ all)
    ∙ length-append init all
    ∙ ap (λ n. n + length all) length-init

module _ {D E : Type 0} (xml : Xml D E) (format_text : Text → Text) (load_xml : Text → D)
    (entries : Text → Outcome (List Text)) (fuel : ℕ) where
  -- A file and the items that its document has.
  pub record IsParsed (file : Text) (items : List RssItem) : Type 0 where
    pub enough : length items ≤ fuel
    pub has_items : HasItems xml format_text (load_xml file) items

  -- The files, one after the other, have these items in all.
  pub data AreParsed : List Text → List RssItem → Type 0 where
    nothing : AreParsed [] []
    then :
        {file : Text} {items : List RssItem} {files : List Text} {rest : List RssItem}
        → IsParsed file items
        → AreParsed files rest
        → AreParsed (file ∷ files) (items ++ rest)

  load_files-AreParsed :
      {files : List Text} {all : List RssItem} (others : List Text) (rss : List RssItem)
      → AreParsed files all
      → load_files xml format_text load_xml entries fuel (files ++ others) rss
        ≡ load_files xml format_text load_xml entries fuel others (rss ++ all)
  unfolding load_files
  load_files-AreParsed others rss nothing = rw (append-nil rss) refl
  load_files-AreParsed others rss (then {file} {items} {files} {rest} p ps) =
      rw
        (
          load_files,
          load-HasItems xml format_text fuel (load_xml file) items rss p.enough p.has_items,
          ← append_assoc rss items rest,
        )
        (load_files-AreParsed others (rss ++ items) ps)

  pub load-AreParsed :
      (config : Settings) (files : List Text) (all : List RssItem) (lib : PageLib)
      → entries (setting config (bytes "dir_people")) ≡ ok files
      → AreParsed files all
      → load xml format_text load_xml entries fuel config [] lib
        ≡ some (ok (files, PageLib.load (record lib { rss_items = lib.rss_items ++ all })))
  unfolding load scan traverse load_files
  load-AreParsed config files all lib listed parsed =
      let read : load_files xml format_text load_xml entries fuel files lib.rss_items
          ≡ some (ok (lib.rss_items ++ all)) =
        ap (λ l. load_files xml format_text load_xml entries fuel l lib.rss_items)
          (sym (append-nil files))
        ∙ load_files-AreParsed [] lib.rss_items parsed in
      rw (load, scan, traverse, listed, read) refl

  -- When the directory iterator gives the files and each is a document with a channel, whose items
  -- have a text wherever they have a field and are no more than the fuel, Load on a new library
  -- succeeds; the pages are those of 1000 blank items and then of the items of all files in order,
  -- so there are 1000 more than items.
  pub load-fresh :
      (config : Settings) (files : List Text) (all : List RssItem)
      → entries (setting config (bytes "dir_people")) ≡ ok files
      → AreParsed files all
      → (lib : PageLib) × (load xml format_text load_xml entries fuel config [] fresh
          ≡ some (ok (files, lib)))
        × (lib.ripe_pages ≡ format_pages 0 (repeat 1000 blank ++ all))
        × (length lib.ripe_pages ≡ 1000 + length all)
  load-fresh config files all listed parsed = (
    PageLib.load (record fresh { rss_items = init ++ all }),
    load-AreParsed config files all fresh listed parsed,
    fresh_pages all,
    length-fresh all,
  )
