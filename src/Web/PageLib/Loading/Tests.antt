-- ===== src/Web/PageLib/Loading/Tests.antt =====
-- The library made of two small files.
use serach_engine.Base.{
  ◌+◌, ◌≡◌, refl, Text, bytes, Outcome, Fault, ok, fault, List, [], ◌∷◌, ◌++◌, Option, none, some,
  length, text_eq, ◌==◌, same, if◌then◌else◌, arith, ℕ, nat_beq,
}
use serach_engine.Base.Maps.{find}
use serach_engine.Web.Building.Files.{load-do_undefined}
use serach_engine.Web.Building.Sound as Sound
use serach_engine.Web.Building.{do_all}
use serach_engine.Web.Counting.{counting}
use serach_engine.Common.Configuration.{Settings, setting}
use serach_engine.Web.PageLib.{PageLib, format_pages}
use serach_engine.Web.PageLib.Loading.{load}
use serach_engine.Web.PageLib.Loading.Files.{AreParsed, IsParsed, fresh, load-fresh}
use serach_engine.Web.RssParser.{Xml, repeat, blank, read_item, text_of, description_of}
use serach_engine.Web.RssParser.Items.{IsListed}
use serach_engine.Web.WebPage.{RssItem}

-- A document is its channel's items; an element is named by what stands at it.
data Node : Type 0 where
  top channel : Node
  item : Text → Node
  title : Text → Node

child : Node → Text → Option Node
child top name = some channel
child channel name = some (item (bytes "a"))
child (item t) name = if name == bytes "title" then some (title t) else none
child (title t) name = none

text_at : Node → Option Text
text_at top = none
text_at channel = none
text_at (item t) = none
text_at (title t) = some t

-- The file "x" is not XML.
abbrev dom : Xml Text Node
dom = record {
  root = λ file name. if file == bytes "x" then none else some top;
  first_child_element = child;
  next_sibling_element = λ e name. none;
  get_text = text_at;
}

abbrev one : RssItem
one = record { title = bytes "a"; link = []; author = []; description = [] }

one_listed : IsListed dom (λ s. s) (some (item (bytes "a"))) (one ∷ [])
unfolding IsListed read_item text_of description_of child text_at same
one_listed = (item (bytes "a"), refl, refl, refl)

abbrev listing : Text → Outcome (List Text)
listing dir = if dir == bytes "d" then ok (bytes "f" ∷ []) else ok (bytes "f" ∷ bytes "x" ∷ [])

abbrev people : Settings
people = (bytes "dir_people", bytes "d") ∷ []

one-IsParsed : IsParsed dom (λ s. s) (λ s. s) listing 5 (bytes "f") (one ∷ [])
unfolding child same
one-IsParsed = record {
  enough = omega arith;
  has_items = record {
    top = top;
    channel = channel;
    is_rss = refl;
    is_channel = refl;
    listed = one_listed;
  };
}

one_file : AreParsed dom (λ s. s) (λ s. s) listing 5 (bytes "f" ∷ []) (one ∷ [])
one_file = AreParsed.then one-IsParsed AreParsed.nothing

load-fresh_example :
    (lib : PageLib) × (load dom (λ s. s) (λ s. s) listing 5 people [] fresh
      ≡ some (ok (bytes "f" ∷ [], lib)))
    × (lib.ripe_pages ≡ format_pages 0 (repeat 1000 blank ++ one ∷ []))
    × (length lib.ripe_pages ≡ 1000 + length (one ∷ []))
unfolding setting find same
load-fresh_example =
    load-fresh dom (λ s. s) (λ s. s) listing 5 people (bytes "f" ∷ []) (one ∷ []) refl one_file

load-do_undefined_example :
    (lib : PageLib) × (load dom (λ s. s) (λ s. s) listing 5 people [] fresh
      ≡ some (ok (bytes "f" ∷ [], lib)))
    × (do_all counting
          (λ s. [])
          (λ s. 0)
          nat_beq
          (λ s terms. terms)
          0
          lib.ripe_pages
          lib.rss_items
          (Sound.fresh ℕ)
        ≡ fault Fault.undefined)
unfolding setting find same
load-do_undefined_example =
    load-do_undefined dom (λ s. s) (λ s. s) listing 5 counting (λ s. []) (λ s. 0) nat_beq
      (λ s terms. terms) people (bytes "f" ∷ []) (one ∷ []) 0 refl one_file
