-- ===== src/Web/WebPage.antt =====
-- `RssItem` and `WebPage` of src/include/web/web_page.h and src/web/web_page.cc. `W` is the type of
-- the keyword weights.
use serach_engine.Base.{ℕ, Text, Outcome, Fault, ok, fault, List, [], ◌∷◌, ◌++◌, Option, none, some}

pub record RssItem : Type 0 where
  pub title : Text
  pub link : Text
  pub author : Text
  pub description : Text

pub record WebPage (W : Type 0) : Type 0 where
  pub doc : Text
  pub rss_item : RssItem
  pub doc_abstract : Text
  pub doc_id : ℕ
  pub top_words : List Text
  pub keyword_list : List (Text × W)
  -- `none` as long as no number has been stored.
  pub simhash_value : Option ℕ
  pub term_frequencies : List (Text × ℕ)

module _ {W : Type 0} where
  -- `WebPage::WebPage(string&, RssItem&)`; `unset` is what the memory of
  -- `_doc_id` holds, which the caller sets before it is read.
  unfoldable pub init : ℕ → Text → RssItem → WebPage W
  init unset doc rss_item = record {
    doc = doc;
    rss_item = rss_item;
    doc_abstract = [];
    doc_id = unset;
    top_words = [];
    keyword_list = [];
    simhash_value = none;
    term_frequencies = [];
  }

  -- The loop of `WebPage::CreateAbstract`.
  unfoldable pub add_keywords : List (Text × W) → WebPage W → WebPage W
  add_keywords [] page = page
  add_keywords ((word, weight) ∷ rest) page = add_keywords rest (record page {
    top_words = page.top_words ++ word ∷ [];
    doc_abstract = page.doc_abstract ++ (word ++ 32 ∷ []);
  })

  -- `WebPage::CreateAbstract`, which is all that `ProcessDoc` does.
  unfoldable pub process_doc : WebPage W → WebPage W
  unfolding add_keywords
  process_doc page = add_keywords page.keyword_list page

  -- `GetDocId`, `GetDoc`, `GetKeyWordsList` and `GetSimHashValue`.
  unfoldable pub get_doc_id : WebPage W → ℕ
  get_doc_id page = page.doc_id

  unfoldable pub get_doc : WebPage W → Text
  get_doc page = page.doc

  unfoldable pub get_key_words_list : WebPage W → List (Text × W)
  get_key_words_list page = page.keyword_list

  -- A number that was not set is undefined to read.
  unfoldable pub get_sim_hash_value : WebPage W → Outcome ℕ
  get_sim_hash_value page = elim page.simhash_value [
    | none ↦ fault Fault.undefined
    | some hash ↦ ok hash
  ]

  -- The copy constructor, which reads every member.
  unfoldable pub copied : WebPage W → Outcome (WebPage W)
  copied page = elim page.simhash_value [ none ↦ fault Fault.undefined | some hash ↦ ok page ]
