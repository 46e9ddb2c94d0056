-- ===== src/Web/PageLib/Offsets.antt =====
-- The two files that `PageLib::StoreOnDisk` of src/web/page_lib.cc writes: the offset file locates
-- the pages in the page file.
use serach_engine.Base.{
  Bool, none, bytes, if◌then◌else◌, ℕ, suc, ◌+◌, ◌-◌, ◌≡◌, refl, sym, ap, ◌∙◌, Text, ok, List, [],
  ◌∷◌, ◌++◌, some, length, length-append, get_elem?, take, drop, nat_eq, arith,
}
use serach_engine.Base.Maps.{insert, unordered}
use serach_engine.Web.PageLib.{
  Offsets, PageLib, Written, page_file, write_offsets, written, store_on_disk,
}

-- Record by record: the number of the page, and where its text stands in the file.
abbrev pub IsLocated : ℕ → List Text → Offsets → Text → Type 0
IsLocated id [] [] file = Unit {0}
IsLocated id [] (r ∷ records) file = ⊥
IsLocated id (page ∷ pages) [] file = ⊥
IsLocated id (page ∷ pages) ((doc_id, (offset, size)) ∷ records) file =
    (doc_id ≡ id) × (take size (drop offset file) ≡ page) × IsLocated (suc id) pages records file

append_assoc {ℓ} : {A : Type ℓ} (xs ys zs : List A) → (xs ++ ys) ++ zs ≡ xs ++ (ys ++ zs)
append_assoc [] ys zs = refl
append_assoc (x ∷ xs) ys zs = ap (◌∷◌ x) (append_assoc xs ys zs)

append_nil {ℓ} : {A : Type ℓ} (xs : List A) → xs ++ [] ≡ xs
append_nil [] = refl
append_nil (x ∷ xs) = ap (◌∷◌ x) (append_nil xs)

drop-append {ℓ} : {A : Type ℓ} (xs ys : List A) → drop (length xs) (xs ++ ys) ≡ ys
drop-append [] ys = refl
drop-append (x ∷ xs) ys = drop-append xs ys

take-append {ℓ} : {A : Type ℓ} (xs ys : List A) → take (length xs) (xs ++ ys) ≡ xs
take-append [] ys = refl
take-append (x ∷ xs) ys = ap (◌∷◌ x) (take-append xs ys)

get_elem?-append {ℓ} :
    {A : Type ℓ} (xs : List A) (y : A) (ys : List A) → get_elem? (xs ++ y ∷ ys) (length xs) ≡ some y
get_elem?-append [] y ys = refl
get_elem?-append (x ∷ xs) y ys = get_elem?-append xs y ys

page_file-append : (xs ys : List Text) → page_file (xs ++ ys) ≡ page_file xs ++ page_file ys
unfolding page_file
page_file-append [] ys = refl
page_file-append (x ∷ xs) ys =
    ap (◌++◌ x) (page_file-append xs ys) ∙ sym (append_assoc x (page_file xs) (page_file ys))

-- The text at a page's offset is the page.
page_file-locates :
    (done : List Text) (page : Text) (rest : List Text)
    → take (length page) (drop (length (page_file done)) (page_file (done ++ page ∷ rest))) ≡ page
unfolding page_file
page_file-locates done page rest =
    rw (page_file-append done (page ∷ rest), drop-append (page_file done) (page ++ page_file rest))
      (take-append page (page_file rest))

length-page_file-snoc :
    (done : List Text) (page : Text)
    → length (page_file (done ++ page ∷ [])) ≡ length (page_file done) + length page
unfolding page_file
length-page_file-snoc done page =
    rw (page_file-append done (page ∷ []), append_nil page) (length-append (page_file done) page)

-- What the loop returns, from the pages done.
abbrev IsWritten : List Text → List Text → List Text → ℕ → ℕ → Written → Type 0
IsWritten ripe done pages doc_id offset w =
    (w' : Written) × (records : Offsets) × ((write_offsets ripe doc_id offset pages w ≡ ok w')
      × ((w'.records ≡ w.records ++ records) × IsLocated doc_id pages records (page_file ripe)))

write_offsets-IsWritten :
    (ripe done pages : List Text) (doc_id offset : ℕ) (w : Written)
    → done ++ pages ≡ ripe
    → doc_id ≡ suc (length done)
    → offset ≡ length (page_file done)
    → IsWritten ripe done pages doc_id offset w
unfolding write_offsets
write_offsets-IsWritten ripe done [] doc_id offset w e i o =
    (w, [], (refl, (sym (append_nil w.records), tt)))
write_offsets-IsWritten ripe done (page ∷ rest) doc_id offset w e i o =
    let index : doc_id - 1 ≡ length done = omega (arith, i) in
    let own : get_elem? ripe (doc_id - 1) ≡ some page =
      rw (index, sym e) (get_elem?-append done page rest) in
    let text : take (length page) (drop offset (page_file ripe)) ≡ page =
      rw (sym e, o) (page_file-locates done page rest) in
    let w₁ : Written = record {
      records = w.records ++ (doc_id, (offset, length page)) ∷ [];
      offsets = insert unordered (suc doc_id) (offset + length page, length page) w.offsets;
    } in
    let (w', records, (run, (r, l))) =
      write_offsets-IsWritten ripe (done ++ page ∷ []) rest (suc doc_id) (offset + length page) w₁
        (append_assoc done (page ∷ []) rest ∙ e) (omega (arith, i, length-append done (page ∷ [])))
        (omega (arith, o, length-page_file-snoc done page)) in
    (
      w',
      (doc_id, (offset, length page)) ∷ records,
      (
        rw (own, write_offsets) run,
        (
          r ∙ append_assoc w.records ((doc_id, (offset, length page)) ∷ []) records,
          (refl, text, l),
        ),
      ),
    )

-- StoreOnDisk returns for every library. Its page file, when it can be opened, holds the ripe
-- pages one behind the other, and its offset file, when it can be opened, has one record for each,
-- in order, numbered from 1, whose size and offset locate that page in the page file; a file that
-- cannot be opened gets nothing.
pub store_on_disk-IsLocated :
    (opens : Text → Bool) (lib : PageLib)
    → (records offsets : Offsets) × ((store_on_disk opens lib
          ≡ ok (
            if opens (bytes "../../data/database/ripe_page.dat")
                then some (page_file lib.ripe_pages)
                else none,
            (
              if opens (bytes "../../data/database/offset_lib.dat") then some records else none,
              record lib { offset_lib = offsets },
            ),
          ))
        × IsLocated 1 lib.ripe_pages records (page_file lib.ripe_pages))
unfolding store_on_disk written
store_on_disk-IsLocated opens lib =
    let (w, records, (run, (r, l))) =
      write_offsets-IsWritten lib.ripe_pages [] lib.ripe_pages 1 0
        (record { records = []; offsets = lib.offset_lib }) refl refl refl in
    (records, w.offsets, (rw (run, r) refl, l))
