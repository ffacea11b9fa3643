-- ===== src/Kev/Catalog.antt =====
-- Which vulnerabilities a catalog knows (backend/kev/updater.go).
use seagles.Common.{
  ◌≡◌, ◌∙◌, refl, ap, inl, inr, Bool, false, ◌||◌, Option, none, some, List, [], ◌∷◌, arith, ◌==◌,
  if◌then◌else◌, Bool-cases, any, length,
}
use seagles.Dict.{lookup, insert, lookup-insert, is_some}
use seagles.Text.{Text, text_eq}
use seagles.Kev.{
  KevEntry, KevCatalog, index_loop, build_index, is_kev, get_kev_entry, load_kev, to_upper,
}

-- The entries of a list that have an id, in any case of the letters, and the last of them.
abbrev pub has_id : Text → KevEntry → Bool
has_id id e = to_upper e.cve_id == to_upper id

abbrev pub last_with : Text → List KevEntry → Option KevEntry → Option KevEntry
last_with id [] found = found
last_with id (e ∷ es) found = last_with id es (if has_id id e then some e else found)

index-last :
    (id : Text) (es : List KevEntry) (index : List (Text × KevEntry))
    → lookup (to_upper id) (index_loop es index) ≡ last_with id es (lookup (to_upper id) index)
unfolding index_loop
index-last id [] index = refl
index-last id (e ∷ es) index =
    index-last id es (insert (to_upper e.cve_id) e index)
    ∙ ap (last_with id es) (lookup-insert (to_upper e.cve_id) (to_upper id) e index)

last-some :
    (id : Text) (es : List KevEntry) (found : Option KevEntry)
    → is_some (last_with id es found) ≡ (any (has_id id) es || is_some found)
last-some id [] found = refl
last-some id (e ∷ es) found = elim (Bool-cases (has_id id e)) [
  | inl h ↦ rw h (last-some id es (some e) ∙ ground arith)
  | inr h ↦ rw h (last-some id es found)
]

or_false : (b : Bool) → (b || false) ≡ b
or_false b = ground arith

unfoldable pub indexed : KevCatalog → KevCatalog
indexed feed = record feed {
  count = length feed.vulnerabilities;
  cve_index = some (index_loop feed.vulnerabilities []);
}

pub load-indexed :
    (unmarshal : Text → Option KevCatalog) (content : Text) (feed : KevCatalog)
    → unmarshal content ≡ some feed
    → load_kev unmarshal (some content) ≡ some (indexed feed)
unfolding load_kev build_index indexed
load-indexed unmarshal content feed h = rw (load_kev, h) refl

-- Whatever the other fields of a catalog are, its index decides.
pub knows-any :
    (c : KevCatalog) (es : List KevEntry) (id : Text)
    → c.cve_index ≡ some (index_loop es [])
    → is_kev (some c) id ≡ any (has_id id) es
unfolding is_kev lookup
knows-any c es id h =
    rw (is_kev, h)
      (ap is_some (index-last id es []) ∙ last-some id es none ∙ or_false (any (has_id id) es))

entry-last :
    (c : KevCatalog) (es : List KevEntry) (id : Text)
    → c.cve_index ≡ some (index_loop es [])
    → get_kev_entry (some c) id ≡ last_with id es none
unfolding get_kev_entry lookup
entry-last c es id h = rw (get_kev_entry, h) (index-last id es [])

-- In a catalog that has been loaded, an id is known exactly if some entry of the feed has it, in any
-- case of the letters, and the entry that is returned is the last one that has it.
pub load_kev_knows :
    (unmarshal : Text → Option KevCatalog) (content id : Text) (feed : KevCatalog)
    → unmarshal content ≡ some feed
    → (is_kev (load_kev unmarshal (some content)) id ≡ any (has_id id) feed.vulnerabilities)
      × (get_kev_entry (load_kev unmarshal (some content)) id
          ≡ last_with id feed.vulnerabilities none)
unfolding indexed
load_kev_knows unmarshal content id feed h =
    let e = load-indexed unmarshal content feed h in
    (
      ap (λ c. is_kev c id) e ∙ knows-any (indexed feed) feed.vulnerabilities id refl,
      ap (λ c. get_kev_entry c id) e ∙ entry-last (indexed feed) feed.vulnerabilities id refl,
    )
