-- ===== src/Kev.antt =====
-- backend/kev/updater.go: the catalog of known exploited vulnerabilities. The answer of the feed,
-- what writing a file does, and encoding/json are arguments; a file that is not there,
-- or cannot be read, is `none`. Case mapping is that of ASCII text.
pub mod Catalog
pub mod Refresh
use seagles.Common.{
  ℕ, ◌-◌, Bool, true, false, not, ◌&&◌, Option, none, some, List, [], ◌∷◌, leb, nat_beq, ◌==◌,
  if◌then◌else◌, length, map,
}
use seagles.Dict.{lookup, insert, is_some}
use seagles.Text.{Text, text_eq}
use seagles.Breaker.{Breaker, Times, Error, execute}

abbrev upper : ℕ → ℕ
upper c = if leb b'a' c && leb c b'z' then c - 32 else c

-- strings.ToUpper
unfoldable pub to_upper : Text → Text
to_upper = map upper

pub record KevEntry : Type 0 where
  pub cve_id : Text
  pub vendor_project : Text
  pub product : Text
  pub vulnerability_name : Text
  pub date_added : Text
  pub short_description : Text
  pub required_action : Text
  pub due_date : Text

-- `cve_index` is none for the nil map.
pub record KevCatalog : Type 0 where
  pub title : Text
  pub catalog_version : Text
  pub date_released : Text
  pub count : ℕ
  pub vulnerabilities : List KevEntry
  pub cve_index : Option (List (Text × KevEntry))

unfoldable pub index_loop : List KevEntry → List (Text × KevEntry) → List (Text × KevEntry)
unfolding to_upper
index_loop [] index = index
index_loop (e ∷ es) index = index_loop es (insert (to_upper e.cve_id) e index)

unfoldable pub build_index : KevCatalog → KevCatalog
unfolding index_loop
build_index c = record c { cve_index = some (index_loop c.vulnerabilities []) }

-- A nil catalog is none.
unfoldable pub get_kev_entry : Option KevCatalog → Text → Option KevEntry
unfolding to_upper
get_kev_entry none id = none
get_kev_entry (some c) id = elim c.cve_index [
  | none ↦ none
  | some index ↦ lookup (to_upper id) index
]

unfoldable pub is_kev : Option KevCatalog → Text → Bool
unfolding to_upper
is_kev none id = false
is_kev (some c) id = elim c.cve_index [
  | none ↦ false
  | some index ↦ is_some (lookup (to_upper id) index)
]

-- `body` is none where it cannot be read.
pub record Response : Type 0 where
  pub status : ℕ
  pub body : Option Text

pub data FetchError : Type 0 where
  download_failed bad_status read_failed save_failed : FetchError

-- The error of client.Do.
pub data NetError : Type 0 where
  no_answer : NetError

-- client.Do: no answer is an error.
abbrev pub do_request : Option Response → Option Response → Option Response × Option NetError
do_request none w = (none, some no_answer)
do_request (some r) w = (some r, none)

-- os.WriteFile truncates the file first: where it fails it may leave anything.
pub data WriteResult : Type 0 where
  written : WriteResult
  torn : Option Text → WriteResult

abbrev pub stored : WriteResult → Text → Option Text × Option FetchError
stored written body = (some body, none)
stored (torn left) body = (left, some save_failed)

abbrev pub save_body : WriteResult → Option Text → Option Response → Option Text × Option FetchError
save_body write file none = (file, some download_failed)
save_body write file (some r) =
    if nat_beq r.status 200
    then (elim r.body [ none ↦ (file, some read_failed) | some body ↦ stored write body ])
    else (file, some bad_status)

abbrev pub after_call :
    WriteResult
    → Option Text
    → Breaker × Option Response × Option (Error NetError)
    → Breaker × Option Text × Option FetchError
after_call write file (b, resp, some e) = (b, file, some download_failed)
after_call write file (b, resp, none) =
    let (file', err) = save_body write file resp in (b, file', err)

-- The arguments are the clock readings of the breaker, the answer of the feed, what the write of the
-- cache file does, and its content.
unfoldable pub fetch_kev :
    Times
    → Option Response
    → WriteResult
    → Breaker
    → Option Text
    → Breaker × Option Text × Option FetchError
unfolding execute
fetch_kev ts answer write b file = after_call write file (execute (do_request answer) ts b none)

-- The state of the updater: the breaker, the cache file and the catalog.
pub record Updater : Type 0 where
  pub breaker : Breaker
  pub file : Option Text
  pub catalog : KevCatalog

module _ (unmarshal : Text → Option KevCatalog) where
  unfoldable pub load_kev : Option Text → Option KevCatalog
  unfolding build_index
  load_kev none = none
  load_kev (some content) = elim (unmarshal content) [
    | none ↦ none
    | some c ↦ some (build_index (record c { count = length c.vulnerabilities }))
  ]

  abbrev pub reload : Option KevCatalog → KevCatalog → KevCatalog
  reload none c = c
  reload (some new) c = record c {
    vulnerabilities = new.vulnerabilities;
    count = new.count;
    catalog_version = new.catalog_version;
    date_released = new.date_released;
    cve_index = new.cve_index;
  }

  abbrev pub empty_catalog : KevCatalog
  empty_catalog = record {
    title = [];
    catalog_version = [];
    date_released = [];
    count = 0;
    vulnerabilities = [];
    cve_index = some [];
  }

  abbrev pub or_empty : Option KevCatalog → KevCatalog
  or_empty none = empty_catalog
  or_empty (some c) = c

  -- `StartKEVUpdater` up to the goroutine.
  unfoldable pub start_kev_updater :
      Times → Option Response → WriteResult → Breaker → Option Text → Updater
  unfolding fetch_kev load_kev
  start_kev_updater ts answer write b file =
      let (b', file', err) = fetch_kev ts answer write b file in
      record { breaker = b'; file = file'; catalog = or_empty (load_kev file') }

  abbrev pub reload_if : Option FetchError → Option Text → KevCatalog → KevCatalog
  reload_if (some e) file c = c
  reload_if none file c = reload (load_kev file) c

  -- One tick of the goroutine.
  unfoldable pub refresh : Times → Option Response → WriteResult → Updater → Updater
  unfolding fetch_kev load_kev
  refresh ts answer write u =
      let (b', file', err) = fetch_kev ts answer write u.breaker u.file in
      record { breaker = b'; file = file'; catalog = reload_if err file' u.catalog }
