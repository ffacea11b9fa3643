-- ===== src/Tests/Routes.antt =====
-- A request of a signed-in user on its way to a protected route, and the feed of known exploited
-- vulnerabilities (backend/api/router.go, backend/kev/updater.go).
use seagles.Common.{
  arith, ◌+◌, ◌≡◌, ◌⊎◌, refl, true, Option, none, some, [], ◌∷◌, ◌++◌, ◌==◌, if◌then◌else◌,
}
use seagles.Common.Int.{pos}
use seagles.Clock.{second}
use seagles.Text.{Text, codes, text_eq, has_prefix, contains, cut, to_lower}
use seagles.Dict.{insert, lookup, retain}
use seagles.Auth.Middleware.{
  Context, next, set_user, auth_middleware, bearer_token, require_password_change, require_role,
  may_reach,
}
use seagles.Auth.Roles.{role_hierarchy, min_level}
use seagles.Auth.Tokens.{validate_access_token, verify_rs256, split_token, check_claims}
use seagles.Blacklist.{is_blacklisted}
use seagles.Csrf.{csrf_middleware, set_csrf_token}
use seagles.RateLimit.{allow, charge, find_rule, key}
use seagles.Sanitize.{Value, sanitize_input}
use seagles.Router.{
  HttpRequest, Shared, require, start, reached, serve_protected, global_chain, limit_and_sanitize,
  protected_chain,
}
use seagles.Router.Reached.{Cleared, Authentic, protected_reached}
use seagles.Breaker.Sequential.{Inv}
use seagles.Breaker.{execute, enter, leave}
use seagles.Kev.{
  KevEntry, KevCatalog, Updater, Response, fetch_kev, written, refresh, start_kev_updater,
  empty_catalog, is_kev, load_kev, build_index, index_loop, to_upper,
}
use seagles.Kev.Refresh.{Answers, refresh_keeps_or_answers, bad_feed_empties_cache}
use seagles.Tests.Auth.Codec.{codec, ann, jti, issued, token, unpack}
use seagles.Tests.Auth.Access.{nothing}
use seagles.Tests.Breaker.{closed_at, at_time}

abbrev get : HttpRequest
get = record {
  method = codes "GET";
  path = codes "/api/v1/devices";
  client_ip = codes "10.0.0.7";
  authorization = codes "Bearer " ++ token;
  csrf_token = [];
  content_type = codes "application/json";
  content_length = pos 0;
  request_id = codes "r1";
  body = none;
}

abbrev shared : Shared
shared = record {
  csrf = record { tokens = []; max_age = 100 };
  limiter = record {
    visitors = [];
    fallback = record { path = []; method = []; limit = pos 5; window = 50 };
    rules = [];
  };
}

abbrev same : Text → Text
same t = t

abbrev parse : Text → Option Value
parse t = none

abbrev print : Value → Option Text
print v = none

abbrev signed_in : Context
signed_in = set_user (record ann { email = []; token_id = jti }) (start get)

get_served :
    (serve_protected same parse print codec nothing get
      (some (codes "viewer"))
      (codes "c1")
      (issued + second)
      shared).1
    ≡ reached signed_in none
unfolding serve_protected global_chain limit_and_sanitize csrf_middleware set_csrf_token allow
    charge find_rule key sanitize_input has_prefix insert lookup retain protected_chain require
    require_role auth_middleware bearer_token cut to_lower set_user validate_access_token
    verify_rs256 split_token check_claims unpack is_blacklisted require_password_change may_reach
    role_hierarchy min_level contains
get_served = refl

protected_reached_example :
    Cleared same parse print (codes "c1") (issued + second) get shared none
    × Authentic codec (issued + second) nothing get signed_in
    × (require (some (codes "viewer")) signed_in ≡ next signed_in)
protected_reached_example =
    protected_reached same parse print (codes "c1") (issued + second) codec nothing get
      (some (codes "viewer")) shared signed_in none get_served

abbrev entry : KevEntry
entry = record {
  cve_id = codes "cve-2024-1";
  vendor_project = [];
  product = [];
  vulnerability_name = [];
  date_added = [];
  short_description = [];
  required_action = [];
  due_date = [];
}

abbrev feed : KevCatalog
feed = record {
  title = [];
  catalog_version = codes "2";
  date_released = [];
  count = 7;
  vulnerabilities = entry ∷ [];
  cve_index = none;
}

-- Any text but the page of a proxy is the feed.
abbrev read : Text → Option KevCatalog
read t = if t == codes "<html>" then none else some feed

abbrev answer : Text → Option Response
answer t = some (record { status = 200; body = some t })

abbrev updater : Updater
updater = record { breaker = closed_at 5 0; file = none; catalog = empty_catalog read }

refresh_keeps_or_answers_example :
    let u = refresh read (at_time 3) (answer (codes "{}")) written updater in
    (u.catalog ≡ empty_catalog read) ⊎ Answers read u.file u.catalog
refresh_keeps_or_answers_example =
    refresh_keeps_or_answers read (at_time 3) (answer (codes "{}")) written updater

-- The id is found in any case of its letters.
refresh_run :
    is_kev
      (some (refresh read (at_time 3) (answer (codes "{}")) written updater).catalog)
      (codes "CVE-2024-1")
    ≡ true
unfolding refresh fetch_kev load_kev execute enter leave build_index index_loop is_kev to_upper
    insert lookup
refresh_run = refl

up_Inv : Inv (closed_at 5 0)
up_Inv = ground arith

bad_feed_empties_cache_example :
    let x =
      fetch_kev (at_time 3) (answer (codes "<html>")) written (closed_at 5 0) (some (codes "{}")) in
    (x.2 ≡ none)
    × (x.1 ≡ some (codes "<html>"))
    × ((start_kev_updater read (at_time 9) none written (closed_at 5 1) x.1).catalog
        ≡ empty_catalog read)
bad_feed_empties_cache_example =
    bad_feed_empties_cache read (at_time 3) (at_time 9) (closed_at 5 0) (closed_at 5 1)
      (codes "<html>") (some (codes "{}")) (up_Inv, refl) refl
