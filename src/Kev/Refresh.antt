-- ===== src/Kev/Refresh.antt =====
-- What a refresh of the catalog does (backend/kev/updater.go).
use seagles.Common.{◌≡◌, ◌⊎◌, ◌∙◌, refl, ap, inl, inr, Option, none, some, arith, Option-cases, any}
use seagles.Text.{Text, text_eq}
use seagles.Breaker.Up.{IsUp, up_call, up_call_error}
use seagles.Breaker.{Error, Breaker, Times, execute}
use seagles.Kev.{
  after_call, do_request, NetError, KevCatalog, Updater, Response, FetchError, WriteResult, written,
  is_kev, load_kev, fetch_kev, refresh, start_kev_updater, empty_catalog, reload, reload_if,
  or_empty,
}
use seagles.Kev.Catalog.{has_id, indexed, load-indexed, knows-any}

-- A body that comes with status 200 is in the file, and no error is returned, whatever it is.
stored_body :
    (x : Breaker × Option Response × Option (Error NetError)) (body : Text) (file : Option Text)
    → x.1 ≡ some (record { status = 200; body = some body })
    → x.2 ≡ none
    → ((after_call written file x).1 ≡ some body) × ((after_call written file x).2 ≡ none)
stored_body (b, r, e) body file h k = (ground (arith, h, k), ground (arith, h, k))

fetched :
    (ts : Times) (b : Breaker) (body : Text) (file : Option Text)
    → IsUp b
    → let x = fetch_kev ts (some (record { status = 200; body = some body })) written b file in
      (x.1 ≡ some body) × (x.2 ≡ none)
unfolding fetch_kev
fetched ts b body file u =
    let fn = do_request (some (record { status = 200; body = some body })) in
    stored_body (execute fn ts b none) body file (up_call fn ts b none u refl).1
      (up_call_error fn ts b none u refl)

-- Without an answer the file stays.
unavailable :
    (ts : Times) (b : Breaker) (file : Option Text) → (fetch_kev ts none written b file).1 ≡ file
unfolding fetch_kev execute
unavailable ts b file = ground arith

module _ (unmarshal : Text → Option KevCatalog) where
  -- The catalog answers for a feed that stands in the cache file.
  abbrev pub Answers : Option Text → KevCatalog → Type 0
  Answers file c =
      (content : Text) × (feed : KevCatalog) × (file ≡ some content)
      × (unmarshal content ≡ some feed)
      × ((id : Text) → is_kev (some c) id ≡ any (has_id id) feed.vulnerabilities)

  reloaded :
      (file : Option Text) (c new : KevCatalog)
      → load_kev unmarshal file ≡ some new
      → Answers file (reload unmarshal (load_kev unmarshal file) c)
  unfolding load_kev
  reloaded none c new e = absurd (ground (arith, e))
  reloaded (some content) c new e = elim (Option-cases (unmarshal content)) [
    | inl h ↦ absurd (ground (arith, e, h))
    | inr (feed, h) ↦ (
      content,
      feed,
      refl,
      h,
      λ id.
          ap (λ (n : Option KevCatalog). is_kev (some (reload unmarshal n c)) id)
            (load-indexed unmarshal content feed h)
          ∙ knows-any (reload unmarshal (some (indexed feed)) c) feed.vulnerabilities id
              (unfold indexed in refl),
    )
  ]

  loads :
      (file : Option Text) (c : KevCatalog)
      → let c' = reload unmarshal (load_kev unmarshal file) c in (c' ≡ c) ⊎ Answers file c'
  loads file c = elim (Option-cases (load_kev unmarshal file)) [
    | inl e ↦ inl (rw e refl)
    | inr (new, e) ↦ inr (reloaded file c new e)
  ]

  loads_if :
      (err : Option FetchError) (file : Option Text) (c : KevCatalog)
      → let c' = reload_if unmarshal err file c in (c' ≡ c) ⊎ Answers file c'
  loads_if (some e) file c = inl refl
  loads_if none file c = loads file c

  -- A refresh either keeps the catalog as it is or leaves one that knows exactly the ids of the feed
  -- that now stands in the cache file.
  pub refresh_keeps_or_answers :
      (ts : Times) (answer : Option Response) (write : WriteResult) (u : Updater)
      → let u' = refresh unmarshal ts answer write u in
        (u'.catalog ≡ u.catalog) ⊎ Answers u'.file u'.catalog
  unfolding refresh
  refresh_keeps_or_answers ts answer write u =
      let (b', file', err) = fetch_kev ts answer write u.breaker u.file in
      loads_if err file' u.catalog

  -- If the breaker is closed and satisfies its invariant, and the file can be written, a fetch whose
  -- answer has status 200 returns
  -- no error and replaces the cache file by the body, also where the body is no catalog: a program
  -- that is started afterwards while the feed is down has then an empty catalog, whatever the cache
  -- file was before.
  pub bad_feed_empties_cache :
      (ts ts' : Times) (b b' : Breaker) (body : Text) (file : Option Text)
      → IsUp b
      → unmarshal body ≡ none
      → let x = fetch_kev ts (some (record { status = 200; body = some body })) written b file in
        (x.2 ≡ none)
        × (x.1 ≡ some body)
        × ((start_kev_updater unmarshal ts' none written b' x.1).catalog ≡ empty_catalog unmarshal)
  unfolding start_kev_updater load_kev
  bad_feed_empties_cache ts ts' b b' body file u n =
      let (stored, fine) = fetched ts b body file u in
      let kept = unavailable ts' b' _ ∙ stored in
      (
        fine,
        stored,
        ap (λ f. or_empty unmarshal (load_kev unmarshal f)) kept ∙ rw (or_empty, load_kev, n) refl,
      )
