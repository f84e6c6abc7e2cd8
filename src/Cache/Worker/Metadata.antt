-- ===== src/Cache/Worker/Metadata.antt =====
-- The headers of a served object.
use nearby_payments_api.Base.{
  ◌≡◌, refl, ◌≢◌, inl, inr, Option, some, [], Text, codes, text_eq, Bool-cases, List-cases,
  if◌then◌else◌,
}
use nearby_payments_api.Cache.Http.{Headers, get_header, get_header-set_header}
use nearby_payments_api.Cache.Http.Decimal.{to_decimal, parse_decimal, parse_decimal-to_decimal}
use nearby_payments_api.Cache.Bucket.{R2Bucket, R2Object, IsConsistent}
use nearby_payments_api.Cache.Worker.{maven_object_headers, cache_object_headers, falsy}

-- The headers tell the size of the object, in decimal digits, and its tag.
abbrev pub Describes : R2Object → Headers → Type 0
Describes o h =
    ((digits : Text) × (get_header (codes "content-length") h ≡ some digits)
      × (parse_decimal digits ≡ o.size))
    × (get_header (codes "etag") h ≡ some o.http_etag)

cache_object_headers-get :
    (o : R2Object)
    → (get_header (codes "content-length") (cache_object_headers o) ≡ some (to_decimal o.size))
      × (get_header (codes "etag") (cache_object_headers o) ≡ some o.http_etag)
      × (get_header (codes "cache-control") (cache_object_headers o)
          ≡ some (codes "private, max-age=31536000, immutable"))
unfolding cache_object_headers get_header text_eq
cache_object_headers-get o = (refl, refl, refl)

module _ (r2 : R2Bucket) (o : R2Object) where
  abbrev content_type_of : Headers → Option Text
  content_type_of = get_header (codes "content-type")

  abbrev written : Headers
  written = r2.write_http_metadata o []

  -- The content type that the bucket writes stays, unless it is missing or empty.
  maven-content_type : content_type_of (maven_object_headers r2 o) ≡ (
      if falsy (content_type_of written)
      then some (codes "text/plain")
      else content_type_of written)
  unfolding maven_object_headers text_eq
  maven-content_type = elim (Bool-cases (falsy (content_type_of written))) [
    | inl e ↦ simp (get_header-set_header, e)
    | inr e ↦ simp (get_header-set_header, e)
  ]

  maven_object_headers-get :
      (get_header (codes "content-length") (maven_object_headers r2 o) ≡ some (to_decimal o.size))
      × (get_header (codes "etag") (maven_object_headers r2 o) ≡ some o.http_etag)
      × (get_header (codes "cache-control") (maven_object_headers r2 o)
          ≡ some (codes "public, max-age=300"))
  unfolding maven_object_headers text_eq
  maven_object_headers-get = elim (Bool-cases (falsy (content_type_of written))) [
    | inl e ↦ simp (get_header-set_header, e) (refl, refl, refl)
    | inr e ↦ simp (get_header-set_header, e) (refl, refl, refl)
  ]

  -- Both handlers describe the object truly, whatever the bucket writes of its metadata; only Maven
  -- files may be kept by shared caches; and the content type of a Maven file is the one that the bucket
  -- writes, or text/plain where that is missing or empty.
  pub object_headers_lem :
      Describes o (cache_object_headers o)
      × Describes o (maven_object_headers r2 o)
      × (get_header (codes "cache-control") (cache_object_headers o)
          ≡ some (codes "private, max-age=31536000, immutable"))
      × (get_header (codes "cache-control") (maven_object_headers r2 o)
          ≡ some (codes "public, max-age=300"))
      × (get_header (codes "content-type") (maven_object_headers r2 o) ≡ (
          if falsy (get_header (codes "content-type") (r2.write_http_metadata o []))
          then some (codes "text/plain")
          else get_header (codes "content-type") (r2.write_http_metadata o [])))
  object_headers_lem =
      let (n, tag, kept) = cache_object_headers-get o in
      let (n', tag', kept') = maven_object_headers-get in
      (
        ((to_decimal o.size, n, parse_decimal-to_decimal o.size), tag),
        ((to_decimal o.size, n', parse_decimal-to_decimal o.size), tag'),
        kept,
        kept',
        maven-content_type,
      )

  -- A Maven file is served with the content type that it was stored with, where that is not empty.
  pub maven-content_type_stored :
      IsConsistent r2
      → (t : Text) → t ≢ []
      → o.http_metadata.content_type ≡ some t
      → get_header (codes "content-type") (maven_object_headers r2 o) ≡ some t
  maven-content_type_stored laws t filled stored =
      let typed = laws.write-content_type o [] t stored in
      elim (List-cases t) [
        | inl e ↦ absurd (filled e)
        | inr (a, l, e) ↦ rw (maven-content_type, typed, e)
      ]
