-- ===== src/Cache/Bucket.antt =====
-- The R2 bucket that the worker is bound to. R2 is a service, so its operations are parameters, and
-- what its documentation promises of them is stated as laws.
use nearby_payments_api.Base.{◌≡◌, ◌≢◌, ℕ, Option, none, some, Text, codes}
use nearby_payments_api.Cache.Http.{Headers, get_header, Promise, resolved, rejected}

pub record R2HttpMetadata : Type 0 where
  pub content_type : Option Text
  pub content_language : Option Text
  pub content_disposition : Option Text
  pub content_encoding : Option Text
  pub cache_control : Option Text
  pub cache_expiry : Option Text

-- The metadata of an object, as far as the worker looks at it.
pub record R2Object : Type 0 where
  pub key : Text
  pub size : ℕ
  pub http_etag : Text
  pub http_metadata : R2HttpMetadata

pub record R2ObjectBody (Body : Type 0) : Type 0 where
  pub object : R2Object
  pub body : Body

-- The operations. `Store` is the state of the service; a read may also be rejected in it.
pub record R2Bucket : Type 1 where
  pub Store : Type 0
  pub Body : Type 0
  pub put : Text → Body → R2HttpMetadata → Store → Promise R2Object × Store
  pub get : Text → Store → Promise (Option (R2ObjectBody Body))
  pub head : Text → Store → Promise (Option R2Object)
  pub write_http_metadata : R2Object → Headers → Headers

abbrev pub map_found :
    {Body : Type 0} → Promise (Option (R2ObjectBody Body)) → Promise (Option R2Object)
map_found rejected = rejected
map_found (resolved none) = resolved none
map_found (resolved (some o)) = resolved (some o.object)

-- What the documentation promises: a write is seen by every later read of its key, a key does not
-- touch another, `head` is `get` without the body, and `writeHttpMetadata` sets the content type
-- that the object was stored with.
pub record IsConsistent (r2 : R2Bucket) : Type 0 where
  pub get-put_self :
      (k : Text) (v : r2.Body) (m : R2HttpMetadata) (s : r2.Store) {o : R2Object}
      {found : Option (R2ObjectBody r2.Body)}
      → (r2.put k v m s).0 ≡ resolved o
      → r2.get k (r2.put k v m s).1 ≡ resolved found
      → (ob : R2ObjectBody r2.Body) × (found ≡ some ob)
        × (ob.body ≡ v)
        × (ob.object.http_metadata ≡ m)
  pub get-put_ne :
      (j k : Text) (v : r2.Body) (m : R2HttpMetadata) (s : r2.Store)
      → j ≢ k
      → r2.get j (r2.put k v m s).1 ≡ r2.get j s
  pub head-get : (k : Text) (s : r2.Store) → r2.head k s ≡ map_found (r2.get k s)
  pub write-content_type :
      (o : R2Object) (h : Headers) (t : Text)
      → o.http_metadata.content_type ≡ some t
      → get_header (codes "content-type") (r2.write_http_metadata o h) ≡ some t
