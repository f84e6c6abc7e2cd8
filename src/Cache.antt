-- ===== src/Cache.antt =====
-- tools/remote-cache/src/index.ts: the Cloudflare worker that stores Bazel's remote cache and
-- serves a Maven repository from one R2 bucket.
pub mod Regex
pub mod Paths
pub mod Http
pub mod Bucket
pub mod Worker
