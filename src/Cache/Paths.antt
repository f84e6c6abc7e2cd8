-- ===== src/Cache/Paths.antt =====
-- The two patterns at the top of tools/remote-cache/src/index.ts.
pub mod Meaning
use nearby_payments_api.Base.{ℕ, Bool, not, ◌&&◌, ◌||◌, Text, codes, leb, ◌==◌}
use nearby_payments_api.Cache.Regex.{Regex, literal, seq, alt, times, plus, group}

-- [a-f0-9]
unfoldable pub is_lower_hex : ℕ → Bool
is_lower_hex c = (leb b'a' c && leb c b'f') || (leb b'0' c && leb c b'9')

-- `.`, which matches all but the line terminators LF, CR, LS and PS
unfoldable pub is_dot : ℕ → Bool
is_dot c = not (c == 10 || c == 13 || c == 0x2028 || c == 0x2029)

-- /^\/cache\/(ac|cas)\/([a-f0-9]{64})$/
unfoldable pub cache_path : Regex
cache_path = seq (literal (codes "/cache/")) (
    seq (group (alt (literal (codes "ac")) (literal (codes "cas"))))
      (seq (literal (codes "/")) (group (times 64 is_lower_hex))))

-- /^\/maven\/(.+)$/
unfoldable pub maven_path : Regex
maven_path = seq (literal (codes "/maven/")) (group (plus is_dot))
