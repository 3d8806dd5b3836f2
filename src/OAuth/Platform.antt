-- ===== src/OAuth/Platform.antt =====
-- What the authorization server takes from its platform: the clock, the random source, the token
-- hasher, SHA-256 and the WHATWG `URL` class. Each is a parameter; the n-th reading of the clock
-- and the n-th draw of a random text are functions of n.
use fullwell.Prelude.{ℕ, String, Option, Bool}
use fullwell.OAuth.Types.{Instant}

-- The parts of a parsed URL that the server looks at; `rest` is all else (port, path, query).
pub record Url : Type 0 where
  pub protocol : String
  pub hostname : String
  pub username : String
  pub password : String
  pub hash : String
  pub rest : String

pub record Platform : Type 0 where
  -- clock.now()
  pub now_at : ℕ → Instant
  -- random.token(bytes)
  pub token_at : ℕ → ℕ → String
  -- random.opaqueId(prefix)
  pub opaque_id_at : ℕ → String → String
  -- hasher.hash(token)
  pub hash : String → String
  -- createHash("sha256").update(value).digest("base64url")
  pub sha256_base64url : String → String
  -- new URL(value), `none` where it throws
  pub parse_url : String → Option Url
  -- url.toString()
  pub href : Url → String
  -- url.searchParams.set(name, value)
  pub with_param : Url → String → String → Url
  -- z.url() accepts the text
  pub is_url : String → Bool
  -- s.trim()
  pub trim : String → String
