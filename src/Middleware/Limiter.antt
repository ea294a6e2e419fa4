-- ===== src/Middleware/Limiter.antt =====
-- server/internal/cache/cache.go, Allow, and rate_limit.go. Redis is a parameter: what a pipeline
-- of commands answers at a time, none where it fails, and what it makes of the state.
use Prim.Native.String.{◌++◌}
use gaggle.Prelude.{
  ℕ, zero, suc, Bool, true, false, not, ◌||◌, String, List, [], ◌∷◌, Option, none, some, leb,
  if◌then◌else◌, ℤ, pos, negsuc,
}
use gaggle.AppErrors.{Result, ok, err, too_many_requests_error}

abbrev pub at_most : ℕ → ℤ → Bool
at_most n (pos m) = leb n m
at_most n (negsuc m) = false

abbrev pub is_positive : ℤ → Bool
is_positive (pos zero) = false
is_positive (pos (suc m)) = true
is_positive (negsuc m) = false

-- "rl:" + r.URL.Path + ":" + clientIP
abbrev pub rate_key : String → String → String
rate_key path client_ip = "rl:" ++ (path ++ (":" ++ client_ip))

-- The commands that the code queues on a pipeline: EXPIRE with its seconds.
pub data Command : Type 0 where
  incr : String → Command
  expire : String → ℕ → Command

module _ {S : Type 0} (exec : List Command → ℕ → S → Option (List ℕ) × S) where
  -- The answer of INCR, which is the first command; a command that is not there has none.
  abbrev pub is_within : ℤ → List ℕ → Bool
  is_within max_requests [] = at_most 0 max_requests
  is_within max_requests (n ∷ ns) = at_most n max_requests

  -- `Allow`; no client is there where the cache is not configured.
  unfoldable pub allow : Bool → String → ℤ → ℕ → ℕ → S → Bool × S
  allow connected key max_requests window now s =
      if not connected
      then (true, s)
      else let (answers, s') = exec (incr key ∷ expire key window ∷ []) now s in
        (elim answers [ none ↦ true | some ns ↦ is_within max_requests ns ], s')

  -- `RateLimitMiddleware`, on the path and the address that clientIP reads: whether the handler runs.
  unfoldable pub rate_limit_middleware :
      Bool → ℤ → ℕ → String → String → ℕ → S → Result (Unit {0}) × S
  rate_limit_middleware connected max_requests window path client_ip now s =
      if not connected || not (is_positive max_requests)
      then (ok tt, s)
      else let (allowed, s') =
          allow connected (rate_key path client_ip) max_requests window now s in
        (if allowed then ok tt else err too_many_requests_error, s')
