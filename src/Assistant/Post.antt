-- ===== src/Assistant/Post.antt =====
-- llm.py: `_post`, the request to a provider with its retries.
pub mod Backoff
use alertmind.Prelude.{
  ℕ, zero, suc, ◌+◌, ◌*◌, Bool, true, false, not, ◌&&◌, ◌||◌, List, [], ◌∷◌, ltb, leb, nat_eq, any,
  if◌then◌else◌,
}
use alertmind.Json.Parsed.{Parsed}

-- A response: its status, and what the JSON decoder meets in its body.
pub record Response : Type 0 where
  pub status : ℕ
  pub body : Parsed

-- What `requests.post` does: it times out, it cannot connect, it raises another exception, or it
-- returns a response.
pub data Attempt : Type 0 where
  timed_out refused broken : Attempt
  responded : Response → Attempt

-- The ways in which `_post` ends: a response, or an exception.
pub data PostEnd : Type 0 where
  returned : Response → PostEnd
  timeout_error connection_error other_error unreachable : PostEnd
  http_error : Response → PostEnd

-- `_RETRYABLE`
unfoldable pub is_retryable : ℕ → Bool
is_retryable status = any (nat_eq status) (429 ∷ 500 ∷ 502 ∷ 503 ∷ 504 ∷ [])

-- `r.ok`
unfoldable pub is_ok : ℕ → Bool
is_ok status = ltb status 400

-- The end that an attempt leads to when it is not tried again.
unfoldable pub settle : Attempt → PostEnd
settle timed_out = timeout_error
settle refused = connection_error
settle broken = other_error
settle (responded r) = if is_ok r.status then returned r else http_error r

-- The two tests in front of `continue`, but for the number of the attempt.
unfoldable pub is_transient : Attempt → Bool
is_transient timed_out = false
is_transient refused = true
is_transient broken = false
is_transient (responded r) = is_retryable r.status

-- `for attempt in range(retries + 1)`: the end, and the delays that were slept. The network answers
-- by the number of the attempt.
unfoldable pub post_from : (ℕ → Attempt) → ℕ → ℕ → ℕ → ℕ → PostEnd × List ℕ
post_from net retries zero attempt delay = (unreachable, [])
post_from net retries (suc more) attempt delay =
    let (end', slept) = post_from net retries more (suc attempt) (delay * 2) in
    if is_transient (net attempt) && ltb attempt retries
    then (end', delay ∷ slept)
    else (settle (net attempt), [])

unfoldable pub post : (ℕ → Attempt) → ℕ → PostEnd × List ℕ
post net retries = post_from net retries (suc retries) 0 1
