-- ===== src/Tests/Requests.antt =====
-- A request that succeeds at the third attempt.
use alertmind.Prelude.{
  ℕ, zero, suc, ◌+◌, ◌^◌, ◌≤◌, ◌<◌, ◌≡◌, refl, ◌⊎◌, true, false, [], ◌∷◌, length, sum,
}
use alertmind.Json.Parsed.{bad}
use alertmind.Assistant.Post.{
  Attempt, Response, refused, responded, returned, post, settle, is_transient,
}
use alertmind.Assistant.Post.Backoff.{post-settle}

abbrev response : ℕ → Response
response status = record { status = status; body = bad }

abbrev network : ℕ → Attempt
network zero = refused
network (suc zero) = responded (response 503)
network (suc (suc _)) = responded (response 200)

third_time : post network 3 ≡ (returned (response 200), 1 ∷ 2 ∷ [])
unfolding post alertmind.Assistant.Post.post_from is_transient alertmind.Assistant.Post.is_retryable
    settle alertmind.Assistant.Post.is_ok
third_time = refl

post-settle_example :
    ((post network 3).0 ≡ settle (network (length (post network 3).1)))
    × (length (post network 3).1 ≤ 3)
    × ((length (post network 3).1 ≡ 3)
        ⊎ (is_transient (network (length (post network 3).1)) ≡ false))
    × ((i : ℕ) → i < length (post network 3).1 → is_transient (network i) ≡ true)
    × (sum (post network 3).1 + 1 ≡ 2 ^ length (post network 3).1)
post-settle_example = post-settle network 3
