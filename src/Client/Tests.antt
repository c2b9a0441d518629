-- ===== src/Client/Tests.antt =====
-- The client of federated_queue.py with two coordinators.
use vibe_thinker.Prelude.{ℕ, ◌≡◌, refl, true, false, [], ◌∷◌, none, some, if◌then◌else◌}
use vibe_thinker.Json.{codes}
use vibe_thinker.Text.{Text, strip, same_codes}
use vibe_thinker.JobQueue.Queue.{new_queue}
use vibe_thinker.Client.Urls.{Client, new_client, parse_urls, federation_configured, url_order}
use vibe_thinker.Client.Calls.{
  Answer, unreadable, offers, claim_turn, post_to_any_url, first_accepting, heartbeat_loop,
}
use vibe_thinker.Client.Order.{Turns, claim_turn-Turns}

abbrev client : Client
client = new_client (codes " http://a/, ,http://b") true (new_queue 1 false false none)

urls_parsed : client.urls ≡ codes "http://a" ∷ codes "http://b" ∷ []
unfolding new_client parse_urls strip
urls_parsed = refl

-- The first coordinator is down, the second one has a job.
abbrev answer : ℕ → Text → Answer
answer i u =
    if same_codes u (codes "http://a")
    then unreadable
    else offers (record { job_id = "r"; query = some "2+2"; priority = none; force_route = none })

claim_turn-Turns_example :
    Turns answer "j" 5 (url_order client) client.local (claim_turn answer "j" 5 client)
unfolding federation_configured new_client parse_urls strip
claim_turn-Turns_example = claim_turn-Turns answer "j" 5 client refl

-- Three heartbeats in a row that nobody answers end the loop.
heartbeats_end :
    (heartbeat_loop
      ((λ i u. none) ∷ (λ i u. none) ∷ (λ i u. none) ∷ (λ i u. none) ∷ [])
      0
      (codes "http://a" ∷ [])
      client).1
    ≡ 3
unfolding heartbeat_loop post_to_any_url first_accepting
heartbeats_end = refl
