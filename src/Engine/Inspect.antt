-- ===== src/Engine/Inspect.antt =====
-- The search and the JSON view of the bodies of either direction.
use sippin_soda.Base.{ℕ, Bool, Option, Result, String}
use sippin_soda.Bodies.{Bytes}
use sippin_soda.Bodies.Store.{BodyPage}
use sippin_soda.Search.{SearchStep, SearchTask, search}
use sippin_soda.JsonLayout.View.{ViewOutcome, json_view, json_page}
use sippin_soda.Engine.{State}

module _ {M : Type 0} where
  unfoldable pub search_request_body :
      State M → Bool → ℕ → Bytes → ℕ → ℕ → SearchTask → Option (Result String SearchStep)
  search_request_body s idle id needle start end task =
      search s.storage s.request_bodies idle id needle start end task

  unfoldable pub search_response_body :
      State M → Bool → ℕ → Bytes → ℕ → ℕ → SearchTask → Option (Result String SearchStep)
  search_response_body s idle id needle start end task =
      search s.storage s.response_bodies idle id needle start end task

  unfoldable pub request_json_view : State M → Bool → ℕ → Bool → Bool → ViewOutcome
  request_json_view s free id start cancel =
      json_view s.storage s.request_bodies id free start cancel

  unfoldable pub response_json_view : State M → Bool → ℕ → Bool → Bool → ViewOutcome
  response_json_view s free id start cancel =
      json_view s.storage s.response_bodies id free start cancel

  unfoldable pub request_json_page : State M → ℕ → ℕ → ℕ → Result String BodyPage
  request_json_page s id offset count = json_page s.storage s.request_bodies id offset count

  unfoldable pub response_json_page : State M → ℕ → ℕ → ℕ → Result String BodyPage
  response_json_page s id offset count = json_page s.storage s.response_bodies id offset count
