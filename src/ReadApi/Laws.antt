-- ===== src/ReadApi/Laws.antt =====
-- internal/readapi/client.go: the budget that all calls of a client share.
use le_cli.Prelude.{
  ℕ, ◌+◌, ◌≤◌, Bytes, Bool, not, ◌&&◌, length, take, List, [], ◌∷◌, Option, none, some, is_empty,
  ◌≡◌, arith, Bool-cases, Option-cases, inl, inr,
}
use le_cli.Prelude.Int.{pos, sub_ℕ, pos_part, ltb_ℤ}
use le_cli.ReadApi.{
  ApiError, Names, Client, Reply, no_reply, reply, Outcome, value, error, decoded, received,
  get_json, new_client, body_budget, fresh,
}

module _ {A : Type 0} (size : A → ℕ) (unmarshal : Bytes → Option A) where
  -- What a call gives to its caller.
  abbrev given : Outcome A → ℕ
  given (value a) = size a
  given (error e) = 0

  -- What is decoded is no larger than its text.
  abbrev pub IsSmall : Type 0
  IsSmall = (s : Bytes) (a : A) → unmarshal s ≡ some a → size a ≤ length s

  given-decoded :
      IsSmall
      → (status : ℕ) (body : Bytes) (failure : Option ApiError)
      → given (decoded unmarshal status body failure) ≤ length body
  unfolding decoded
  given-decoded small status body (some e) = omega arith
  given-decoded small status body none = elim (Option-cases (unmarshal body)) [
    | inl e ↦ ground (arith, e)
    | inr (a, e) ↦ ground (arith, e, small body a e)
  ]

  given-received :
      IsSmall
      → (identity : Bytes → Bool) (c : Client) (answer : Reply)
      → let r = received unmarshal identity c answer in
        given r.1 + pos_part r.0.remaining ≤ pos_part c.remaining
  unfolding received
  given-received small identity c (no_reply e) = omega arith
  given-received small identity c (reply encoding status body failure) =
      let room = pos_part c.remaining in
      let data_read = take (room + 1) body in
      let h = given-decoded small status data_read failure in
      elim (Bool-cases (not (is_empty encoding) && not (identity encoding))) [
        | inl e ↦ rw e (omega arith)
        | inr e ↦ elim (Bool-cases (ltb_ℤ (sub_ℕ room (length data_read)) (pos 0))) [
          | inl l ↦ rw (e, l) (ground arith)
          | inr l ↦ rw (e, l) (ground (arith, h))
        ]
      ]

  given-get_json :
      IsSmall
      → (names : Names) (identity : Bytes → Bool) (c : Client) (waiting : Option ApiError)
        (path : Bytes) (answer : Reply)
      → let r = get_json names unmarshal identity c waiting path answer in
        given r.1 + pos_part r.0.remaining ≤ pos_part c.remaining
  unfolding get_json
  given-get_json small names identity c (some e) path answer = omega arith
  given-get_json small names identity c none path answer =
      ground (arith, given-received small identity c answer)

new_client-remaining :
    (names : Names) (base_url auth : Bytes) (root_only : Bool) (c : Client)
    → new_client names base_url auth root_only ≡ some c
    → pos_part c.remaining ≡ body_budget
unfolding new_client fresh
new_client-remaining names base_url auth root_only c made =
    elim (Option-cases (names.parse base_url)) [
      | inl e ↦ ground (arith, e, made)
      | inr (u, e) ↦ ground (arith, e, made)
    ]

-- A call: the error of the context while it waits, the path, and what the server answers.
abbrev pub Call : Type 0
Call = Option ApiError × Bytes × Reply

module _ {A : Type 0} (size : A → ℕ) (unmarshal : Bytes → Option A) (names : Names)
    (identity : Bytes → Bool) where
  -- The size of everything that a sequence of calls gives.
  unfoldable pub given_by : Client → List Call → ℕ
  unfolding get_json
  given_by c [] = 0
  given_by c ((waiting, path, answer) ∷ calls) =
      let r = get_json names unmarshal identity c waiting path answer in
      given size unmarshal r.1 + given_by r.0 calls

  given_by-le :
      IsSmall size unmarshal
      → (c : Client) (calls : List Call) → given_by c calls ≤ pos_part c.remaining
  unfolding given_by
  given_by-le small c [] = omega arith
  given_by-le small c ((waiting, path, answer) ∷ calls) =
      let r = get_json names unmarshal identity c waiting path answer in
      omega (
        arith,
        given-get_json size unmarshal small names identity c waiting path answer,
        given_by-le small r.0 calls,
      )

  -- If what is decoded is no larger than its text, then however many calls a new client makes, and
  -- whatever the server answers, all that they return has at most 1 MiB together.
  pub given_by-bounded :
      IsSmall size unmarshal
      → (base_url auth : Bytes) (root_only : Bool) (c : Client) (calls : List Call)
      → new_client names base_url auth root_only ≡ some c
      → given_by c calls ≤ body_budget
  given_by-bounded small base_url auth root_only c calls made =
      omega (
        arith,
        given_by-le small c calls,
        new_client-remaining names base_url auth root_only c made,
      )
