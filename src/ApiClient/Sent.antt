-- ===== src/ApiClient/Sent.antt =====
-- The requests that reach the API when a batch is sent, with those that are tried again.
use stock_tracker_data_colle.Base.{
  ℕ, zero, suc, ◌+◌, ◌≤◌, String, ◌≡◌, ◌⊎◌, refl, sym, ap, ◌∙◌, subst, false, Option, none, some,
  List, [], ◌∷◌, ◌++◌, append-nil, append_assoc, arith, inl, inr, ◌==◌, if◌then◌else◌, format,
  lookup, Bool-cases, Option-cases,
}
use stock_tracker_data_colle.Errors.{sink_error}
use stock_tracker_data_colle.Exec.{Outcome, ok, raised, Exec, ◌>>=◌, is_ok, Outcome-cases}
use stock_tracker_data_colle.Json.{Json}
use stock_tracker_data_colle.Http.{is_retried, attempts, http_retry}
use stock_tracker_data_colle.ApiClient.{ApiDeps, post_batch, send_batch, paths}

abbrev pub Request : Type 0
Request = String × List Json

abbrev pub copies : ℕ → Request → List Request
copies zero request = []
copies (suc n) request = request ∷ copies n request

copies-add :
    (n m : ℕ) (request : Request) → copies n request ++ copies m request ≡ copies (n + m) request
copies-add zero m request = let count : m ≡ 0 + m = omega arith in ap (λ k. copies k request) count
copies-add (suc n) m request =
    let count : suc (n + m) ≡ suc n + m = omega arith in
    ap (λ l. request ∷ l) (copies-add n m request) ∙ ap (λ k. copies k request) count

module _ {S A : Type 0} (log : S → List Request) (request : Request) where
  -- The request reached the API between none and `most` times, and at least once if the call returns.
  abbrev pub Sends : ℕ → S → Outcome A × S → Type 0
  Sends most s (r, after) =
      (n : ℕ) × (n ≤ most) × (log after ≡ log s ++ copies n request) × ((is_ok r ≡ false) ⊎ (1 ≤ n))

  attempts-Sends :
      (call : Exec S A)
      → ((s : S) → Sends 1 s (call s))
      → (more : ℕ) (s : S) → Sends (suc more) s (attempts more call s)
  attempts-Sends call each zero s = each s
  attempts-Sends call each (suc more) s = elim (Bool-cases (is_retried (call s).0)) [
    | inr done ↦ let (n, bound, logged, once) = each s in rw done (n, omega arith, logged, once)
    | inl again ↦
        let (n, bound, logged, once) = each s in
        let (m, bound', logged', once') = attempts-Sends call each more (call s).1 in
        rw again (
          n + m,
          omega arith,
          logged'
              ∙ ap (λ l. l ++ copies m request) logged
              ∙ append_assoc (log s) (copies n request) (copies m request)
              ∙ ap (λ l. log s ++ l) (copies-add n m request),
          elim once' [ inl fails ↦ inl fails | inr sent ↦ inr (omega arith) ],
        )
  ]

-- What a chain sends whose first action sends nothing.
module _ {S B : Type 0} (log : S → List Request) (request : Request) where
  Sends-bind :
      {A : Type 0} (m : Exec S A) (rest : A → Exec S B) (s : S)
      → log (m s).1 ≡ log s
      → ((a : A) (after : S) → Sends log request 1 after (rest a after))
      → Sends log request 1 s ((m >>= rest) s)
  Sends-bind m rest s quiet each = elim (Outcome-cases (m s).0) [
    | inl (a, done) ↦
        let (n, bound, logged, once) = each a (m s).1 in
        rw done (n, bound, logged ∙ ap (λ l. l ++ copies n request) quiet, once)
    | inr (e, failed) ↦ rw failed (0, omega arith, quiet ∙ sym (append-nil (log s)), inl refl)
  ]

module _ {S : Type 0} (deps : ApiDeps S) (log : S → List Request) where
  -- The path of an entity, none for an unknown one and for one whose path is empty.
  abbrev pub target : String → Option String
  target entity = elim (lookup entity (paths deps)) [
    | none ↦ none
    | some path ↦ if path == "" then none else some path
  ]

  abbrev pub SendsBatch : String → List Json → S → Type 0
  SendsBatch entity items s =
      ((target entity ≡ none)
        × (send_batch deps entity items s
            ≡ (raised (sink_error (format ("Unknown entity for RestApiSink: " ∷ entity ∷ []))), s)))
      ⊎ ((path : String) × (target entity ≡ some path)
          × (items ≡ [])
          × (send_batch deps entity items s ≡ (ok tt, s)))
      ⊎ ((path : String) × (target entity ≡ some path)
          × ((item : Json) × (others : List Json) × (items ≡ item ∷ others))
          × Sends log (format (deps.base ∷ path ∷ []), items) 5 s (send_batch deps entity items s))

module _ {S : Type 0} (deps : ApiDeps S) (log : S → List Request)
    (token_quiet : (s : S) → log (deps.get_access_token s).1 ≡ log s)
    (acquire_quiet : (s : S) → log (deps.acquire s).1 ≡ log s)
    -- a request that is answered reached the API, and one that raises may have
    (post_logged : (url token : String) (body : List Json) (s : S)
      → Sends log (url, body) 1 s (deps.post url token body s)) where
  post_batch-Sends :
      (path : String) (body : List Json) (s : S)
      → Sends log (format (deps.base ∷ path ∷ []), body) 5 s (post_batch deps path body s)
  unfolding post_batch http_retry
  post_batch-Sends path body s =
      let request : Request = (format (deps.base ∷ path ∷ []), body) in
      attempts-Sends log request _
        (λ s1. Sends-bind log request deps.get_access_token _ s1 (token_quiet s1) λ token s2.
          Sends-bind log request deps.acquire _ s2 (acquire_quiet s2)
            λ t s3. post_logged (format (deps.base ∷ path ∷ [])) token body s3)
        4 s

  known-SendsBatch :
      (entity path : String) (items : List Json) (s : S)
      → target deps log entity ≡ some path
      → SendsBatch deps log entity items s
  unfolding send_batch
  known-SendsBatch entity path [] s known = inr (inl (path, known, refl, ground (arith, known)))
  known-SendsBatch entity path (x ∷ xs) s known =
      let same : send_batch deps entity (x ∷ xs) s ≡ post_batch deps path (x ∷ xs) s =
        ground (arith, known) in
      let sends = post_batch-Sends path (x ∷ xs) s in
      inr (
        inr (
          path,
          known,
          (x, xs, refl),
          subst (Sends log (format (deps.base ∷ path ∷ []), x ∷ xs) 5 s) (sym same) sends,
        ))

  -- Whatever send_batch is given and however the network fails: an entity without a path is refused and
  -- an empty batch is passed over, both without an effect; of another batch, the API gets between none
  -- and five requests, each with the whole batch at the URL of the entity and no other, and at least one
  -- if send_batch returns. It is supposed that the calls for a token and for the rate limit send no
  -- batch, and that a POST reaches the API once if it is answered, and at most once if it raises.
  pub send_batch-SendsBatch :
      (entity : String) (items : List Json) (s : S) → SendsBatch deps log entity items s
  unfolding send_batch
  send_batch-SendsBatch entity items s = elim (Option-cases (target deps log entity)) [
    | inl unknown ↦ inl (unknown, ground (arith, unknown))
    | inr (path, known) ↦ known-SendsBatch entity path items s known
  ]
