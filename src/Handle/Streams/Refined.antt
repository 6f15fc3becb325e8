-- ===== src/Handle/Streams/Refined.antt =====
-- handle.rs, `perform`: the loop with its streams and its pool does what the loop over the answers to
-- its requests does (Handle.Perform), for the answers that the streams give.
use unstable_drift.Prelude.{ℕ, zero, suc, ◌≡◌, [], ◌∷◌, List}
use unstable_drift.Prelude.{Result, ok, err}
use unstable_drift.Bytes.{Bytes}
use unstable_drift.Proxy.Chain.{Proxy}
use unstable_drift.Handle.{ParsedUrl, parse_url}
use unstable_drift.Handle.Settings.{Method}
use unstable_drift.Handle.Perform
use unstable_drift.Handle.Perform.{Reply, HandleError, Effect, requests, pools, Outcome}
use unstable_drift.Handle.Streams.{World, Step}
use unstable_drift.Handle.Streams.Served.{served}

-- The requests of the loop over answers, with their methods.
unfoldable pub asked : List Effect → List (Bytes × Method)
asked [] = []
asked (requests url method ∷ es) = (url, method) ∷ asked es
asked (pools host port ∷ es) = asked es

-- From request k on, the requests asked and the exchanges served are the same, in order, with the URL as
-- parsed and the same method, and each answer is that of the exchange. Only the last request may have
-- no exchange, and then its answer is an error.
pub data Serves (w : World)
    : (k : ℕ)
      → (answer : ℕ → Result HandleError Reply) → List (Bytes × Method)
      → List (ℕ × ParsedUrl × Method)
      → Type 0 where
  all_served : {k : ℕ} {answer : ℕ → Result HandleError Reply} → Serves w k answer [] []
  unserved :
      {k : ℕ} {answer : ℕ → Result HandleError Reply} {url : Bytes} {method : Method}
      (e : HandleError)
      → answer 0 ≡ err e
      → Serves w k answer ((url, method) ∷ []) []
  serves :
      {k : ℕ} {answer : ℕ → Result HandleError Reply} {url : Bytes} {method : Method}
      {u : ParsedUrl} {more : List (Bytes × Method)} {later : List (ℕ × ParsedUrl × Method)}
      → parse_url url ≡ ok u
      → answer 0 ≡ w.answered k
      → Serves w (suc k) (λ j. answer (suc j)) more later
      → Serves w k answer ((url, method) ∷ more) ((k, u, method) ∷ later)

-- The same result, and the same exchanges with the same answers.
pub record Refines (w : World) (k : ℕ) (answer : ℕ → Result HandleError Reply)
    (o : Result HandleError Reply × List Effect) (s : Step Reply) : Type 0 where
  pub same : o.0 ≡ s.0
  pub exchanged : Serves w k answer (asked o.1) (served s.2)

-- An answer to the first request, and the answers to those behind it.
starting : Result HandleError Reply → (ℕ → Result HandleError Reply) → ℕ → Result HandleError Reply
starting a further zero = a
starting a further (suc j) = further j

-- Some answers with which an outcome is refined, from request k on.
abbrev Matched : World → ℕ → ((ℕ → Result HandleError Reply) → Outcome) → Step Reply → Type 0
Matched w k o s = (answer : ℕ → Result HandleError Reply) × Refines w k answer (o answer) s

-- When no further request is made.
abbrev silent : ℕ → Result HandleError Reply
silent j = err HandleError.no_url
