-- ===== src/Cli/Chosen.antt =====
-- drift-cli/src/main.rs: the handle that the flags come to.
use unstable_drift.Prelude.{
  ℕ, ◌≡◌, refl, ap, ◌∙◌, Bool, true, false, Option, none, some, List, [], ◌∷◌, ◌++◌,
}
use unstable_drift.Prelude.{if◌then◌else◌}
use unstable_drift.Bytes.{Bytes}
use unstable_drift.Proxy.Chain.{Proxy}
use unstable_drift.Handle.Options.{TlsOptions, HttpOptions, TimeoutOptions, GeneralOptions}
use unstable_drift.Client.{
  Setter, mux, tls_options, http_options, timeout_options, general_options, user_agent, proxy_chain,
  unwrap_or,
}
use unstable_drift.Client.Prepared.{latest, as_mux, as_tls, as_http, as_general, as_agent, as_chain}
use unstable_drift.Cli.Proxies.{chain_setters}
use unstable_drift.Cli.Setters.{maybe, when}

-- Setters that change nothing of what `f` looks for.
module _ {A : Type 0} (f : Setter → Option A) where
  Ignores : List Setter → Type 0
  Ignores p = (ss : List Setter) (o : Option A) → latest f (p ++ ss) o ≡ latest f ss o

  when-Ignores : (s : Setter) → f s ≡ none → (b : Bool) → Ignores (when b s)
  unfolding Ignores when latest
  when-Ignores s e true ss o = rw e refl
  when-Ignores s e false ss o = refl

  maybe-Ignores :
      {B : Type 0} (g : B → Setter)
      → ((b : B) → f (g b) ≡ none)
      → (o : Option B) → Ignores (maybe g o)
  unfolding Ignores maybe latest
  maybe-Ignores g e (some b) ss o = rw (e b) refl
  maybe-Ignores g e none ss o = refl

  chain-Ignores :
      ((c : List Proxy) → f (proxy_chain c) ≡ none) → (c : List Proxy) → Ignores (chain_setters c)
  unfolding Ignores chain_setters latest
  chain-Ignores e [] ss o = refl
  chain-Ignores e (p ∷ ps) ss o = rw (e (p ∷ ps)) refl

latest_agent :
    (ua : Option Bytes) (ss : List Setter)
    → latest as_agent (maybe user_agent ua ++ ss) none ≡ latest as_agent ss ua
unfolding latest as_agent maybe
latest_agent none ss = refl
latest_agent (some u) ss = refl

latest_mux :
    (m : Option ℕ) (ss : List Setter) → latest as_mux (maybe mux m ++ ss) none ≡ latest as_mux ss m
unfolding latest as_mux maybe
latest_mux none ss = refl
latest_mux (some m) ss = refl

latest_chain :
    (c : List Proxy) (ss : List Setter)
    → latest as_chain (chain_setters c ++ ss) (some []) ≡ latest as_chain ss (some c)
unfolding latest as_chain chain_setters
latest_chain [] ss = refl
latest_chain (p ∷ ps) ss = refl

abbrev pub general_of : (compressed verbose : Bool) → (g v : GeneralOptions) → Option GeneralOptions
general_of compressed verbose g v = if verbose then some v else if compressed then some g else none

last_general :
    (compressed verbose : Bool) (g v : GeneralOptions) (tls : TlsOptions)
    → latest as_general
        (when compressed (general_options g)
          ++ (when verbose (general_options v) ++ (tls_options tls ∷ [])))
        none
      ≡ general_of compressed verbose g v
unfolding latest as_general when
last_general true true g v tls = refl
last_general true false g v tls = refl
last_general false true g v tls = refl
last_general false false g v tls = refl

-- The setters that are called.
module _ (chain : List Proxy) (m : Option ℕ) (ua : Option Bytes) (touched : Bool)
    (timeouts : TimeoutOptions) (http : HttpOptions) (compressed verbose : Bool)
    (g v : GeneralOptions) (tls : TlsOptions) where
  abbrev back : List Setter
  back =
      when compressed (general_options g)
      ++ (when verbose (general_options v) ++ (tls_options tls ∷ []))

  unfoldable pub called : List Setter
  called =
      chain_setters chain
      ++ (maybe mux m
          ++ (maybe user_agent ua
              ++ (when touched (timeout_options timeouts) ++ (http_options http ∷ back))))

  back-latest :
      {A : Type 0} (f : Setter → Option A) (o : Option A)
      → ((g : GeneralOptions) → f (general_options g) ≡ none)
      → latest f back o ≡ latest f (tls_options tls ∷ []) o
  unfolding Ignores
  back-latest f o e =
      when-Ignores f (general_options g) (e g) compressed _ o
      ∙ when-Ignores f (general_options v) (e v) verbose _ o

  -- What is about the client as a whole is set in front.
  front-latest :
      {A : Type 0} (f : Setter → Option A)
      → ((c : List Proxy) → f (proxy_chain c) ≡ none)
      → ((m : ℕ) → f (mux m) ≡ none)
      → ((u : Bytes) → f (user_agent u) ≡ none)
      → f (timeout_options timeouts) ≡ none
      → latest f called none ≡ latest f (http_options http ∷ back) none
  unfolding called Ignores
  front-latest f c m' u t =
      chain-Ignores f c chain _ none
      ∙ maybe-Ignores f mux m' m _ none
      ∙ maybe-Ignores f user_agent u ua _ none
      ∙ when-Ignores f (timeout_options timeouts) t touched _ none

  pub tls_chosen : latest as_tls called none ≡ some tls
  unfolding as_tls latest
  tls_chosen =
      front-latest as_tls (λ c. refl) (λ m. refl) (λ u. refl) refl
      ∙ back-latest as_tls none (λ g. refl)

  pub http_chosen : latest as_http called none ≡ some http
  unfolding as_http latest
  http_chosen =
      front-latest as_http (λ c. refl) (λ m. refl) (λ u. refl) refl
      ∙ back-latest as_http (some http) (λ g. refl)

  pub general_chosen : latest as_general called none ≡ general_of compressed verbose g v
  unfolding as_general latest
  general_chosen =
      front-latest as_general (λ c. refl) (λ m. refl) (λ u. refl) refl
      ∙ last_general compressed verbose g v tls

  pub agent_chosen : latest as_agent called none ≡ ua
  unfolding as_agent latest called Ignores
  agent_chosen =
      chain-Ignores as_agent (λ c. refl) chain _ none
      ∙ maybe-Ignores as_agent mux (λ m. refl) m _ none
      ∙ latest_agent ua _
      ∙ when-Ignores as_agent (timeout_options timeouts) refl touched _ ua
      ∙ back-latest as_agent ua (λ g. refl)

  pub mux_chosen : latest as_mux called none ≡ m
  unfolding as_mux latest called Ignores
  mux_chosen =
      chain-Ignores as_mux (λ c. refl) chain _ none
      ∙ latest_mux m _
      ∙ maybe-Ignores as_mux user_agent (λ u. refl) ua _ m
      ∙ when-Ignores as_mux (timeout_options timeouts) refl touched _ m
      ∙ back-latest as_mux m (λ g. refl)

  pub chain_chosen : unwrap_or (latest as_chain called (some [])) [] ≡ chain
  unfolding as_chain latest called Ignores
  chain_chosen =
      ap (λ o. unwrap_or o [])
        (latest_chain chain _
          ∙ maybe-Ignores as_chain mux (λ m. refl) m _ (some chain)
          ∙ maybe-Ignores as_chain user_agent (λ u. refl) ua _ (some chain)
          ∙ when-Ignores as_chain (timeout_options timeouts) refl touched _ (some chain)
          ∙ back-latest as_chain (some chain) (λ g. refl))
