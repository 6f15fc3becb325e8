-- ===== src/Client/Examples.antt =====
-- A client whose user agent is given before its general options, and a response.
use unstable_drift.Prelude.{◌≡◌, refl, false, some, List, [], ◌∷◌, ok}
use unstable_drift.Bytes.{Bytes}
use unstable_drift.Bytes.Text.{ascii}
use unstable_drift.Handle.Options.{GeneralOptions, off}
use unstable_drift.Handle.Settings.{Header, post, text}
use unstable_drift.Client.{
  Setter, user_agent, general_options, default_header, builder, apply_all, build, prepare,
  header_in,
}
use unstable_drift.Client.Prepared.{wanted, prepare_outcome}

abbrev quiet : GeneralOptions
quiet = record {
  user_agent = ascii "x";
  verbose = false;
  max_response_size = some 9;
  buffer_size = 1;
  compression = off;
}

abbrev calls : List Setter
calls =
    user_agent (ascii "me") ∷ general_options quiet ∷ default_header (ascii "a") (ascii "1") ∷ []

abbrev mine : List Header
mine = record { name = ascii "A"; value = ascii "2" } ∷ []

agent_stands :
    (wanted (ascii "1") calls post (ascii "http://h") mine (text [])).general
    ≡ record quiet { user_agent = ascii "me" }
unfolding wanted unstable_drift.Client.Prepared.latest unstable_drift.Client.Prepared.as_agent
    unstable_drift.Client.Prepared.as_general
agent_stands = refl

first_one :
    header_in (wanted (ascii "1") calls post (ascii "http://h") mine (text [])).headers (ascii "A")
    ≡ some (ascii "1")
unfolding header_in wanted unstable_drift.Client.Prepared.defaults
    unstable_drift.Bytes.Search.to_lowercase unstable_drift.Bytes.Search.same_text
first_one = refl

prepare_outcome_example :
    prepare (ascii "1") (record {
      client = build (ascii "1") (apply_all calls builder);
      method = post;
      url = ascii "http://h";
      headers = mine;
      body = text [];
    })
    ≡ ok (wanted (ascii "1") calls post (ascii "http://h") mine (text []))
unfolding unstable_drift.Bytes.Search.contains unstable_drift.Bytes.Search.starts_with
prepare_outcome_example = prepare_outcome (ascii "1") calls post (ascii "http://h") mine (text [])
