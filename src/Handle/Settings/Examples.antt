-- ===== src/Handle/Settings/Examples.antt =====
-- Options set and refused.
use unstable_drift.Prelude.{◌≡◌, ◌⊎◌, refl, ok, err}
use unstable_drift.Bytes.Text.{ascii}
use unstable_drift.Handle.Settings.{
  max_response_size, verbose, u64, nothing, new, wrong_value, set_option, set_url, missing_scheme,
}
use unstable_drift.Handle.Settings.Lens.{Takes, get_option, set_option_outcome}

set_option_outcome_example :
    let h = new (ascii "1") in
    (Takes max_response_size (u64 7)
      × ((set_option max_response_size (u64 7) h).1 ≡ ok tt)
      × (get_option max_response_size (set_option max_response_size (u64 7) h).0 ≡ u64 7)
      × (set_option max_response_size
            (get_option max_response_size h)
            (set_option max_response_size (u64 7) h).0
          ≡ (h, ok tt)))
    ⊎ (¬ Takes max_response_size (u64 7)
        × (set_option max_response_size (u64 7) h
            ≡ (h, err (wrong_value max_response_size (u64 7)))))
set_option_outcome_example = set_option_outcome max_response_size (u64 7) (new (ascii "1"))

no_flag :
    set_option verbose nothing (new (ascii "1"))
    ≡ (new (ascii "1"), err (wrong_value verbose nothing))
unfolding set_option unstable_drift.Handle.Settings.put_option
no_flag = refl

no_scheme : set_url (ascii "h:80/") (new (ascii "1")) ≡ err missing_scheme
unfolding set_url unstable_drift.Bytes.Search.contains unstable_drift.Bytes.Search.starts_with
no_scheme = refl
