-- ===== src/Http1/Headers.antt =====
-- What http1.rs and handle.rs use of `HeaderMap`, `HeaderName` and `HeaderValue`, which are the `http`
-- crate's. The keys are names in lower case, and a map lists each value with its name.
use unstable_drift.Prelude.{◌≡◌, Bool, true, false, Option, none, some, List}
use unstable_drift.Bytes.{Bytes}
use unstable_drift.Bytes.Search.{same_text}

pub record HeaderMap : Type 1 where
  pub Headers : Type 0
  pub new : Headers
  pub entries : Headers → List (Bytes × Bytes)
  pub get : Headers → Bytes → Option Bytes
  pub contains_key : Headers → Bytes → Bool
  pub append : Headers → Bytes → Bytes → Headers
  pub insert : Headers → Bytes → Bytes → Headers
  pub name_from : Bytes → Option Bytes
  pub value_from : Bytes → Option Bytes
  pub to_str : Bytes → Option Bytes

unfoldable pub is_some : Option Bytes → Bool
is_some none = false
is_some (some v) = true

-- What the documentation of `HeaderMap` says: `insert` replaces, and `get` gives the first value that was
-- appended.
pub record HeaderMapLaws (H : HeaderMap) : Type 0 where
  pub get_new : (k : Bytes) → H.get H.new k ≡ none
  pub get_insert : (m : H.Headers) (n v : Bytes) → H.get (H.insert m n v) n ≡ some v
  pub get_insert_other :
      (m : H.Headers) (n v k : Bytes) → same_text n k ≡ false → H.get (H.insert m n v) k ≡ H.get m k
  pub get_append_first :
      (m : H.Headers) (n v : Bytes) → H.get m n ≡ none → H.get (H.append m n v) n ≡ some v
  pub get_append_kept :
      (m : H.Headers) (n v k w : Bytes) → H.get m k ≡ some w → H.get (H.append m n v) k ≡ some w
  pub get_append_other :
      (m : H.Headers) (n v k : Bytes) → same_text n k ≡ false → H.get (H.append m n v) k ≡ H.get m k
  pub contains_get : (m : H.Headers) (k : Bytes) → H.contains_key m k ≡ is_some (H.get m k)
