-- ===== src/Gateway/Http.antt =====
-- Requests and replies of `net/http`, which is outside this code: what it answers is a parameter.
use gopbx.Prelude.{
  ℕ, Bool, ◌&&◌, not, List, [], ◌∷◌, ◌++◌, Option, none, some, Text, codes, text_eq, is_empty, leb,
  ltb, if◌then◌else◌, Fallible, ok, failure, ℤ, pos, negsuc, zero, suc,
}

-- The values of a header in the order they were added, under canonical names.
abbrev pub Headers : Type 0
Headers = List (Text × Text)

pub record Request : Type 0 where
  pub method : Text
  pub url : Text
  pub headers : Headers
  pub body : Text

pub record Reply : Type 0 where
  pub status : ℕ
  pub headers : Headers
  pub body : Text

-- `url_error` is the error that `http.NewRequest` has with an address; `send` is `client.Do` of a client with
-- a timeout in nanoseconds, none where it has no timeout.
pub record Http : Type 0 where
  pub url_error : Text → Option Text
  pub send : Option ℤ → Request → Fallible Reply

-- `Header.Get`, empty where there is no value.
unfoldable pub get_header : Text → Headers → Text
get_header key [] = []
get_header key ((k, v) ∷ rest) =
    let later = get_header key rest in if text_eq k key then v else later

-- `Header.Del`
unfoldable pub del_header : Text → Headers → Headers
del_header key [] = []
del_header key ((k, v) ∷ rest) =
    let later = del_header key rest in if text_eq k key then later else (k, v) ∷ later

-- `Header.Set` and `Header.Add`
unfoldable pub set_header : Text → Text → Headers → Headers
unfolding del_header
set_header key v headers = del_header key headers ++ (key, v) ∷ []

-- The header with a key, where there is a key.
unfoldable pub authorize : Text → Headers → Headers
unfolding set_header
authorize key headers =
    if is_empty key
    then headers
    else set_header (codes "Authorization") (codes "Bearer " ++ key) headers

-- A status from 200 to 299.
abbrev pub is_success : ℕ → Bool
is_success status = not (ltb status 200) && not (leb 300 status)

abbrev pub built : Option Text → Request → Fallible Request
built none request = ok request
built (some e) request = failure e

-- `http.NewRequest`
abbrev pub new_request : Http → Text → Text → Text → Fallible Request
new_request http method url body =
    built (http.url_error url) (record { method = method; url = url; headers = []; body = body })

-- A duration where it is one and positive, or else the one given.
abbrev pub positive : ℤ → ℤ → ℤ
positive (pos (suc n)) otherwise = pos (suc n)
positive (pos zero) otherwise = otherwise
positive (negsuc n) otherwise = otherwise

unfoldable pub timeout_or : Option ℤ → ℤ → ℤ
timeout_or none otherwise = otherwise
timeout_or (some d) otherwise = positive d otherwise
