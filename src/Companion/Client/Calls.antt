-- ===== src/Companion/Client/Calls.antt =====
-- client.go: New and its options, and the calls that become requests. url.Parse and url.PathEscape are
-- arguments. A request's context, its timeout and the logger are left out; an error carries no text.
use cuebooth.Prelude.{
  ℕ, zero, suc, Bool, not, ◌||◌, Option, none, some, List, [], ◌∷◌, ◌++◌, map, ◌==◌, if◌then◌else◌,
  Bytes, ℤ, pos, negsuc,
}
use cuebooth.Bytes.{bytes, equal, trim_right, print}
use cuebooth.Config.Chat.{Url}
use cuebooth.Companion.Location.{Location}
use cuebooth.Companion.Client.{Method, get, post, Outcome, Round, Run, Result, ok, err, do_request}
use cuebooth.Companion.Client as Http

pub record Client : Type 0 where
  pub base_url : Bytes
  pub max_retries : ℕ
  pub backoff : ℕ

-- An option that replaces the HTTP client or the logger leaves these fields.
pub data ClientOption : Type 0 where
  with_retries : ℤ → ℤ → ClientOption
  other_option : ClientOption

abbrev clamped : ℤ → ℕ
clamped (pos n) = n
clamped (negsuc n) = 0

abbrev or_backoff : ℕ → ℤ → ℕ
or_backoff old (pos zero) = old
or_backoff old (pos (suc n)) = suc n
or_backoff old (negsuc n) = old

unfoldable pub configure : Client → ClientOption → Client
configure c (with_retries n backoff) = record c {
  max_retries = clamped n;
  backoff = or_backoff c.backoff backoff;
}
configure c other_option = c

unfoldable pub configure_all : Client → List ClientOption → Client
configure_all c [] = c
configure_all c (o ∷ options) = configure_all (configure c o) options

pub data NewError : Type 0 where
  unparsable bad_scheme no_host : NewError

pub data New : Type 0 where
  created : Client → New
  rejected : NewError → New

-- The default backoff is 100 milliseconds.
abbrev pub default_client : Bytes → Client
default_client base = record {
  base_url = trim_right (λ (c : ℕ). c == 47) base;
  max_retries = 2;
  backoff = 100000000;
}

abbrev is_http : Url → Bool
is_http u = equal u.scheme (bytes "http") || equal u.scheme (bytes "https")

unfoldable pub new_parsed : Bytes → List ClientOption → Option Url → New
new_parsed base options none = rejected unparsable
new_parsed base options (some u) =
    if not (is_http u)
    then rejected bad_scheme
    else if equal u.host []
    then rejected no_host
    else created (configure_all (default_client base) options)

-- New
unfoldable pub new_client : (Bytes → Option Url) → Bytes → List ClientOption → New
unfolding new_parsed
new_client parse base options = new_parsed base options (parse base)

pub record Request : Type 0 where
  pub method : Method
  pub url : Bytes
  pub body : Bytes
  pub content_type : Bytes

pub data CallResult : Type 0 where
  answered : Bytes → CallResult
  empty_name : CallResult
  failed : Http.Error → CallResult

-- The requests of a call, each with what became of it, and what the call returns.
abbrev pub Call : Type 0
Call = List (Request × Outcome) × CallResult

abbrev pub returned : Result Bytes → CallResult
returned (ok body) = answered body
returned (err e) = failed e

-- `do`, whose rounds all send the one request.
unfoldable pub send_request : Client → Request → (ℕ → Round) → Call
send_request c q rounds =
    let run = do_request c.max_retries q.method rounds in
    (map (λ (o : Outcome). (q, o)) run.0, returned run.1)

pub data Verb : Type 0 where
  press down up : Verb

abbrev pub verb_name : Verb → Bytes
verb_name press = bytes "press"
verb_name down = bytes "down"
verb_name up = bytes "up"

abbrev pub location_path : Location → Bytes → Bytes
location_path l verb =
    bytes "/api/location/"
    ++ (print l.page ++ 47 ∷ (print l.row ++ 47 ∷ (print l.column ++ 47 ∷ verb)))

abbrev pub actuation : Client → Location → Verb → Request
actuation c l v = record {
  method = post;
  url = c.base_url ++ location_path l (verb_name v);
  body = [];
  content_type = [];
}

-- actuate, which Press, PressDown and PressUp call.
unfoldable pub actuate : Client → Location → Verb → (ℕ → Round) → Call
actuate c l v rounds = send_request c (actuation c l v) rounds

module _ (escape : Bytes → Bytes) (c : Client) where
  abbrev pub custom_variable_path : Bytes → Bytes
  custom_variable_path name = bytes "/api/custom-variable/" ++ (escape name ++ bytes "/value")

  abbrev pub module_variable_path : Bytes → Bytes → Bytes
  module_variable_path label name =
      bytes "/api/variable/" ++ (escape label ++ 47 ∷ (escape name ++ bytes "/value"))

  abbrev pub reading : Bytes → Request
  reading path = record { method = get; url = c.base_url ++ path; body = []; content_type = [] }

  unfoldable pub get_variable : Bytes → (ℕ → Round) → Call
  get_variable name rounds =
      if equal name []
      then ([], empty_name)
      else send_request c (reading (custom_variable_path name)) rounds

  unfoldable pub set_variable : Bytes → Bytes → (ℕ → Round) → Call
  set_variable name value rounds =
      if equal name []
      then ([], empty_name)
      else send_request c
          (record {
            method = post;
            url = c.base_url ++ custom_variable_path name;
            body = value;
            content_type = bytes "text/plain";
          })
          rounds

  unfoldable pub get_module_variable : Bytes → Bytes → (ℕ → Round) → Call
  get_module_variable label name rounds =
      if equal label [] || equal name []
      then ([], empty_name)
      else send_request c (reading (module_variable_path label name)) rounds
