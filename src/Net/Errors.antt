-- ===== src/Net/Errors.antt =====
-- web/js/net/errors.js: the errors of the web program, by what they carry.
use Prim.Native.String.{String}
use sigopt_server.Base.{ℕ, ◌/◌, ◌==◌, ◌&&◌, ltb, Bool, true, false, Option, none, some, get_or}

-- A text, or the one for a path that is not found.
pub data Message : Type 0 where
  text_message : String → Message
  page_not_found : String → Message

pub record HttpError : Type 0 where
  pub message : Message
  pub status : Option ℕ
  pub shows_needs_login : Bool
  pub token_status : Option String

-- A status 0 counts as none.
pub is_client_error : HttpError → Bool
is_client_error e = elim e.status [ none ↦ false | some n ↦ ltb 0 n && (n / 100 == 4) ]

unfoldable pub bad_param_error : Option String → HttpError
bad_param_error message = record {
  message = text_message (get_or message "Bad Request");
  status = some 400;
  shows_needs_login = false;
  token_status = none;
}

unfoldable pub unauthorized_error : Option String → HttpError
unauthorized_error message = record {
  message = text_message (get_or message "Unauthorized");
  status = some 401;
  shows_needs_login = false;
  token_status = none;
}

-- The options are the path and the message, which comes first.
unfoldable pub not_found_error : Option String → Option String → Bool → HttpError
not_found_error path message shows_needs_login = record {
  message = elim message [
    | some m ↦ text_message m
    | none ↦ elim path [ some p ↦ page_not_found p | none ↦ text_message "Page Not Found" ]
  ];
  status = some 404;
  shows_needs_login = shows_needs_login;
  token_status = none;
}

unfoldable pub prompt_for_login_error : HttpError
unfolding not_found_error
prompt_for_login_error = not_found_error none (some "You must log in to see this page") true

unfoldable pub sickness_error : HttpError
sickness_error = record {
  message = text_message "This is a test error, no cause for alarm.";
  status = some 500;
  shows_needs_login = false;
  token_status = none;
}

unfoldable pub too_busy_error : HttpError
too_busy_error = record {
  message = text_message "Server is too busy to process new requests";
  status = some 503;
  shows_needs_login = false;
  token_status = none;
}
