-- ===== src/Notification/AccessTests.antt =====
-- A witness: user 7, who is no admin, asks for the notifications of user 8 and registers for user 8.
use my_go.Common.{err}
use my_go.Notification.{RegisterTokenDto}
use my_go.Notification.Handlers.{User, Params, Texts}

-- Every number prints as 7, and no text is a number.
abbrev sevens : Texts
sevens = record {
  format_uint = λ n. "7";
  parse_int = λ t. err "no number";
  error_text = λ e. "failed";
}

abbrev seven : User
seven = record { user_id = 7; role = "user" }

abbrev of_eight : Params
of_eight = record { limit = "10"; offset = ""; user_id = "8"; id = "" }

abbrev for_eight : RegisterTokenDto
for_eight = record {
  user_id = "8";
  device_id = "phone";
  push_token = "token";
  type_name = "expo";
  platform = "ios";
}
