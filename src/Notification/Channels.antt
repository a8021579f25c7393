-- ===== src/Notification/Channels.antt =====
-- The channels that send a notification, channel/channel.go. The push service's client, its tests and
-- its constants, the printing of values, and the wait between attempts are outside.
use my_go.Common.{
  ℕ, zero, suc, ◌+◌, ◌*◌, ltb, ℤ, pos, pos_part, ltb_ℤ, Duration, String, List, [], ◌∷◌, length,
  Option, none, some, Bool, true, false, not, ◌&&◌, ◌||◌, ◌==◌, if◌then◌else◌, Fallible, ok, err,
  StringMap, lookup, insert, str_eq, second,
}
use my_go.Notification.{
  JsonValue, json_text, json_number, json_other, Payload, NotificationTarget, NotificationPayload,
  DeviceToken,
}
use my_go.Notification.Repository.{Database, DbError}

pub data SendError : Type 0 where
  channel_disabled no_tokens no_valid_tokens not_implemented : SendError
  tokens_failed : DbError → SendError
  cancelled : String → SendError
  push_failed : String → SendError
  count_mismatch : ℕ → ℕ → SendError
  gave_up_after : ℤ → SendError → SendError
  gave_up_untried : ℤ → SendError

pub record ChannelResult : Type 0 where
  pub success : Bool
  pub retryable : Bool
  pub error : Option SendError

pub record ExpoConfig : Type 0 where
  pub enabled : Bool
  pub max_retries : ℤ

-- Of the settings of the channels that are not written yet, the code reads this one alone.
pub record SenderConfig : Type 0 where
  pub expo : ExpoConfig
  pub fcm_enabled : Bool
  pub apns_enabled : Bool
  pub email_enabled : Bool

pub record PushMessage : Type 0 where
  pub to : String
  pub title : String
  pub body : String
  pub content : StringMap String
  pub sound : String
  pub badge : Option ℤ
  pub priority : String
  pub channel_id : String

pub record PushResponse : Type 0 where
  pub status : String
  pub message : String

pub record Sdk (S : Type 0) : Type 0 where
  pub accepts_token : String → Bool
  pub publish_multiple : List PushMessage → S → S × Fallible String (List PushResponse)
  pub success_status : String
  pub device_not_registered : String
  pub message_too_big : String
  pub default_priority : String
  pub print_number : ℤ → String
  pub wait : Duration → S → S × Option String

abbrev pub gave_up : ℤ → Option SendError → SendError
gave_up max none = gave_up_untried max
gave_up max (some e) = gave_up_after max e

abbrev pub failing : Bool → SendError → ChannelResult
failing retryable e = record { success = false; retryable = retryable; error = some e }

abbrev pub text_at : String → Payload → String
text_at key p = elim (lookup key p) [
  | none ↦ ""
  | some v ↦ elim v [ json_text t ↦ t | json_number n ↦ "" | json_other t ↦ "" ]
]

abbrev pub number_at : String → Payload → Option ℤ
number_at key p = elim (lookup key p) [
  | none ↦ none
  | some v ↦ elim v [ json_text t ↦ none | json_number n ↦ some n | json_other t ↦ none ]
]

unfoldable pub expo_tokens : List DeviceToken → List String
expo_tokens [] = []
expo_tokens (t ∷ ts) =
    let rest = expo_tokens ts in
    if str_eq t.type_name "expo" && not (str_eq t.push_token "") then t.push_token ∷ rest else rest

module _ {S : Type 0} (sdk : Sdk S) where
  open sdk use {
    accepts_token, publish_multiple, success_status, device_not_registered, message_too_big,
    default_priority, print_number, wait,
  }

  abbrev pub printed : JsonValue → String
  printed (json_text t) = t
  printed (json_number n) = print_number n
  printed (json_other t) = t

  unfoldable pub data_map : Payload → StringMap String
  data_map [] = []
  data_map ((k, v) ∷ rest) = insert k (printed v) (data_map rest)

  abbrev pub message_for : NotificationPayload → String → PushMessage
  message_for p token = record {
    to = token;
    title = text_at "title" p.content;
    body = text_at "body" p.content;
    content = data_map p.content;
    sound = if str_eq (text_at "sound" p.content) "" then "default" else text_at "sound" p.content;
    badge = number_at "badge" p.content;
    priority = if ltb_ℤ (pos 0) p.priority then "high" else default_priority;
    channel_id = text_at "channelId" p.content;
  }

  -- A token that the client does not accept is left out.
  unfoldable pub messages_for : NotificationPayload → List String → List PushMessage
  messages_for p [] = []
  messages_for p (token ∷ rest) =
      let others = messages_for p rest in
      if accepts_token token then message_for p token ∷ others else others

  abbrev pub is_success : PushResponse → Bool
  is_success r = str_eq r.status success_status

  abbrev pub is_hopeless : PushResponse → Bool
  is_hopeless r =
      not (is_success r)
      && (not (str_eq r.message "")
          && (str_eq r.status device_not_registered || str_eq r.status message_too_big))

  -- The last response that is no success, as an error.
  unfoldable pub last_error : List PushResponse → Option SendError
  last_error [] = none
  last_error (r ∷ rs) = elim (last_error rs) [
    | some e ↦ some e
    | none ↦ if is_success r then none else some (push_failed r.message)
  ]

  unfoldable pub any_hopeless : List PushResponse → Bool
  any_hopeless [] = false
  any_hopeless (r ∷ rs) = let rest = any_hopeless rs in if is_hopeless r then true else rest

  -- What one attempt leads to: the call returns, or the loop goes on with this as `lastErr`.
  pub data Step : Type 0 where
    return : ChannelResult → Step
    try_again : SendError → Step

  abbrev pub on_failed : ℕ → SendError → List PushResponse → Step
  on_failed left e responses =
      if ltb 0 left && any_hopeless responses then return (failing false e) else try_again e

  abbrev pub answered : ℕ → Option SendError → List PushResponse → Step
  answered left none responses = return (record { success = true; retryable = false; error = none })
  answered left (some e) responses = on_failed left e responses

  -- `left` attempts come after this one.
  abbrev pub on_responses : ℕ → List PushMessage → Fallible String (List PushResponse) → Step
  on_responses left messages (err e) = try_again (push_failed e)
  on_responses left messages (ok responses) =
      if length responses == length messages
      then answered left (last_error responses) responses
      else try_again (count_mismatch (length messages) (length responses))

  abbrev pub pause : ℕ → S → S × Option String
  pause zero s = (s, none)
  pause (suc n) s = wait (pos (suc n * second)) s

  -- The loop, from attempt `n` on.
  unfoldable pub send_from : ℤ → List PushMessage → ℕ → ℕ → Option SendError → S → S × ChannelResult
  send_from max messages zero n last s = (s, failing true (gave_up max last))
  send_from max messages (suc left) n last s =
      let (s1, stopped) = pause n s in
      let (s2, r) = publish_multiple messages s1 in
      elim stopped [
        | some e ↦ (s1, failing true (cancelled e))
        | none ↦ elim (on_responses left messages r) [
          | return result ↦ (s2, result)
          | try_again e ↦ send_from max messages left (n + 1) (some e) s2
        ]
      ]

  module _ (db : Database S) where
    abbrev pub send_messages : ℤ → List PushMessage → S → S × ChannelResult
    send_messages max [] s = (s, failing false no_valid_tokens)
    send_messages max (m ∷ ms) s = send_from max (m ∷ ms) (pos_part max) 0 none s

    abbrev pub send_to_tokens : ℤ → NotificationPayload → List String → S → S × ChannelResult
    send_to_tokens max p [] s = (s, failing false no_tokens)
    send_to_tokens max p (t ∷ ts) s = send_messages max (messages_for p (t ∷ ts)) s

    abbrev pub with_tokens :
        ℤ → NotificationPayload → Fallible DbError (List DeviceToken) → S → S × ChannelResult
    with_tokens max p (err e) s = (s, failing false (tokens_failed e))
    with_tokens max p (ok tokens) s = send_to_tokens max p (expo_tokens tokens) s

    unfoldable pub expo_send :
        ExpoConfig → NotificationTarget → NotificationPayload → S → S × ChannelResult
    expo_send c target p s =
        if c.enabled
        then with_tokens c.max_retries p (db.tokens_of target.user_id s) s
        else (s, failing false channel_disabled)

    -- `Send` of the three channels that are not written yet.
    unfoldable pub placeholder_send : Bool → S → S × ChannelResult
    placeholder_send enabled s =
        if enabled then (s, failing false not_implemented) else (s, failing false channel_disabled)

    abbrev pub Channel : Type 0
    Channel = NotificationTarget → NotificationPayload → S → S × ChannelResult

    abbrev pub add_if : Bool → String → Channel → StringMap Channel → StringMap Channel
    add_if enabled name channel m = if enabled then insert name channel m else m

    unfoldable pub new_channel_registry : SenderConfig → StringMap Channel
    new_channel_registry c =
        add_if c.email_enabled "email" (λ t p s. placeholder_send c.email_enabled s)
          (add_if c.apns_enabled "apns" (λ t p s. placeholder_send c.apns_enabled s)
            (add_if c.fcm_enabled "fcm" (λ t p s. placeholder_send c.fcm_enabled s)
              (add_if c.expo.enabled "expo" (expo_send c.expo) [])))
