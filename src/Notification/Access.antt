-- ===== src/Notification/Access.antt =====
-- What a signed-in user who is no admin can reach through the handlers.
use my_go.Common.{◌≡◌, String, false, str_eq}
use my_go.Notification.Repository.{Database}
use my_go.Notification.Handlers.{User, Texts}

module _ {S : Type 0} (texts : Texts) (db : Database S) (user : User)
    (no_admin : str_eq user.role "admin" ≡ false) where
  abbrev own_id : String
  own_id = texts.format_uint user.user_id
