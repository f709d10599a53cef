-- ===== src/Users/Model.antt =====
-- api/src/api/auth/users.py and api/src/api/auth/tokens.py: users, device tokens, principals.
use tenir.Prelude.{ℕ, Bool, Option, List}
use tenir.Prelude.Text.{Text}

pub data Role : Type 0 where
  admin : Role
  member : Role

pub record User : Type 0 where
  pub user_id : Text
  pub username : Text
  pub household : Text
  pub role : Role
  pub password_hash : Option Text
  pub oidc_sub : Option Text
  pub email : Option Text

-- Times in milliseconds.
pub record DeviceToken : Type 0 where
  pub token_id : Text
  pub user_id : Text
  pub name : Text
  pub created_at : ℕ
  pub expires_at : ℕ

pub record Principal : Type 0 where
  pub user_id : Text
  pub household : Text
  pub role : Role
  pub username : Text
  pub sub : Option Text
  pub email : Option Text
  pub email_verified : Bool
  pub groups : List Text
  pub scope : Option Text
  pub token_id : Option Text
  pub expires_at : Option ℕ

-- The exceptions that the store raises.
pub data Refused : Type 0 where
  duplicate_user : Refused
  invalid_value : Refused
  no_such_user : Refused
  too_many_devices : Refused
  access_denied : Refused

pub data Outcome (A : Type 0) : Type 0 where
  raised : Refused → Outcome A
  returned : A → Outcome A
