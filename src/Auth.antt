-- ===== src/Auth.antt =====
-- backend/auth: users, roles, access tokens and sessions.
pub mod Tokens
pub mod Roles
pub mod Middleware
pub mod Sessions
pub mod Handlers
use seagles.Common.{Bool}
use seagles.Text.{Text}

pub record User : Type 0 where
  pub id : Text
  pub username : Text
  pub email : Text
  pub role : Text
  pub token_id : Text
  pub must_change_password : Bool
