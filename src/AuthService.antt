-- ===== src/AuthService.antt =====
-- internal/app/authservice/service.go: the lockout after failed logins. `Users` stands for the
-- database of users and for bcrypt. A call reads the clock once.
pub mod Lockout
pub mod Run
mod Tests
use obsidian.Common.Map.{Map, lookup, insert, delete}
use obsidian.Common.{
  ℕ, ◌+◌, ◌*◌, Bool, true, false, not, ◌&&◌, List, [], ◌∷◌, ◌++◌, Option, none, some, Bytes, codes,
  length, keep, ltb, leb, if◌then◌else◌,
}

abbrev pub hour : ℕ
hour = 3600 * 1_000_000_000

pub data Error : Type 0 where
  invalid_credentials user_disabled too_many_attempts database_error : Error

pub data Result (A : Type 0) : Type 0 where
  ok : A → Result A
  err : Error → Result A

pub record Config : Type 0 where
  pub max_failed_attempts : ℕ
  pub lockout_duration : ℕ

pub record LoginAttempt : Type 0 where
  pub username : Bytes
  pub ip_address : Bytes
  pub timestamp : ℕ
  pub successful : Bool
  pub fail_reason : Bytes

pub record User : Type 0 where
  pub username : Bytes
  pub password_hash : Bytes
  pub enabled : Bool

-- The answers of the database.
pub data Found : Type 0 where
  found : User → Found
  unknown_user broken : Found

pub record Users : Type 0 where
  pub get_user : Bytes → Found
  pub verify_password : Bytes → Bytes → Bool

pub record Service : Type 0 where
  pub config : Config
  pub attempts : Map (List LoginAttempt)
  pub locked_users : Map ℕ

unfoldable pub new_service : Config → Service
new_service config = record { config = config; attempts = []; locked_users = [] }

-- `s.attempts[username]`, which is empty for an absent name.
unfoldable pub attempts_of : Service → Bytes → List LoginAttempt
attempts_of s username = elim (lookup username s.attempts) [ none ↦ [] | some tries ↦ tries ]

unfoldable pub last_hour : ℕ → List LoginAttempt → List LoginAttempt
last_hour now = keep (λ a. ltb now (a.timestamp + hour))

unfoldable pub record_attempt : Service → Bytes → Bytes → Bool → Bytes → ℕ → Service
record_attempt s username client_ip success reason now =
    let attempt : LoginAttempt = record {
      username = username;
      ip_address = client_ip;
      timestamp = now;
      successful = success;
      fail_reason = reason;
    } in
    record s {
      attempts =
          insert username (last_hour now (attempts_of s username ++ attempt ∷ [])) s.attempts;
    }

unfoldable pub fail_count : ℕ → ℕ → List LoginAttempt → ℕ
fail_count duration now [] = 0
fail_count duration now (a ∷ tries) =
    (if not a.successful && ltb now (a.timestamp + duration) then 1 else 0)
    + fail_count duration now tries

unfoldable pub check_lockout : Service → Bytes → ℕ → Service
check_lockout s username now =
    if leb s.config.max_failed_attempts
      (fail_count s.config.lockout_duration now (attempts_of s username))
    then record s {
      locked_users = insert username (now + s.config.lockout_duration) s.locked_users;
    }
    else s

-- `Authenticate` after the test of the lock, up to the tokens.
unfoldable pub check_user : Users → Service → Bytes → Bytes → Bytes → ℕ → Service × Result User
check_user db s username password client_ip now = elim (db.get_user username) [
  | unknown_user ↦ (
    record_attempt s username client_ip false (codes "user_not_found") now,
    err invalid_credentials,
  )
  | broken ↦ (s, err database_error)
  | found user ↦
      if not user.enabled
      then (
        record_attempt s username client_ip false (codes "user_disabled") now,
        err user_disabled,
      )
      else if not (db.verify_password user.password_hash password)
      then (
        check_lockout (record_attempt s username client_ip false (codes "invalid_password") now)
            username now,
        err invalid_credentials,
      )
      else (let passed = record_attempt s username client_ip true [] now in
          (record passed { attempts = delete username passed.attempts }, ok user))
]

-- `Authenticate`, up to the tokens that it makes for the user.
unfoldable pub authenticate : Users → Service → Bytes → Bytes → Bytes → ℕ → Service × Result User
authenticate db s username password client_ip now = elim (lookup username s.locked_users) [
  | some until ↦
      if ltb now until
      then (
        record_attempt s username client_ip false (codes "account_locked") now,
        err too_many_attempts,
      )
      else check_user db (record s { locked_users = delete username s.locked_users }) username
          password client_ip now
  | none ↦ check_user db s username password client_ip now
]

unfoldable pub is_account_locked : Service → Bytes → ℕ → Service × Option ℕ
is_account_locked s username now = elim (lookup username s.locked_users) [
  | none ↦ (s, none)
  | some until ↦
      if ltb now until
      then (s, some until)
      else (record s { locked_users = delete username s.locked_users }, none)
]

unfoldable pub unlock_account : Service → Bytes → Service
unlock_account s username = record s {
  locked_users = delete username s.locked_users;
  attempts = delete username s.attempts;
}
