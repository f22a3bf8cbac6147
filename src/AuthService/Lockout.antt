-- ===== src/AuthService/Lockout.antt =====
-- What one call of the lockout of internal/app/authservice/service.go guarantees.
use obsidian.Common.Map.{lookup, lookup-insert, lookup-delete}
use obsidian.Common.{
  ℕ, suc, ◌+◌, ◌≤◌, ◌<◌, ◌≡◌, refl, ap, ◌∙◌, true, false, List, [], ◌∷◌, ◌++◌, none, some, arith,
  Bytes, same_refl, codes, false,
}
use obsidian.AuthService.{
  too_many_attempts, err, LoginAttempt, User, found, Users, Service, attempts_of, last_hour,
  record_attempt, fail_count, check_lockout, check_user, authenticate, unlock_account,
}

-- A failure that is recorded now is one more to count.
fail_count-last_hour :
    (duration now : ℕ) (tries : List LoginAttempt) (a : LoginAttempt)
    → 0 < duration
    → a.successful ≡ false
    → a.timestamp ≡ now
    → fail_count duration now (last_hour now (tries ++ a ∷ []))
      ≡ suc (fail_count duration now (last_hour now tries))
unfolding fail_count last_hour
fail_count-last_hour duration now [] a h off at = ground (arith, h, off, at)
fail_count-last_hour duration now (x ∷ tries) a h off at =
    ground (arith, fail_count-last_hour duration now tries a h off at)

module _ (db : Users) where
  -- Until its lock ends an account is refused, whatever the password, and the lock stays.
  pub authenticate-locked :
      (s : Service) (username password client_ip : Bytes) (until now : ℕ)
      → lookup username s.locked_users ≡ some until
      → now < until
      → ((authenticate db s username password client_ip now).1 ≡ err too_many_attempts)
        × (lookup username (authenticate db s username password client_ip now).0.locked_users
            ≡ some until)
  unfolding authenticate record_attempt
  authenticate-locked s username password client_ip until now h before = ground (arith, h, before)

  check_lockout-locks :
      (s : Service) (username : Bytes) (now : ℕ)
      → s.config.max_failed_attempts
        ≤ fail_count s.config.lockout_duration now (attempts_of s username)
      → lookup username (check_lockout s username now).locked_users
        ≡ some (now + s.config.lockout_duration)
  unfolding check_lockout
  check_lockout-locks s username now h = ground (
    arith,
    h,
    lookup-insert username username (now + s.config.lockout_duration) s.locked_users,
    same_refl username,
  )

  attempts_of-record_attempt :
      (s : Service) (username client_ip reason : Bytes) (now : ℕ)
      → attempts_of (record_attempt s username client_ip false reason now) username
        ≡ last_hour now (
            attempts_of s username
            ++ record {
              username = username;
              ip_address = client_ip;
              timestamp = now;
              successful = false;
              fail_reason = reason;
            }
              ∷ [])
  unfolding attempts_of record_attempt
  attempts_of-record_attempt s username client_ip reason now = ground (
    arith,
    lookup-insert username username
        (last_hour now (
          attempts_of s username
          ++ record {
            username = username;
            ip_address = client_ip;
            timestamp = now;
            successful = false;
            fail_reason = reason;
          }
            ∷ []))
        s.attempts,
    same_refl username,
  )

  check_user-wrong :
      (s : Service) (username password client_ip : Bytes) (now : ℕ) (user : User)
      → db.get_user username ≡ found user
      → user.enabled ≡ true
      → db.verify_password user.password_hash password ≡ false
      → (check_user db s username password client_ip now).0
        ≡ check_lockout
            (record_attempt s username client_ip false (codes "invalid_password") now)
            username
            now
  unfolding check_user
  check_user-wrong s username password client_ip now user known on wrong =
      ground (arith, known, on, wrong)

  pub wrong-locks :
      (s : Service) (username password client_ip : Bytes) (now : ℕ) (user : User)
      → db.get_user username ≡ found user
      → user.enabled ≡ true
      → db.verify_password user.password_hash password ≡ false
      → 0 < s.config.lockout_duration
      → s.config.max_failed_attempts
        ≤ suc (fail_count s.config.lockout_duration now (last_hour now (attempts_of s username)))
      → lookup username (check_user db s username password client_ip now).0.locked_users
        ≡ some (now + s.config.lockout_duration)
  unfolding record_attempt
  wrong-locks s username password client_ip now user known on wrong pos enough =
      let s' = record_attempt s username client_ip false (codes "invalid_password") now in
      let attempt : LoginAttempt = record {
        username = username;
        ip_address = client_ip;
        timestamp = now;
        successful = false;
        fail_reason = codes "invalid_password";
      } in
      let counted : fail_count s.config.lockout_duration now (attempts_of s' username)
          ≡ suc
              (fail_count s.config.lockout_duration now (last_hour now (attempts_of s username))) =
        ap (fail_count s.config.lockout_duration now)
          (attempts_of-record_attempt s username client_ip (codes "invalid_password") now)
        ∙ fail_count-last_hour s.config.lockout_duration now (attempts_of s username) attempt pos
            refl refl in
      ap (λ (t : Service). lookup username t.locked_users)
        (check_user-wrong s username password client_ip now user known on wrong)
      ∙ check_lockout-locks s' username now (ground (arith, counted, enough))

  pub authenticate-free :
      (s : Service) (username password client_ip : Bytes) (now : ℕ)
      → lookup username s.locked_users ≡ none
      → authenticate db s username password client_ip now
        ≡ check_user db s username password client_ip now
  unfolding authenticate
  authenticate-free s username password client_ip now free = ground (arith, free)

  -- An account that an administrator unlocked has no lock and no failures.
  pub unlock_account-authenticate :
      (s : Service) (username password client_ip : Bytes) (now : ℕ)
      → (authenticate db (unlock_account s username) username password client_ip now
          ≡ check_user db (unlock_account s username) username password client_ip now)
        × (attempts_of (unlock_account s username) username ≡ [])
  unfolding authenticate unlock_account attempts_of
  unlock_account-authenticate s username password client_ip now = ground (
    arith,
    lookup-delete username username s.locked_users,
    lookup-delete username username s.attempts,
    same_refl username,
  )
